-- ===== src/Pagination.antt =====
-- `_parse_pagination` of app.py, and the number of pages of `_list_alerts`.
pub mod Bounds
use soc_dashboard.Common.{
  ℕ, ◌+◌, ◌-◌, ◌/◌, String, ◌==◌, nat_eq, leb, ltb, ◌||◌, Option, none, some, Dict, lookup, int_of,
  ℤ, pos, negsuc, if◌then◌else◌,
}
use soc_dashboard.Values.{http, Result, ok, err, ◌>>=◌}
use soc_dashboard.World.{Env}

-- `int(request.args.get(name, default))`; the arguments are those of the query string.
unfoldable pub int_arg : Env → String → ℕ → Dict String → Option ℤ
int_arg env name default args = elim (lookup name args) [
  | none ↦ some (pos default)
  | some text ↦ int_of env.decimal_of text
]

abbrev pub or_400 : String → Option ℤ → Result ℤ
or_400 description none = err (http 400 description)
or_400 description (some n) = ok n

-- The two range checks, in their order.
unfoldable pub check_page : ℤ → ℤ → Result (ℕ × ℕ)
check_page (negsuc _) per_page = err (http 400 "page must be >= 1")
check_page (pos page) (negsuc _) =
    if ltb page 1
    then err (http 400 "page must be >= 1")
    else err (http 400 "per_page must be between 1 and 500")
check_page (pos page) (pos per_page) =
    if ltb page 1
    then err (http 400 "page must be >= 1")
    else if ltb per_page 1 || ltb 500 per_page
    then err (http 400 "per_page must be between 1 and 500")
    else ok (page, per_page)

unfoldable pub parse_pagination : Env → Dict String → Result (ℕ × ℕ)
parse_pagination env args = do
  page ← or_400 "page must be a positive integer" (int_arg env "page" 1 args)
  per_page ←
      or_400 "per_page must be an integer between 1 and 500" (int_arg env "per_page" 100 args)
  check_page page per_page

-- `(total + per_page - 1) // per_page if total else 0`; `per_page` is not 0.
unfoldable pub total_pages : ℕ → ℕ → ℕ
total_pages total per_page = if total == 0 then 0 else (total + per_page - 1) / per_page
