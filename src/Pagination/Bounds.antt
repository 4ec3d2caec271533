-- ===== src/Pagination/Bounds.antt =====
-- When the pagination of a request is accepted, and what it then is.
use soc_dashboard.Common.{
  ℕ, ◌+◌, ◌-◌, ◌*◌, ◌≤◌, ◌<◌, ◌≡◌, ◌↔◌, String, Dict, Option, none, some, ℤ, pos, negsuc, nat_eq,
  arith, lookup, int_of, refl, ap, ◌∙◌, sym, ◌⊎◌, inl, inr,
}
use mathlib.Core.Option.{some-injective}
use native.Mathlib.Nat.{div-add-mod', mod-lt}
use soc_dashboard.Values.{Result, ok, ◌>>=◌}
use soc_dashboard.World.{Env}
use soc_dashboard.Pagination.{int_arg, or_400, check_page, parse_pagination, total_pages}

abbrev Within : Option ℤ → Option ℤ → ℕ → ℕ → Type 0
Within a b page per_page =
    (a ≡ some (pos page))
    × (b ≡ some (pos per_page))
    × (1 ≤ page)
    × (1 ≤ per_page)
    × (per_page ≤ 500)

abbrev parsed : Option ℤ → Option ℤ → Result (ℕ × ℕ)
parsed a b = do
  page ← or_400 "page must be a positive integer" a
  per_page ← or_400 "per_page must be an integer between 1 and 500" b
  check_page page per_page

parsed_iff :
    (a b : Option ℤ) (page per_page : ℕ)
    → (parsed a b ≡ ok (page, per_page)) ↔ Within a b page per_page
unfolding check_page
parsed_iff none b p q = (λ e. absurd (cc), λ h. absurd (cc))
parsed_iff (some x) none p q = (λ e. absurd (cc), λ h. absurd (cc))
parsed_iff (some (negsuc m)) (some y) p q = ground arith
parsed_iff (some (pos m)) (some (negsuc n)) p q = ground arith
parsed_iff (some (pos m)) (some (pos n)) p q = ground arith

-- What a request asks for in an argument: the default where it is missing, else its integer.
abbrev pub Asks : Env → String → ℕ → Dict String → ℕ → Type 0
Asks env name default args n =
    ((lookup name args ≡ none) × (n ≡ default))
    ⊎ ((text : String) × (lookup name args ≡ some text)
        × (int_of env.decimal_of text ≡ some (pos n)))

asks_iff :
    (env : Env) (default n : ℕ) (o : Option String)
    → (elim o [ none ↦ some (pos default) | some text ↦ int_of env.decimal_of text ] ≡ some (pos n))
      ↔ (((o ≡ none) × (n ≡ default))
          ⊎ ((text : String) × (o ≡ some text) × (int_of env.decimal_of text ≡ some (pos n))))
asks_iff env default n none = (
  λ h. inl (refl, ground arith),
  λ h. elim h [ inl (k, l) ↦ ap (λ m. some (pos m)) (sym l) | inr (text, k, l) ↦ absurd (cc) ],
)
asks_iff env default n (some text) = (
  λ h. inr (text, refl, h),
  λ h. elim h [
    | inl (k, l) ↦ absurd (cc)
    | inr (text', k, l) ↦ ap (int_of env.decimal_of) (some-injective _ _ k) ∙ l
  ],
)

int_arg_iff :
    (env : Env) (name : String) (default n : ℕ) (args : Dict String)
    → (int_arg env name default args ≡ some (pos n)) ↔ Asks env name default args n
unfolding int_arg
int_arg_iff env name default n args = asks_iff env default n (lookup name args)

-- The pagination of a request is accepted exactly if its two arguments, 1 and 100 where they are
-- missing, are integers, the page at least 1 and the size from 1 to 500; then it is these two.
pub parse_pagination_iff :
    (env : Env) (args : Dict String) (page per_page : ℕ)
    → (parse_pagination env args ≡ ok (page, per_page)) ↔ (
        Asks env "page" 1 args page
        × Asks env "per_page" 100 args per_page
        × (1 ≤ page)
        × (1 ≤ per_page)
        × (per_page ≤ 500))
unfolding parse_pagination
parse_pagination_iff env args page per_page =
    let a = int_arg_iff env "page" 1 page args in
    let b = int_arg_iff env "per_page" 100 per_page args in
    let (to, from) =
      parsed_iff (int_arg env "page" 1 args) (int_arg env "per_page" 100 args) page per_page in
    (
      λ e. let (p, q, least, some_rows, most) = to e in (a.0 p, b.0 q, least, some_rows, most),
      λ h. let (p, q, least, some_rows, most) = h in from (a.1 p, b.1 q, least, some_rows, most),
    )

-- The pages are just enough: they hold all the rows, and one page less would not.
pub total_pages_lem :
    (total per_page : ℕ)
    → 1 ≤ per_page
    → (total ≤ total_pages total per_page * per_page)
      × (total_pages total per_page * per_page < total + per_page)
unfolding total_pages
total_pages_lem total per_page h =
    ground (arith, div-add-mod' (total + per_page - 1) per_page, mod-lt (total + per_page - 1) h)
