-- ===== src/Filters.antt =====
-- `alert_filters` of app.py, with what its predicates select.
pub mod Meaning
use soc_dashboard.Common.{
  ℕ, Char, code, String, Bool, true, false, not, ◌&&◌, ◌||◌, Option, none, some, List, [], ◌∷◌,
  ◌++◌, ◌==◌, nat_eq, text_eq, leb, strip, Dict, lookup, if◌then◌else◌,
}
use Prim.Native.String.{◌++◌ as concat}
use soc_dashboard.Values.{http, Result, ok, err, ◌>>=◌}
use soc_dashboard.Db.{Alert}
use soc_dashboard.World.{Env}

-- The columns that a predicate may name: those of `FILTER_COLUMNS`, and the open queue's own.
pub data Column : Type 0 where
  severity source assigned_to status : Column

-- `("column = %s", value)` and `("created_at >= %s", value)`
pub data Clause : Type 0 where
  equals : Column → String → Clause
  since : String → Clause

-- `FILTER_COLUMNS`, by parameter
abbrev pub filter_columns : List (String × Column)
filter_columns = ("severity", severity) ∷ ("source", source) ∷ ("assigned_to", assigned_to) ∷ []

-- `(request.args.get(param) or "").strip()`
unfoldable pub arg_text : String → Dict String → String
arg_text param args = elim (lookup param args) [ none ↦ "" | some text ↦ strip text ]

-- The loop over `FILTER_COLUMNS`
unfoldable pub column_clauses : List (String × Column) → Dict String → List Clause
column_clauses [] args = []
column_clauses ((param, column) ∷ rest) args =
    let more = column_clauses rest args in
    if arg_text param args == "" then more else equals column (arg_text param args) ∷ more

-- `s.replace("Z", "+00:00")`
unfoldable pub replace_z : String → String
replace_z String.[] = ""
replace_z (String.◌∷◌ c s) =
    let rest = replace_z s in if code c == 90 then concat "+00:00" rest else String.◌∷◌ c rest

unfoldable pub since_clauses : Env → String → Result (List Clause)
since_clauses env created_after =
    if created_after == ""
    then ok []
    else if env.is_iso (replace_z created_after)
    then ok (since created_after ∷ [])
    else err (http 400 "created_after must be an ISO 8601 datetime")

unfoldable pub alert_filters : Env → List Clause → Dict String → Result (List Clause)
alert_filters env extra args = do
  more ← since_clauses env (arg_text "created_after" args)
  ok (extra ++ column_clauses filter_columns args ++ more)

abbrev pub has_text : Option String → String → Bool
has_text none value = false
has_text (some text) value = text == value

abbrev pub in_column : Column → String → Alert → Bool
in_column severity value a = a.severity == value
in_column source value a = has_text a.source value
in_column assigned_to value a = has_text a.assigned_to value
in_column status value a = a.status == value

abbrev pub not_before : Alert → Option ℕ → Bool
not_before a none = false
not_before a (some instant) = leb instant a.created_at

-- A row satisfies a predicate; all of them, joined by AND.
abbrev pub satisfies : Env → Clause → Alert → Bool
satisfies env (equals column value) a = in_column column value a
satisfies env (since text) a = not_before a (env.timestamp_of text)

unfoldable pub satisfies_all : Env → List Clause → Alert → Bool
satisfies_all env [] a = true
satisfies_all env (c ∷ cs) a = satisfies env c a && satisfies_all env cs a

abbrev pub is_some : Option ℕ → Bool
is_some none = false
is_some (some _) = true

-- The driver sends every value, and the server casts the texts that are compared with a time.
abbrev pub can_send : Env → Clause → Bool
can_send env (equals column value) = env.accepts value
can_send env (since text) = env.accepts text && is_some (env.timestamp_of text)

unfoldable pub can_send_all : Env → List Clause → Bool
can_send_all env [] = true
can_send_all env (c ∷ cs) = can_send env c && can_send_all env cs
