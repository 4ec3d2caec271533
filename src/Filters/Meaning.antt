-- ===== src/Filters/Meaning.antt =====
-- What the filters of a request select.
use soc_dashboard.Common.{
  String, Bool, false, ◌&&◌, ◌||◌, List, [], ◌∷◌, ◌++◌, ◌==◌, text_eq, ◌≡◌, ◌∙◌, ◌⊎◌, refl, ap,
  Dict, if◌then◌else◌, arith, Bool-cases, inl, inr,
}
use soc_dashboard.Values.{http, ok, err, ok-injective, Result-cases, Exn, err-ok}
use soc_dashboard.Db.{Alert}
use soc_dashboard.World.{Env}
use soc_dashboard.Filters.{
  Column, severity, source, assigned_to, Clause, since, filter_columns, arg_text, column_clauses,
  replace_z, since_clauses, alert_filters, in_column, not_before, satisfies_all,
}

satisfies_all-append :
    (env : Env) (a : Alert) (cs ds : List Clause)
    → satisfies_all env (cs ++ ds) a ≡ (satisfies_all env cs a && satisfies_all env ds a)
unfolding satisfies_all
satisfies_all-append env a [] ds = refl
satisfies_all-append env a (c ∷ cs) ds = ground (arith, satisfies_all-append env a cs ds)

-- An argument that is missing or blank asks for nothing.
abbrev pub asks : String → Column → Dict String → Alert → Bool
asks param column args a = arg_text param args == "" || in_column column (arg_text param args) a

abbrev pub asks_since : Env → Dict String → Alert → Bool
asks_since env args a =
    arg_text "created_after" args == ""
    || not_before a (env.timestamp_of (arg_text "created_after" args))

columns_lem :
    (env : Env) (args : Dict String) (a : Alert)
    → satisfies_all env (column_clauses filter_columns args) a ≡ (
        asks "severity" severity args a
        && asks "source" source args a
        && asks "assigned_to" assigned_to args a)
unfolding satisfies_all column_clauses
columns_lem env args a = ground arith

since_clauses_of :
    (env : Env) (text : String) (cs : List Clause)
    → since_clauses env text ≡ ok cs
    → (if text == "" then [] else since text ∷ []) ≡ cs
unfolding since_clauses
since_clauses_of env text cs e = elim (Bool-cases (text == "")) [
  | inl b ↦ rw b (ok-injective (rw (since_clauses, b) at e))
  | inr b ↦ rw b (elim (Bool-cases (env.is_iso (replace_z text))) [
    | inl c ↦ ok-injective (rw (since_clauses, b, c) at e)
    | inr c ↦ absurd (err-ok (rw (since_clauses, b, c) at e))
  ])
]

since_lem :
    (env : Env) (text : String) (a : Alert)
    → satisfies_all env (if text == "" then [] else since text ∷ []) a
      ≡ (text == "" || not_before a (env.timestamp_of text))
unfolding satisfies_all
since_lem env text a = elim (Bool-cases (text == "")) [
  | inl b ↦ rw b refl
  | inr b ↦ rw b (ground arith)
]

conjunction :
    (s u v x p q r t : Bool)
    → s ≡ (u && t)
    → u ≡ (x && v)
    → v ≡ (p && q && r)
    → s ≡ (x && p && q && r && t)
conjunction s u v x p q r t h k l = ground arith

filters_of :
    (env : Env) (extra more : List Clause) (args : Dict String) (cs : List Clause) (a : Alert)
    → extra ++ column_clauses filter_columns args ++ more ≡ cs
    → satisfies_all env more a ≡ asks_since env args a
    → satisfies_all env cs a ≡ (
        satisfies_all env extra a
        && asks "severity" severity args a
        && asks "source" source args a
        && asks "assigned_to" assigned_to args a
        && asks_since env args a)
filters_of env extra more args cs a e h =
    let columns = column_clauses filter_columns args in
    conjunction (satisfies_all env cs a) (satisfies_all env (extra ++ columns) a)
      (satisfies_all env columns a) (satisfies_all env extra a) (asks "severity" severity args a)
      (asks "source" source args a) (asks "assigned_to" assigned_to args a) (asks_since env args a)
      (rw (← e) (
        satisfies_all-append env a (extra ++ columns) more
        ∙ ap (λ b. satisfies_all env (extra ++ columns) a && b) h))
      (satisfies_all-append env a extra columns) (columns_lem env args a)

-- Where the filters of a request are accepted, a row passes them exactly if it passes the
-- endpoint's own predicates, equals the request's severity, source and assignee in each that is
-- given and not blank, and, if `created_after` is given and not blank, is not older than that. They
-- are refused, with status 400, where `created_after` is not blank and not in ISO 8601.
pub alert_filters_lem :
    (env : Env) (extra : List Clause) (args : Dict String)
    → ((cs : List Clause) (a : Alert)
        → alert_filters env extra args ≡ ok cs
        → satisfies_all env cs a ≡ (
            satisfies_all env extra a
            && asks "severity" severity args a
            && asks "source" source args a
            && asks "assigned_to" assigned_to args a
            && asks_since env args a))
      × ((arg_text "created_after" args == "") ≡ false
          → env.is_iso (replace_z (arg_text "created_after" args)) ≡ false
          → alert_filters env extra args
            ≡ err (http 400 "created_after must be an ISO 8601 datetime"))
unfolding alert_filters since_clauses
alert_filters_lem env extra args = (
  λ cs a e. accepted cs a e (Result-cases (since_clauses env text)),
  λ b c. rw (since_clauses, b, c) refl,
)
  where
    text : String
    text = arg_text "created_after" args

    accepted :
        (cs : List Clause) (a : Alert)
        → alert_filters env extra args ≡ ok cs
        → ((more : List Clause) × (since_clauses env text ≡ ok more))
          ⊎ ((x : Exn) × (since_clauses env text ≡ err x))
        → satisfies_all env cs a ≡ (
            satisfies_all env extra a
            && asks "severity" severity args a
            && asks "source" source args a
            && asks "assigned_to" assigned_to args a
            && asks_since env args a)
    accepted cs a e (inl (more, m)) =
        filters_of env extra more args cs a (ok-injective (rw m at e))
          (rw (← since_clauses_of env text more m) (since_lem env text a))
    accepted cs a e (inr (x, m)) = absurd (err-ok (rw m at e))
