-- ===== src/Tests/Stats.antt =====
-- Witnesses for the statistics endpoint: a grouping that keeps the order of the keys' last rows.
use soc_dashboard.Common.{
  ℕ, suc, ◌+◌, ◌<◌, ◌≡◌, ◌≢◌, refl, ap, ◌∙◌, ◌⊎◌, inl, inr, String, Bool, true, false, Option, none,
  some, List, [], ◌∷◌, length, filter, arith, ◌==◌, nat_eq, text_eq, eq_iff, Bool-cases,
  if◌then◌else◌,
}
use soc_dashboard.Sla.{Rate, compute_sla}
use soc_dashboard.Sla.Metrics.{count_of}
use soc_dashboard.World.{respond, success}
use soc_dashboard.World.Failure.{IsFailure}
use soc_dashboard.Stats.{Aggregates, Counts, sla_rows, dict_of, api_stats}
use soc_dashboard.Stats.Groups.{IsGrouping, is_null, is_text, values, unknown_lost}
use soc_dashboard.Stats.Report.{IsCount, api_stats_lem}
use soc_dashboard.Tests.Fixtures.{world}

abbrev same : Option String → Option String → Bool
same none none = true
same none (some t) = false
same (some s) none = false
same (some s) (some t) = t == s

abbrev bump : Option String → List (Option String × ℕ) → List (Option String × ℕ)
bump k [] = (k, 1) ∷ []
bump k ((j, n) ∷ rows) =
    let rest = bump k rows in if same k j then (j, n + 1) ∷ rows else (j, n) ∷ rest

abbrev group_by : List (Option String) → List (Option String × ℕ)
group_by [] = []
group_by (k ∷ keys) = bump k (group_by keys)

abbrev bump_first : List ℕ → List ℕ
bump_first [] = 1 ∷ []
bump_first (n ∷ ns) = (n + 1) ∷ ns

values-bump :
    (p : Option String → Bool) (k : Option String) (rows : List (Option String × ℕ))
    → ((j : Option String) → same k j ≡ true → p j ≡ p k)
    → ((j : Option String) → same k j ≡ false → p k ≡ true → p j ≡ false)
    → values p (bump k rows) ≡ (if p k then bump_first (values p rows) else values p rows)
values-bump p k [] h m = refl
values-bump p k ((j, n) ∷ rows) h m = elim (Bool-cases (same k j)) [
  | inl e ↦ elim (Bool-cases (p k)) [
    | inl f ↦ rw (e, h j e, f) refl
    | inr f ↦ rw (e, h j e, f) refl
  ]
  | inr e ↦ elim (Bool-cases (p k)) [
    | inl f ↦ rw (e, m j e f, f) (values-bump p k rows h m ∙ (rw f refl))
    | inr f ↦
        rw (e, f) (ap (λ l. if p j then n ∷ l else l) (values-bump p k rows h m ∙ (rw f refl)))
  ]
]

abbrev single : ℕ → List ℕ
single n = if n == 0 then [] else n ∷ []

bump-single : (n : ℕ) → bump_first (single n) ≡ single (suc n)
bump-single n = elim (Bool-cases (n == 0)) [
  | inl e ↦ let zero_n : n ≡ 0 = ground arith in rw zero_n refl
  | inr e ↦
      let next : (suc n == 0) ≡ false = ground arith in
      rw (e, next) (ap (λ m. m ∷ []) (omega arith))
]

values-group_by :
    (p : Option String → Bool)
    → ((k j : Option String) → same k j ≡ true → p j ≡ p k)
    → ((k j : Option String) → same k j ≡ false → p k ≡ true → p j ≡ false)
    → (keys : List (Option String)) → values p (group_by keys) ≡ single (length (filter p keys))
values-group_by p h m [] = refl
values-group_by p h m (k ∷ keys) = elim (Bool-cases (p k)) [
  | inl e ↦
      values-bump p k (group_by keys) (h k) (m k)
      ∙ (rw e (ap bump_first (values-group_by p h m keys) ∙ bump-single (length (filter p keys))))
  | inr e ↦ values-bump p k (group_by keys) (h k) (m k) ∙ (rw e (values-group_by p h m keys))
]

null_alike : (k j : Option String) → same k j ≡ true → is_null j ≡ is_null k
null_alike none none e = refl
null_alike none (some t) e = absurd (cc)
null_alike (some s) none e = absurd (cc)
null_alike (some s) (some t) e = refl

null_apart : (k j : Option String) → same k j ≡ false → is_null k ≡ true → is_null j ≡ false
null_apart none none e h = absurd (cc)
null_apart none (some t) e h = refl
null_apart (some s) none e h = absurd (cc)
null_apart (some s) (some t) e h = refl

text_alike : (i : String) (k j : Option String) → same k j ≡ true → is_text i j ≡ is_text i k
text_alike i none none e = refl
text_alike i none (some t) e = absurd (cc)
text_alike i (some s) none e = absurd (cc)
text_alike i (some s) (some t) e = ap (λ x. x == i) ((eq_iff t s).0 e)

text_apart :
    (i : String) (k j : Option String) → same k j ≡ false → is_text i k ≡ true → is_text i j ≡ false
text_apart i none j e h = absurd (cc)
text_apart i (some s) none e h = refl
text_apart i (some s) (some t) e h = ground (arith, eq_iff t s, eq_iff s i, eq_iff t i)

grouping : IsGrouping group_by
grouping = record {
  of_null = values-group_by is_null null_alike null_apart;
  of_text = λ i. values-group_by (is_text i) (text_alike i) (text_apart i);
}

unknown_lost_example :
    count_of "unknown" (dict_of (group_by (none ∷ some "unknown" ∷ none ∷ []))) < 2 + 1
unknown_lost_example =
    unknown_lost group_by grouping (none ∷ some "unknown" ∷ none ∷ []) (omega arith) (omega arith)

abbrev agg : Aggregates
agg = record { group_by = group_by; distinct = λ column. []; day_averages = λ actions. [] }

abbrev rate : Rate
rate part whole = 0

api_stats_lem_example :
    ((respond (api_stats rate agg) world).1.session.db ≡ world.session.db)
    × (((c : Counts) × ((respond (api_stats rate agg) world).0
            ≡ success 200 (record {
              counts = c;
              sla = compute_sla rate world.session.now (sla_rows world.session.db.tables);
            }))
          × IsCount rate agg world.session.now world.session.db.tables c)
        ⊎ (IsFailure (respond (api_stats rate agg) world).0 × (world.session.faults ≢ [])))
api_stats_lem_example = api_stats_lem rate agg grouping world
