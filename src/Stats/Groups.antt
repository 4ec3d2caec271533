-- ===== src/Stats/Groups.antt =====
-- What the dicts of `api_stats` hold, where the database groups as SQL says.
use soc_dashboard.Common.{
  ℕ, ◌+◌, ◌<◌, ◌≡◌, ◌≢◌, refl, sym, ap, subst, ◌∙◌, String, Bool, true, false, ◌⊎◌, inl, inr,
  Option, none, some, List, [], ◌∷◌, length, filter, All, arith, ◌==◌, nat_eq, text_eq, eq_iff,
  Bool-cases, Dict, lookup, insert, lookup-insert, if◌then◌else◌,
}
use soc_dashboard.Sla.Metrics.{count_of}
use soc_dashboard.Stats.{coalesce, fill_dict, dict_of}

abbrev pub is_null : Option String → Bool
is_null none = true
is_null (some s) = false

abbrev pub is_text : String → Option String → Bool
is_text j none = false
is_text j (some s) = s == j

-- The counts in the rows whose key passes a test.
abbrev pub values : (Option String → Bool) → List (Option String × ℕ) → List ℕ
values p [] = []
values p ((k, n) ∷ rows) = let rest = values p rows in if p k then n ∷ rest else rest

abbrev single : ℕ → List ℕ
single n = if n == 0 then [] else n ∷ []

-- GROUP BY: one row for each value of the column, with its number of rows.
pub record IsGrouping (group_by : List (Option String) → List (Option String × ℕ)) : Type 0 where
  pub of_null :
      (keys : List (Option String))
      → values is_null (group_by keys) ≡ single (length (filter is_null keys))
  pub of_text :
      (j : String) (keys : List (Option String))
      → values (is_text j) (group_by keys) ≡ single (length (filter (is_text j) keys))

abbrev pub last_or : ℕ → List ℕ → ℕ
last_or v [] = v
last_or v (n ∷ ns) = last_or n ns

count_of-insert :
    (k j : String) (n : ℕ) (d : Dict ℕ)
    → count_of j (insert k n d) ≡ (if k == j then n else count_of j d)
count_of-insert k j n d = elim (Bool-cases (k == j)) [
  | inl e ↦ rw (lookup-insert k j n d, e) refl
  | inr e ↦ rw (lookup-insert k j n d, e) refl
]

count_of-fill_dict :
    (j : String) (d : Dict ℕ) (rows : List (Option String × ℕ))
    → count_of j (fill_dict d rows) ≡ last_or (count_of j d) (values (λ k. coalesce k == j) rows)
unfolding fill_dict
count_of-fill_dict j d [] = refl
count_of-fill_dict j d ((k, n) ∷ rows) = elim (Bool-cases (coalesce k == j)) [
  | inl e ↦ rw e (
      count_of-fill_dict j (insert (coalesce k) n d) rows
      ∙ ap (λ v. last_or v (values (λ i. coalesce i == j) rows))
          (count_of-insert (coalesce k) j n d ∙ (rw e refl)))
  | inr e ↦ rw e (
      count_of-fill_dict j (insert (coalesce k) n d) rows
      ∙ ap (λ v. last_or v (values (λ i. coalesce i == j) rows))
          (count_of-insert (coalesce k) j n d ∙ (rw e refl)))
]

-- Under a key that no NULL is shown as, the rows are those of the key.
values-coalesce :
    (j : String) (rows : List (Option String × ℕ))
    → (j ≢ "unknown") ⊎ (values is_null rows ≡ [])
    → values (λ k. coalesce k == j) rows ≡ values (is_text j) rows
values-coalesce j [] h = refl
values-coalesce j ((some s, n) ∷ rows) h =
    ap (λ l. if s == j then n ∷ l else l) (values-coalesce j rows h)
values-coalesce j ((none, n) ∷ rows) (inr h) = absurd (cc)
values-coalesce j ((none, n) ∷ rows) (inl h) = elim (Bool-cases ("unknown" == j)) [
  | inl e ↦ absurd (h (sym ((eq_iff "unknown" j).0 e)))
  | inr e ↦ rw e (values-coalesce j rows (inl h))
]

last_or-single : (n : ℕ) → last_or 0 (single n) ≡ n
last_or-single n = ground arith

last_or-All :
    (P : ℕ → Type 0) (v : ℕ) (rows : List (Option String × ℕ))
    → P v
    → All P (values is_null rows)
    → All P (values (is_text "unknown") rows)
    → P (last_or v (values (λ k. coalesce k == "unknown") rows))
last_or-All P v [] p hn ht = p
last_or-All P v ((none, n) ∷ rows) p hn ht = last_or-All P n rows hn.0 hn.1 ht
last_or-All P v ((some s, n) ∷ rows) p hn ht = elim (Bool-cases (s == "unknown")) [
  | inl e ↦
      let both : All P (n ∷ values (is_text "unknown") rows) = rw e at ht in
      rw e (last_or-All P n rows both.0 hn both.1)
  | inr e ↦
      let rest : All P (values (is_text "unknown") rows) = rw e at ht in
      rw e (last_or-All P v rows p hn rest)
]

All-single : (P : ℕ → Type 0) (n : ℕ) → P n → All P (single n)
All-single P n p = elim (Bool-cases (n == 0)) [ inl e ↦ rw e tt | inr e ↦ rw e (p, tt) ]

module _ (group_by : List (Option String) → List (Option String × ℕ))
    (h : IsGrouping group_by) where
  -- An entry is the number of rows with that key, unless NULL is shown under the same key.
  pub count_of-dict_of :
      (j : String) (keys : List (Option String))
      → (j ≢ "unknown") ⊎ (length (filter is_null keys) ≡ 0)
      → count_of j (dict_of (group_by keys)) ≡ length (filter (is_text j) keys)
  unfolding lookup
  count_of-dict_of j keys k =
      let safe : (j ≢ "unknown") ⊎ (values is_null (group_by keys) ≡ []) = elim k [
        | inl ne ↦ inl ne
        | inr e ↦ inr (h.of_null keys ∙ ap single e)
      ] in
      count_of-fill_dict j [] (group_by keys)
      ∙ ap (last_or 0) (values-coalesce j (group_by keys) safe ∙ h.of_text j keys)
      ∙ last_or-single _

  -- Where the database groups as SQL says and a column has NULLs and the text 'unknown', the entry
  -- 'unknown' of the dict counts fewer rows than there are of the two together.
  pub unknown_lost :
      (keys : List (Option String))
      → 0 < length (filter is_null keys)
      → 0 < length (filter (is_text "unknown") keys)
      → count_of "unknown" (dict_of (group_by keys))
        < length (filter is_null keys) + length (filter (is_text "unknown") keys)
  unfolding lookup
  unknown_lost keys some_null some_text =
      let nulls = length (filter is_null keys) in
      let texts = length (filter (is_text "unknown") keys) in
      subst (λ n. n < nulls + texts) (sym (count_of-fill_dict "unknown" [] (group_by keys)))
        (last_or-All (λ n. n < nulls + texts) 0 (group_by keys) (omega (arith, some_null))
          (subst (All (λ n. n < nulls + texts)) (sym (h.of_null keys))
            (All-single _ nulls (omega (arith, some_text))))
          (subst (All (λ n. n < nulls + texts)) (sym (h.of_text "unknown" keys))
            (All-single _ texts (omega (arith, some_null)))))
