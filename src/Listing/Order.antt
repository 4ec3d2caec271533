-- ===== src/Listing/Order.antt =====
-- The order of the lists: `_SEVERITY_ORDER` of app.py. The sort itself is PostgreSQL's; what is
-- relied on is `IsOrdering`, and `sort_by_insertion` is a function that has it.
use soc_dashboard.Common.{
  ℕ, ◌≡◌, refl, String, Bool, true, false, ◌&&◌, ◌||◌, List, [], ◌∷◌, ◌==◌, nat_eq, text_eq, ltb,
  leb, length, filter, All, if◌then◌else◌, arith, Bool-cases, inl, inr, ◌⊎◌, ◌↔◌, All-imp,
}
use soc_dashboard.Db.{Alert}

-- `CASE severity … END`
unfoldable pub severity_case : String → ℕ
severity_case sev =
    if sev == "CRITICAL"
    then 1
    else if sev == "HIGH"
    then 2
    else if sev == "MEDIUM"
    then 3
    else if sev == "LOW"
    then 4
    else 5

-- a may stand before b
abbrev pub precedes : Alert → Alert → Bool
precedes a b =
    ltb (severity_case a.severity) (severity_case b.severity)
    || (severity_case a.severity == severity_case b.severity && leb b.created_at a.created_at)

abbrev pub Before : Alert → Alert → Type 0
Before a b = precedes a b ≡ true

abbrev pub IsSorted : List Alert → Type 0
IsSorted [] = Unit
IsSorted (a ∷ rest) = All (Before a) rest × IsSorted rest

-- A row of a list.
abbrev pub In : Alert → List Alert → Type 0
In a [] = ⊥
In a (b ∷ rest) = (a ≡ b) ⊎ In a rest

-- ORDER BY gives the same rows, in an order that keeps to the keys; nothing is said of rows that tie.
pub record IsOrdering (sort : List Alert → List Alert) : Type 0 where
  pub members : (rows : List Alert) (a : Alert) → In a (sort rows) ↔ In a rows
  pub same_rows :
      (p : Alert → Bool) (rows : List Alert)
      → length (filter p (sort rows)) ≡ length (filter p rows)
  pub in_order : (rows : List Alert) → IsSorted (sort rows)

unfoldable pub place : Alert → List Alert → List Alert
place a [] = a ∷ []
place a (b ∷ rest) = let more = place a rest in if precedes a b then a ∷ b ∷ rest else b ∷ more

unfoldable pub sort_by_insertion : List Alert → List Alert
sort_by_insertion [] = []
sort_by_insertion (a ∷ rest) = place a (sort_by_insertion rest)

Before-trans : (a b c : Alert) → Before a b → Before b c → Before a c
Before-trans a b c h k = ground arith

Before-total : (a b : Alert) → precedes a b ≡ false → Before b a
Before-total a b h = ground arith

count-place :
    (p : Alert → Bool) (a : Alert) (rows : List Alert)
    → length (filter p (place a rows)) ≡ length (filter p (a ∷ rows))
unfolding place
count-place p a [] = refl
count-place p a (b ∷ rest) = elim (Bool-cases (precedes a b)) [
  | inl e ↦ rw e refl
  | inr e ↦ rw e (ground (arith, count-place p a rest))
]

All-place :
    (c a : Alert) (rows : List Alert)
    → Before c a
    → All (Before c) rows
    → All (Before c) (place a rows)
unfolding place
All-place c a [] h hr = (h, tt)
All-place c a (b ∷ rest) h hr = elim (Bool-cases (precedes a b)) [
  | inl e ↦ rw e (h, hr)
  | inr e ↦ rw e (hr.0, All-place c a rest h hr.1)
]

IsSorted-place : (a : Alert) (rows : List Alert) → IsSorted rows → IsSorted (place a rows)
unfolding place
IsSorted-place a [] h = (tt, tt)
IsSorted-place a (b ∷ rest) h = elim (Bool-cases (precedes a b)) [
  | inl e ↦ rw e ((e, All-imp (Before b) (Before a) rest (λ c k. Before-trans a b c e k) h.0), h)
  | inr e ↦ rw e (All-place b a rest (Before-total a b e) h.0, IsSorted-place a rest h.1)
]

count-sort_by_insertion :
    (p : Alert → Bool) (rows : List Alert)
    → length (filter p (sort_by_insertion rows)) ≡ length (filter p rows)
unfolding sort_by_insertion
count-sort_by_insertion p [] = refl
count-sort_by_insertion p (a ∷ rest) =
    ground (arith, count-place p a (sort_by_insertion rest), count-sort_by_insertion p rest)

IsSorted-sort_by_insertion : (rows : List Alert) → IsSorted (sort_by_insertion rows)
unfolding sort_by_insertion
IsSorted-sort_by_insertion [] = tt
IsSorted-sort_by_insertion (a ∷ rest) =
    IsSorted-place a (sort_by_insertion rest) (IsSorted-sort_by_insertion rest)

In-place : (c a : Alert) (rows : List Alert) → In c (place a rows) ↔ In c (a ∷ rows)
unfolding place
In-place c a [] = (λ h. h, λ h. h)
In-place c a (b ∷ rest) = elim (Bool-cases (precedes a b)) [
  | inl e ↦ rw e (λ h. h, λ h. h)
  | inr e ↦ rw e (
    λ h. elim h [
      | inl same ↦ inr (inl same)
      | inr more ↦ elim ((In-place c a rest).0 more) [
        | inl same ↦ inl same
        | inr there ↦ inr (inr there)
      ]
    ],
    λ h. elim h [
      | inl same ↦ inr ((In-place c a rest).1 (inl same))
      | inr (inl same) ↦ inl same
      | inr (inr there) ↦ inr ((In-place c a rest).1 (inr there))
    ],
  )
]

In-sort_by_insertion : (rows : List Alert) (c : Alert) → In c (sort_by_insertion rows) ↔ In c rows
unfolding sort_by_insertion
In-sort_by_insertion [] c = (λ h. h, λ h. h)
In-sort_by_insertion (a ∷ rest) c =
    let p = In-place c a (sort_by_insertion rest) in
    let q = In-sort_by_insertion rest c in
    (
      λ h. elim (p.0 h) [ inl same ↦ inl same | inr there ↦ inr (q.0 there) ],
      λ h. p.1 (elim h [ inl same ↦ inl same | inr there ↦ inr (q.1 there) ]),
    )

pub sort_by_insertion-IsOrdering : IsOrdering sort_by_insertion
sort_by_insertion-IsOrdering = record {
  members = In-sort_by_insertion;
  same_rows = count-sort_by_insertion;
  in_order = IsSorted-sort_by_insertion;
}
