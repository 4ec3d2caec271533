-- ===== src/Listing/Ties.antt =====
-- Where no two rows tie, ORDER BY leaves one order only.
use soc_dashboard.Common.{
  ◌≤◌, ◌≡◌, refl, sym, subst, ◌∙◌, Bool, true, false, ◌&&◌, ◌==◌, nat_eq, List, [], ◌∷◌, length,
  filter, All, arith, Bool-cases, inl, inr,
}
use soc_dashboard.Db.{Alert}
use soc_dashboard.Listing.Order.{
  severity_case, Before, IsSorted, In, IsOrdering, sort_by_insertion, sort_by_insertion-IsOrdering,
}

-- Two rows tie if both keys are the same.
abbrev pub ties : Alert → Alert → Bool
ties a b = severity_case a.severity == severity_case b.severity && a.created_at == b.created_at

-- No row ties with another one.
abbrev pub IsUntied : List Alert → Type 0
IsUntied rows = (a : Alert) → length (filter (ties a) rows) ≤ 1

-- In order, and each row apart from those after it.
abbrev Strict : List Alert → Type 0
Strict [] = Unit
Strict (a ∷ rest) = All (λ b. (Before a b) × (ties a b ≡ false)) rest × Strict rest

ties_self : (a : Alert) → ties a a ≡ true
ties_self a = ground arith

none_tied :
    (a : Alert) (rows : List Alert)
    → length (filter (ties a) rows) ≤ 0
    → All (Before a) rows
    → All (λ b. (Before a b) × (ties a b ≡ false)) rows
none_tied a [] h k = tt
none_tied a (b ∷ rest) h k = elim (Bool-cases (ties a b)) [
  | inl e ↦ absurd (ground (arith, h, e))
  | inr e ↦ ((k.0, e), none_tied a rest (ground (arith, h, e)) k.1)
]

tail-IsUntied : (a : Alert) (rows : List Alert) → IsUntied (a ∷ rows) → IsUntied rows
tail-IsUntied a rows h c = let k = h c in ground (arith, k)

IsSorted-Strict : (rows : List Alert) → IsUntied rows → IsSorted rows → Strict rows
IsSorted-Strict [] h k = tt
IsSorted-Strict (a ∷ rest) h k =
    let few : length (filter (ties a) rest) ≤ 0 =
      let l = h a in let e = ties_self a in ground (arith, l, e) in
    (none_tied a rest few k.0, IsSorted-Strict rest (tail-IsUntied a rest h) k.1)

All-In : (P : Alert → Type 0) (c : Alert) (rows : List Alert) → All P rows → In c rows → P c
All-In P c [] h none_there = absurd none_there
All-In P c (a ∷ rest) h (inl same) = subst P (sym same) h.0
All-In P c (a ∷ rest) h (inr there) = All-In P c rest h.1 there

-- Neither row can stand before the other.
apart : (a b : Alert) → Before a b → ties a b ≡ false → Before b a → ⊥
apart a b h k l = ground (arith, h, k, l)

module _ (a b : Alert) (xs ys : List Alert) where
  heads : Strict (a ∷ xs) → Strict (b ∷ ys) → In a (b ∷ ys) → In b (a ∷ xs) → a ≡ b
  heads s t (inl same) k = same
  heads s t (inr there) (inl same) = sym same
  heads s t (inr there) (inr there') =
      let p = All-In _ a ys t.0 there in
      let q = All-In _ b xs s.0 there' in absurd (apart a b q.0 q.1 p.0)

  -- A later row is no other than in the later ones.
  later : (c : Alert) → Strict (a ∷ xs) → In c xs → a ≡ b → In c (b ∷ ys) → In c ys
  later c s h e (inr there) = there
  later c s h e (inl same) =
      let p = All-In _ c xs s.0 h in
      let loop : ties a a ≡ false = subst (λ x. ties a x ≡ false) (same ∙ sym e) p.1 in
      absurd (ground (arith, loop, ties_self a))

unique :
    (xs ys : List Alert)
    → Strict xs
    → Strict ys
    → ((c : Alert) → In c xs → In c ys)
    → ((c : Alert) → In c ys → In c xs)
    → xs ≡ ys
unique [] [] s t f g = refl
unique [] (b ∷ ys) s t f g = absurd (g b (inl refl))
unique (a ∷ xs) [] s t f g = absurd (f a (inl refl))
unique (a ∷ xs) (b ∷ ys) s t f g =
    let e : a ≡ b = heads a b xs ys s t (f a (inl refl)) (g b (inl refl)) in
    let rest =
      unique xs ys s.1 t.1 (λ c h. later a b xs ys c s h e (f c (inr h)))
        (λ c h. later b a ys xs c t h (sym e) (g c (inr h))) in
    rw (e, rest) refl

-- All ways of ordering rows of which no two tie agree.
pub untied_lem :
    (sort : List Alert → List Alert) (rows : List Alert)
    → IsOrdering sort
    → IsUntied rows
    → sort rows ≡ sort_by_insertion rows
untied_lem sort rows o h =
    let i = sort_by_insertion-IsOrdering in
    let few : (s : List Alert → List Alert) → IsOrdering s → Strict (s rows) = λ s k.
      IsSorted-Strict (s rows) (λ a. subst (λ n. n ≤ 1) (sym (k.same_rows (ties a) rows)) (h a))
        (k.in_order rows) in
    unique (sort rows) (sort_by_insertion rows) (few sort o) (few sort_by_insertion i)
      (λ c m. (i.members rows c).1 ((o.members rows c).0 m))
      (λ c m. (o.members rows c).1 ((i.members rows c).0 m))
