-- ===== src/Sse/Distinct.antt =====
-- Lists of references without repetition.
use mathlib.Core.Path.{◌≡⟨◌⟩◌, ◌∎}
use soc_dashboard.Common.{
  ℕ, ◌≡◌, refl, ap, sym, Bool-cases, inl, inr, Bool, true, false, not, ◌&&◌, ◌||◌, List, [], ◌∷◌,
  ◌++◌, arith, ◌==◌, nat_eq, contains, filter,
}
use soc_dashboard.Sse.{remove, remove_all}

abbrev pub Distinct : List ℕ → Type 0
Distinct [] = Unit {0}
Distinct (x ∷ xs) = (contains xs x ≡ false) × Distinct xs

module _ (p : ℕ → Bool) where
  pub contains-filter : (xs : List ℕ) (a : ℕ) → contains (filter p xs) a ≡ (contains xs a && p a)
  contains-filter [] a = refl
  contains-filter (x ∷ xs) a = ground (arith, contains-filter xs a)

  pub filter-Distinct : (xs : List ℕ) → Distinct xs → Distinct (filter p xs)
  filter-Distinct [] h = tt
  filter-Distinct (x ∷ xs) h = ground (arith, filter-Distinct xs h.1, contains-filter xs x)

pub contains-append :
    (xs ys : List ℕ) (a : ℕ) → contains (xs ++ ys) a ≡ (contains xs a || contains ys a)
contains-append [] ys a = refl
contains-append (x ∷ xs) ys a = ground (arith, contains-append xs ys a)

pub filter-ext :
    (p q : ℕ → Bool) (xs : List ℕ)
    → ((a : ℕ) → contains xs a ≡ true → p a ≡ q a)
    → filter p xs ≡ filter q xs
filter-ext p q [] h = refl
filter-ext p q (x ∷ xs) h =
    let ih = filter-ext p q xs (λ a m. h a (ground (arith, m))) in
    ground (arith, ih, h x (ground arith))

filter-filter :
    (p q : ℕ → Bool) (xs : List ℕ) → filter p (filter q xs) ≡ filter (λ a. q a && p a) xs
filter-filter p q [] = refl
filter-filter p q (x ∷ xs) = ground (arith, filter-filter p q xs)

filter-true :
    (p : ℕ → Bool) (xs : List ℕ) → ((a : ℕ) → contains xs a ≡ true → p a ≡ true) → filter p xs ≡ xs
filter-true p [] h = refl
filter-true p (x ∷ xs) h =
    let ih = filter-true p xs (λ a m. h a (ground (arith, m))) in
    ground (arith, ih, h x (ground arith))

other_than :
    (x q : ℕ) (xs : List ℕ)
    → contains xs x ≡ false
    → (a : ℕ) → (x == q) ≡ true
    → contains xs a ≡ true
    → not (a == q) ≡ true
other_than x q xs fresh a same m = elim (Bool-cases (a == q)) [
  | inl e ↦ let p : a ≡ x = ground arith in absurd (ground (arith, ap (contains xs) p))
  | inr e ↦ rw e
]

-- Removing the first occurrence from a list without repetition removes the reference.
pub remove-eq-filter :
    (q : ℕ) (xs : List ℕ) → Distinct xs → remove q xs ≡ filter (λ a. not (a == q)) xs
unfolding remove
remove-eq-filter q [] h = refl
remove-eq-filter q (x ∷ xs) h = elim (Bool-cases (x == q)) [
  | inl same ↦
      let others = filter-true (λ a. not (a == q)) xs (λ a m. other_than x q xs h.0 a same m) in
      ground (arith, others)
  | inr differs ↦ ground (arith, remove-eq-filter q xs h.1)
]

-- So removing several leaves those that are not among them.
pub remove_all-eq-filter :
    (dead xs : List ℕ) → Distinct xs → remove_all dead xs ≡ filter (λ a. not (contains dead a)) xs
unfolding remove_all
remove_all-eq-filter [] xs h = sym (filter-true _ xs (λ a m. refl))
remove_all-eq-filter (q ∷ dead) xs h =
    remove_all dead (remove q xs)
    ≡⟨ ap (remove_all dead) (remove-eq-filter q xs h) ⟩
      remove_all dead (filter (λ a. not (a == q)) xs)
    ≡⟨ remove_all-eq-filter dead _ (filter-Distinct _ xs h) ⟩
      filter (λ a. not (contains dead a)) (filter (λ a. not (a == q)) xs)
    ≡⟨ filter-filter _ _ xs ⟩ filter (λ a. not (a == q) && not (contains dead a)) xs
    ≡⟨ filter-ext _ _ xs (λ a m. ground arith) ⟩ filter (λ a. not (contains (q ∷ dead) a)) xs ∎
