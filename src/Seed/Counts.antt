-- ===== src/Seed/Counts.antt =====
-- `shuffle` and `sample` by what they count: a shuffle has the elements of its list, and a sample
-- has no more of any than its population.
use soc_dashboard.Common.{
  ℕ, zero, suc, ◌+◌, ◌-◌, ◌<◌, ◌≡◌, refl, sym, ap, ◌∙◌, Bool, true, false, some, List, [], ◌∷◌,
  length, filter, arith, nat_eq, Bool-cases, inl, inr,
}
use mathlib.Core.Option.{some-injective}
use soc_dashboard.Seed.Random.{Stream, nth, set_nth, swap, shuffle_from, shuffle}
use soc_dashboard.Seed.Yields.{
  Yields, Yields-pure, Yields-lift, Yields-bind, Yields-below, Yields-imp, nth_lt, All-unit,
}

abbrev pub one : Bool → ℕ
one true = 1
one false = 0

abbrev pub count : {A : Type 0} → (A → Bool) → List A → ℕ
count p [] = 0
count p (x ∷ xs) = one (p x) + count p xs

pub length-filter : {A : Type 0} (p : A → Bool) (xs : List A) → length (filter p xs) ≡ count p xs
length-filter p [] = refl
length-filter p (x ∷ xs) = elim (Bool-cases (p x)) [
  | inl e ↦ rw e (omega (arith, length-filter p xs))
  | inr e ↦ rw e (omega (arith, length-filter p xs))
]

pub count_all : {A : Type 0} (xs : List A) → count (λ x. true) xs ≡ length xs
count_all [] = refl
count_all (x ∷ xs) = omega (arith, count_all xs)

module _ {A : Type 0} (p : A → Bool) where
  count-set_nth :
      (xs : List A) (i : ℕ) (a v : A)
      → nth xs i ≡ some a
      → count p (set_nth xs i v) + one (p a) ≡ count p xs + one (p v)
  count-set_nth [] i a v e = absurd (cc)
  count-set_nth (x ∷ xs) zero a v e =
      let same : p x ≡ p a = ap p (some-injective _ _ e) in omega (arith, ap one same)
  count-set_nth (x ∷ xs) (suc i) a v e = omega (arith, count-set_nth xs i a v e)

nth-set_nth :
    {A : Type 0} (xs : List A) (i j : ℕ) (a b : A)
    → nth xs i ≡ some a
    → nth xs j ≡ some b
    → nth (set_nth xs i b) j ≡ some b
nth-set_nth [] i j a b e k = absurd (cc)
nth-set_nth (x ∷ xs) zero zero a b e k = refl
nth-set_nth (x ∷ xs) zero (suc j) a b e k = k
nth-set_nth (x ∷ xs) (suc i) zero a b e k = k
nth-set_nth (x ∷ xs) (suc i) (suc j) a b e k = nth-set_nth xs i j a b e k

-- Two places can be swapped, and this keeps the counts.
swap_lem :
    {A : Type 0} (xs : List A) (i j : ℕ)
    → i < length xs
    → j < length xs
    → (ys : List A) × (swap xs i j ≡ some ys) × ((p : A → Bool) → count p ys ≡ count p xs)
unfolding swap
swap_lem {A = A} xs i j h k =
    let (a, ea, ua) = nth_lt xs i (λ x. Unit {0}) h (All-unit xs) in
    let (b, eb, ub) = nth_lt xs j (λ x. Unit {0}) k (All-unit xs) in
    (
      set_nth (set_nth xs i b) j a,
      rw (swap, ea, eb) refl,
      λ p. omega (
        arith,
        count-set_nth p xs i a b ea,
        count-set_nth p (set_nth xs i b) j b a (nth-set_nth xs i j a b ea eb),
      ),
    )

-- The counts of one list and of another are the same.
abbrev pub Same : {A : Type 0} → List A → List A → Type 0
Same {A = A} xs ys = (p : A → Bool) → count p ys ≡ count p xs

pub Same-length : {A : Type 0} (xs ys : List A) → Same xs ys → length ys ≡ length xs
Same-length xs ys h = sym (count_all ys) ∙ h (λ x. true) ∙ count_all xs

module _ (stream : Stream) {A : Type 0} where
  Yields-shuffle_from :
      (i : ℕ) (xs : List A) → (0 < i → i < length xs) → Yields (shuffle_from stream i xs) (Same xs)
  unfolding shuffle_from
  Yields-shuffle_from zero xs h = Yields-pure xs (Same xs) (λ p. refl)
  Yields-shuffle_from (suc i) xs h =
      Yields-bind _ _ (λ j. j < suc i + 1) (Same xs) (Yields-below stream (suc i + 1) (omega arith))
        λ j lt.
          let (ys, e, same) = swap_lem xs (suc i) j (h (omega arith)) (omega (arith, h)) in
          Yields-bind _ _ (Same xs) (Same xs) (Yields-lift _ ys (Same xs) e same) λ zs k.
            Yields-imp _ _ (Same xs)
              (Yields-shuffle_from i zs (λ pos. omega (arith, h, Same-length xs zs k)))
              (λ ws l p. l p ∙ k p)

  -- A shuffle of a list counts what the list does.
  pub Yields-shuffle : (xs : List A) → Yields (shuffle stream xs) (Same xs)
  unfolding shuffle
  Yields-shuffle xs = Yields-shuffle_from (length xs - 1) xs (λ pos. omega arith)
