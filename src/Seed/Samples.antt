-- ===== src/Seed/Samples.antt =====
-- `sample`: distinct positions, of which a range holds as many as were asked for.
use soc_dashboard.Common.{
  ℕ, zero, suc, ◌+◌, ◌≤◌, ◌<◌, ◌≡◌, refl, ap, Bool, true, some, List, [], ◌∷◌, length, arith,
  nat_eq,
}
use mathlib.Core.Option.{some-injective}
use soc_dashboard.Seed.Random.{Stream, nth, set_nth, drop_last, last_of, sample_from}
use soc_dashboard.Seed.Yields.{
  Yields, Yields-pure, Yields-lift, Yields-bind, Yields-below, nth_lt, All-unit,
}
use soc_dashboard.Seed.Counts.{one, count, count_all}

last_lem : {A : Type 0} (x : A) (xs : List A) → (l : A) × (last_of (x ∷ xs) ≡ some l)
last_lem x [] = (x, refl)
last_lem x (y ∷ xs) = last_lem y xs

module _ {A : Type 0} (p : A → Bool) where
  count-drop_last :
      (xs : List A) (l : A) → last_of xs ≡ some l → count p (drop_last xs) + one (p l) ≡ count p xs
  count-drop_last [] l e = absurd (cc)
  count-drop_last (x ∷ []) l e =
      let same : p x ≡ p l = ap p (some-injective _ _ e) in omega (arith, ap one same)
  count-drop_last (x ∷ y ∷ xs) l e = omega (arith, count-drop_last (y ∷ xs) l e)

  -- A place is taken out, and the last one fills it.
  count-taken :
      (pool : List A) (j : ℕ) (a l : A)
      → nth pool j ≡ some a
      → last_of pool ≡ some l
      → count p (drop_last (set_nth pool j l)) + one (p a) ≡ count p pool
  count-taken [] j a l e k = absurd (cc)
  count-taken (x ∷ []) zero a l e k =
      let same : p x ≡ p a = ap p (some-injective _ _ e) in omega (arith, ap one same)
  count-taken (x ∷ []) (suc j) a l e k = absurd (cc)
  count-taken (x ∷ y ∷ xs) zero a l e k =
      let same : p x ≡ p a = ap p (some-injective _ _ e) in
      omega (arith, ap one same, count-drop_last (y ∷ xs) l k)
  count-taken (x ∷ y ∷ xs) (suc zero) a l e k = omega (arith, count-taken (y ∷ xs) zero a l e k)
  count-taken (x ∷ y ∷ xs) (suc (suc j)) a l e k =
      omega (arith, count-taken (y ∷ xs) (suc j) a l e k)

-- k elements, and none more often than the pool has it.
pub record IsSample {A : Type 0} (k : ℕ) (pool picked : List A) : Type 0 where
  pub size : length picked ≡ k
  pub within : (p : A → Bool) → count p picked ≤ count p pool

module _ (stream : Stream) {A : Type 0} where
  pub Yields-sample_from :
      (k : ℕ) (pool : List A)
      → k ≤ length pool
      → Yields (sample_from stream k pool) (IsSample k pool)
  unfolding sample_from
  Yields-sample_from zero pool h =
      Yields-pure [] (IsSample 0 pool) (record { size = refl; within = λ p. omega arith })
  Yields-sample_from (suc k) [] h = absurd (omega arith)
  Yields-sample_from (suc k) (x ∷ xs) h =
      let pool = x ∷ xs in
      let (l, el) = last_lem x xs in
      Yields-bind _ _ (λ j. j < length pool) _ (Yields-below stream (length pool) (omega arith))
        λ j lt.
          let (a, ea, u) = nth_lt pool j (λ y. Unit {0}) lt (All-unit pool) in
          let left = drop_last (set_nth pool j l) in
          let taken : (p : A → Bool) → count p left + one (p a) ≡ count p pool =
            λ p. count-taken p pool j a l ea el in
          let shorter : length left + 1 ≡ length pool =
            omega (arith, taken (λ y. true), count_all left, count_all pool) in
          Yields-bind _ _ (λ b. b ≡ a) _ (Yields-lift _ a (λ b. b ≡ a) ea refl)
            λ b eb.
              Yields-bind _ _ (λ m. m ≡ l) _ (Yields-lift _ l (λ m. m ≡ l) el refl)
                λ m em.
                  Yields-bind _ _ (IsSample k left) _
                    (rw em (Yields-sample_from k left (omega (arith, h, shorter))))
                    λ rest s. Yields-pure (b ∷ rest) (IsSample (suc k) pool) (record {
                      size = omega (arith, s.size);
                      within = λ p. rw eb (omega (arith, s.within p, taken p));
                    })
