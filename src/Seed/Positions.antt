-- ===== src/Seed/Positions.antt =====
-- A sample of a range, as a set of positions.
use soc_dashboard.Common.{
  ℕ, zero, suc, ◌+◌, ◌≤◌, ◌≡◌, refl, ap, ◌∙◌, Bool, false, ◌||◌, ◌&&◌, List, [], ◌∷◌, length, arith,
  ◌==◌, nat_eq, ltb, leb, contains, Bool-cases, inl, inr,
}
use soc_dashboard.Seed.Random.{Stream, sample, range_from}
use soc_dashboard.Seed.Yields.{Yields, Yields-imp}
use soc_dashboard.Seed.Counts.{one, count}
use soc_dashboard.Seed.Samples.{IsSample, Yields-sample_from}

count-range_from :
    (x start n : ℕ)
    → count (λ i. i == x) (range_from start n) ≡ one (leb start x && ltb x (start + n))
count-range_from x start zero = ground arith
count-range_from x start (suc n) = ground (arith, count-range_from x (start + 1) n)

pub length-range_from : (start n : ℕ) → length (range_from start n) ≡ n
length-range_from start zero = refl
length-range_from start (suc n) = omega (arith, length-range_from (start + 1) n)

-- What is not counted is not there.
absent : (x : ℕ) (xs : List ℕ) → count (λ i. i == x) xs ≡ 0 → contains xs x ≡ false
absent x [] h = refl
absent x (y ∷ xs) h = ground (arith, absent x xs)

count-or :
    (x : ℕ) (q : ℕ → Bool) (r : List ℕ)
    → q x ≡ false
    → count (λ i. i == x || q i) r ≡ count (λ i. i == x) r + count q r
count-or x q [] h = omega arith
count-or x q (y ∷ r) h = elim (Bool-cases (y == x)) [
  | inl e ↦
      let same : y ≡ x = ground arith in
      let off : q y ≡ false = ap q same ∙ h in rw (e, off) (omega (arith, count-or x q r h))
  | inr e ↦ rw e (omega (arith, count-or x q r h))
]

count_none : (r : List ℕ) → count (λ i. false) r ≡ 0
count_none [] = refl
count_none (x ∷ r) = omega (arith, count_none r)

-- A list without repetitions has as many positions in the range as it is long.
positions_lem :
    (n : ℕ) (xs : List ℕ)
    → ((x : ℕ) → count (λ i. i == x) xs ≤ count (λ i. i == x) (range_from 0 n))
    → count (contains xs) (range_from 0 n) ≡ length xs
positions_lem n [] h = count_none (range_from 0 n)
positions_lem n (x ∷ xs) h =
    let here : 1 + count (λ i. i == x) xs ≤ count (λ i. i == x) (range_from 0 n) =
      ground (arith, h x) in
    let most : count (λ i. i == x) (range_from 0 n) ≤ 1 = ground (arith, count-range_from x 0 n) in
    let gone : contains xs x ≡ false = absent x xs (omega (arith, here, most)) in
    omega (
      arith,
      here,
      most,
      count-or x (contains xs) (range_from 0 n) gone,
      positions_lem n xs (λ y. ground (arith, h y)),
    )

-- As many positions of the range are in the sample as were asked for.
pub Yields-sample :
    (stream : Stream) (n k : ℕ)
    → k ≤ n
    → Yields (sample stream n k) (λ closed. count (contains closed) (range_from 0 n) ≡ k)
unfolding sample
Yields-sample stream n k h =
    Yields-imp _ (IsSample k (range_from 0 n)) _
      (Yields-sample_from stream k (range_from 0 n) (omega (arith, h, length-range_from 0 n)))
      (λ closed s. positions_lem n closed (λ x. s.within _) ∙ s.size)
