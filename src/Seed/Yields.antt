-- ===== src/Seed/Yields.antt =====
-- Draws that return from every position of the generator, and what they return.
use soc_dashboard.Common.{
  ℕ, zero, suc, ◌+◌, ◌-◌, ◌%◌, ◌≤◌, ◌<◌, ◌≡◌, refl, ◌∙◌, Option, some, List, [], ◌∷◌, length, All,
  arith,
}
use native.Mathlib.Nat.{mod-lt}
use soc_dashboard.Seed.Random.{Stream, Draw, pure, lift, ◌>>=◌, nth, rand_below, randint, choice}

pub record Yields {A : Type 0} (m : Draw A) (P : A → Type 0) : Type 0 where
  pub at : (c : ℕ) → (a : A) × (c' : ℕ) × (m c ≡ some (a, c')) × P a

module _ {A B : Type 0} where
  pub bind-some :
      (m : Draw B) (f : B → Draw A) (c : ℕ) (b : B) (c' : ℕ)
      → m c ≡ some (b, c')
      → (m >>= f) c ≡ f b c'
  unfolding ◌>>=◌
  bind-some m f c b c' e = rw (◌>>=◌, e) refl

module _ {A : Type 0} where
  pub Yields-pure : (a : A) (P : A → Type 0) → P a → Yields (pure a) P
  Yields-pure a P p = record { at = λ c. (a, c, refl, p) }

  pub Yields-lift : (o : Option A) (a : A) (P : A → Type 0) → o ≡ some a → P a → Yields (lift o) P
  Yields-lift o a P e p = record { at = λ c. (a, c, rw e refl, p) }

  pub Yields-bind :
      {B : Type 0} (m : Draw B) (f : B → Draw A) (Q : B → Type 0) (P : A → Type 0)
      → Yields m Q
      → ((b : B) → Q b → Yields (f b) P)
      → Yields (m >>= f) P
  Yields-bind m f Q P h k = record {
    at = λ c.
        let (b, c1, e, q) = h.at c in
        let (a, c2, e', p) = (k b q).at c1 in (a, c2, bind-some m f c b c1 e ∙ e', p);
  }

  pub Yields-imp : (m : Draw A) (Q P : A → Type 0) → Yields m Q → ((a : A) → Q a → P a) → Yields m P
  Yields-imp m Q P h k = record { at = λ c. let (a, c1, e, q) = h.at c in (a, c1, e, k a q) }

  pub nth_lt :
      (xs : List A) (i : ℕ) (P : A → Type 0)
      → i < length xs
      → All P xs
      → (a : A) × (nth xs i ≡ some a) × P a
  nth_lt [] i P h k = absurd (omega arith)
  nth_lt (x ∷ xs) zero P h k = (x, refl, k.0)
  nth_lt (x ∷ xs) (suc i) P h k = nth_lt xs i P (omega arith) k.1

pub All-unit : {A : Type 0} (xs : List A) → All (λ x. Unit {0}) xs
All-unit [] = tt
All-unit (x ∷ xs) = (tt, All-unit xs)

module _ (stream : Stream) where
  pub Yields-below : (n : ℕ) → 0 < n → Yields (rand_below stream n) (λ i. i < n)
  unfolding rand_below
  Yields-below n h = record { at = λ c. (stream c % n, c + 1, refl, mod-lt (stream c) h) }

  pub Yields-randint :
      (lo hi : ℕ) → lo ≤ hi → Yields (randint stream lo hi) (λ n. (lo ≤ n) × (n ≤ hi))
  unfolding randint
  Yields-randint lo hi h = record {
    at = λ c.
        let small : stream c % (hi + 1 - lo) < hi + 1 - lo = mod-lt (stream c) (omega arith) in
        (lo + stream c % (hi + 1 - lo), c + 1, refl, (omega arith, omega (arith, small)));
  }

  pub Yields-choice :
      {A : Type 0} (xs : List A) (P : A → Type 0)
      → 0 < length xs
      → All P xs
      → Yields (choice stream xs) P
  unfolding choice
  Yields-choice xs P h k =
      Yields-bind _ _ (λ i. i < length xs) P (Yields-below (length xs) h)
        λ i lt. let (a, e, p) = nth_lt xs i P lt k in Yields-lift (nth xs i) a P e p
