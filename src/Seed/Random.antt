-- ===== src/Seed/Random.antt =====
-- What seed.py uses of Python's `random`: `randint`, `choice`, `shuffle` and `sample`, on the
-- generator's stream of raw numbers, of which each draw below n takes the next one modulo n.
use soc_dashboard.Common.{ℕ, zero, suc, ◌+◌, ◌-◌, ◌%◌, Option, none, some, List, [], ◌∷◌, length}

-- The generator: what is drawn, by position.
abbrev pub Stream : Type 0
Stream = ℕ → ℕ

-- A draw from a position on: its value and the position after it, nothing where the code raises.
abbrev pub Draw : Type 0 → Type 0
Draw A = ℕ → Option (A × ℕ)

module _ {A : Type 0} where
  abbrev pub pure : A → Draw A
  pure a c = some (a, c)

  abbrev pub lift : Option A → Draw A
  lift none c = none
  lift (some a) c = some (a, c)

infixl 5 ◌>>=◌
unfoldable pub ◌>>=◌ : {A B : Type 0} → Draw A → (A → Draw B) → Draw B
◌>>=◌ m f c = elim (m c) [ some (a, c') ↦ f a c' | none ↦ none ]

abbrev pub nth : {A : Type 0} → List A → ℕ → Option A
nth [] i = none
nth (x ∷ xs) zero = some x
nth (x ∷ xs) (suc i) = nth xs i

-- `xs[i] = v`
abbrev pub set_nth : {A : Type 0} → List A → ℕ → A → List A
set_nth [] i v = []
set_nth (x ∷ xs) zero v = v ∷ xs
set_nth (x ∷ xs) (suc i) v = x ∷ set_nth xs i v

abbrev pub drop_last : {A : Type 0} → List A → List A
drop_last [] = []
drop_last (x ∷ []) = []
drop_last (x ∷ y ∷ xs) = x ∷ drop_last (y ∷ xs)

abbrev pub last_of : {A : Type 0} → List A → Option A
last_of [] = none
last_of (x ∷ []) = some x
last_of (x ∷ y ∷ xs) = last_of (y ∷ xs)

-- `[x] * n`
abbrev pub repeat : {A : Type 0} → ℕ → A → List A
repeat zero x = []
repeat (suc n) x = x ∷ repeat n x

abbrev pub range_from : ℕ → ℕ → List ℕ
range_from start zero = []
range_from start (suc n) = start ∷ range_from (start + 1) n

-- `x[i], x[j] = x[j], x[i]`
unfoldable pub swap : {A : Type 0} → List A → ℕ → ℕ → Option (List A)
swap xs i j = elim (nth xs i) [
  | none ↦ none
  | some a ↦ elim (nth xs j) [ none ↦ none | some b ↦ some (set_nth (set_nth xs i b) j a) ]
]

module _ (stream : Stream) where
  unfoldable pub rand_below : ℕ → Draw ℕ
  rand_below n c = some (stream c % n, c + 1)

  -- `random.randint(lo, hi)`
  unfoldable pub randint : ℕ → ℕ → Draw ℕ
  randint lo hi c = some (lo + stream c % (hi + 1 - lo), c + 1)

  -- `random.choice(xs)`
  unfoldable pub choice : {A : Type 0} → List A → Draw A
  choice xs = do i ← rand_below (length xs); lift (nth xs i)

  -- The rounds of `random.shuffle` at i, i - 1, … 1.
  unfoldable pub shuffle_from : {A : Type 0} → ℕ → List A → Draw (List A)
  shuffle_from zero xs = pure xs
  shuffle_from (suc i) xs = do
    j ← rand_below (suc i + 1)
    swapped ← lift (swap xs (suc i) j)
    shuffle_from i swapped

  -- `random.shuffle(xs)`
  unfoldable pub shuffle : {A : Type 0} → List A → Draw (List A)
  shuffle xs = shuffle_from (length xs - 1) xs

  -- `random.sample(range(n), k)` for a k that is not small beside n: k rounds, each of which takes
  -- a place of the pool out and fills it with the pool's last one.
  unfoldable pub sample_from : {A : Type 0} → ℕ → List A → Draw (List A)
  sample_from zero pool = pure []
  sample_from (suc k) pool = do
    j ← rand_below (length pool)
    picked ← lift (nth pool j)
    last ← lift (last_of pool)
    rest ← sample_from k (drop_last (set_nth pool j last))
    pure (picked ∷ rest)

  unfoldable pub sample : ℕ → ℕ → Draw (List ℕ)
  sample n k = sample_from k (range_from 0 n)
