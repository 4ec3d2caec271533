-- ===== src/Listing/Slices.antt =====
-- Slices of lists, one after the other.
use soc_dashboard.Common.{
  ℕ, zero, suc, ◌+◌, ◌*◌, ◌≤◌, ◌≡◌, refl, ap, sym, ◌∙◌, true, List, [], ◌∷◌, ◌++◌, length, take,
  drop, filter, map, arith,
}

module _ {A : Type 0} where
  drop-none : (n : ℕ) → drop {A = A} n [] ≡ []
  drop-none zero = refl
  drop-none (suc n) = refl

  drop-drop : (m n : ℕ) (xs : List A) → drop n (drop m xs) ≡ drop (m + n) xs
  drop-drop zero n xs = ap (λ k. drop k xs) (omega arith)
  drop-drop (suc m) n [] = drop-none n ∙ sym (drop-none (suc m + n))
  drop-drop (suc m) n (x ∷ xs) =
      let e : suc m + n ≡ suc (m + n) = omega arith in rw e (drop-drop m n xs)

  take-none : (n : ℕ) → take {A = A} n [] ≡ []
  take-none zero = refl
  take-none (suc n) = refl

  take-add : (m n : ℕ) (xs : List A) → take (m + n) xs ≡ take m xs ++ take n (drop m xs)
  take-add zero n xs = ap (λ k. take k xs) (omega arith)
  take-add (suc m) n [] = let e : suc m + n ≡ suc (m + n) = omega arith in rw e (sym (take-none n))
  take-add (suc m) n (x ∷ xs) =
      let e : suc m + n ≡ suc (m + n) = omega arith in rw e (ap (λ ys. x ∷ ys) (take-add m n xs))

  pub take-all : (n : ℕ) (xs : List A) → length xs ≤ n → take n xs ≡ xs
  take-all zero [] h = refl
  take-all zero (x ∷ xs) h = absurd (omega arith)
  take-all (suc n) [] h = refl
  take-all (suc n) (x ∷ xs) h = ap (λ ys. x ∷ ys) (take-all n xs (omega arith))

map-append_lem :
    {A B : Type 0} (f : A → B) (xs ys : List A) → map f (xs ++ ys) ≡ map f xs ++ map f ys
map-append_lem f [] ys = refl
map-append_lem f (x ∷ xs) ys = rw (map-append_lem f xs ys) refl

pub slices :
    {A B : Type 0} (f : A → B) (k m n : ℕ) (xs : List A)
    → map f (take k (drop (m * k) xs)) ++ map f (take (n * k) (drop ((m + 1) * k) xs))
      ≡ map f (take (suc n * k) (drop (m * k) xs))
slices f k m n xs =
    let e : (m + 1) * k ≡ m * k + k = grind arith in
    let e' : suc n * k ≡ k + n * k = grind arith in
    rw
      (
        e,
        e',
        ← drop-drop (m * k) k xs,
        take-add k (n * k) (drop (m * k) xs),
        map-append_lem f (take k (drop (m * k) xs)),
      )
      refl

pub filter-true : {A : Type 0} (xs : List A) → filter (λ _. true) xs ≡ xs
filter-true [] = refl
filter-true (x ∷ xs) = ap (λ ys. x ∷ ys) (filter-true xs)
