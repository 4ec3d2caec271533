-- ===== src/Seed/Addresses.antt =====
-- The rejection loop of `rand_public_ip`.
use soc_dashboard.Common.{
  ℕ, zero, suc, ◌+◌, ◌%◌, ◌<◌, ◌≡◌, refl, sym, ◌∙◌, ap, Bool, true, false, Option, some, arith,
  nat_eq, Bool-cases, inl, inr, String,
}
use soc_dashboard.Seed.Random.{Stream, ◌>>=◌, randint}
use soc_dashboard.Seed.Alerts.{rand_public_ip, accept, host_part, is_reserved, dotted}
use soc_dashboard.Seed.Yields.{Yields}

-- The first octet that the loop draws at a position is reserved.
abbrev pub rejects : Stream → ℕ → Bool
rejects stream c = is_reserved (1 + stream c % 223)

-- The address of a first octet and the three draws from the position after it on.
abbrev pub address_text : Stream → ℕ → String
address_text stream p =
    dotted (1 + stream p % 223) (stream (p + 1) % 256) (stream (p + 2) % 256)
      (1 + stream (p + 3) % 254)

abbrev pub address : Stream → ℕ → Option (String × ℕ)
address stream p = some (address_text stream p, p + 4)

module _ (stream : Stream) where
  one_draw :
      (fuel c : ℕ)
      → rand_public_ip stream (suc fuel) c
        ≡ accept stream (1 + stream c % 223) (rejects stream c) (rand_public_ip stream fuel) (c + 1)
  unfolding rand_public_ip randint ◌>>=◌
  one_draw fuel c = refl

  three_draws : (c : ℕ) → host_part stream (1 + stream c % 223) 255 (c + 1) ≡ address stream c
  unfolding host_part randint ◌>>=◌
  three_draws c =
      let two : c + 1 + 1 ≡ c + 2 = omega arith in
      let three : c + 2 + 1 ≡ c + 3 = omega arith in
      let four : c + 3 + 1 ≡ c + 4 = omega arith in
      let second : 0 + stream (c + 1) % 256 ≡ stream (c + 1) % 256 = omega arith in
      let third : 0 + stream (c + 2) % 256 ≡ stream (c + 2) % 256 = omega arith in
      rw (two, three, four, second, third) refl

  -- The loop returns once it draws a first octet that is not reserved: where it draws k reserved
  -- ones and then another, any fuel above k gives the address that starts with that one.
  pub rand_public_ip_returns :
      (k fuel c : ℕ)
      → k < fuel
      → ((j : ℕ) → j < k → rejects stream (c + j) ≡ true)
      → rejects stream (c + k) ≡ false
      → rand_public_ip stream fuel c ≡ address stream (c + k)
  rand_public_ip_returns k zero c lt before hit = absurd (omega arith)
  rand_public_ip_returns zero (suc fuel) c lt before hit =
      let same : c + 0 ≡ c = omega arith in
      let hit' : rejects stream c ≡ false = ap (rejects stream) (sym same) ∙ hit in
      one_draw fuel c ∙ (rw hit' (three_draws c)) ∙ ap (address stream) (sym same)
  rand_public_ip_returns (suc k) (suc fuel) c lt before hit =
      let passed : rejects stream c ≡ true =
        ap (rejects stream) (omega arith) ∙ before 0 (omega arith) in
      one_draw fuel c
      ∙ (rw passed (
          rand_public_ip_returns k fuel (c + 1) (omega arith)
            (λ j l. ap (rejects stream) (omega arith) ∙ before (suc j) (omega arith))
            (ap (rejects stream) (omega arith) ∙ hit)
          ∙ ap (address stream) (omega arith)))

  -- Reserved first octets do not come `fuel` times in a row.
  abbrev pub IsFair : ℕ → Type 0
  IsFair fuel = (c : ℕ) → (k : ℕ) × (k < fuel) × (rejects stream (c + k) ≡ false)

  fair_from :
      (fuel c k : ℕ)
      → k < fuel
      → rejects stream (c + k) ≡ false
      → (s : String) × (c' : ℕ) × (rand_public_ip stream fuel c ≡ some (s, c')) × Unit {0}
  fair_from zero c k lt hit = absurd (omega arith)
  fair_from (suc fuel) c zero lt hit =
      let hit' : rejects stream c ≡ false = ap (rejects stream) (omega arith) ∙ hit in
      (address_text stream c, c + 4, one_draw fuel c ∙ (rw hit' (three_draws c)), tt)
  fair_from (suc fuel) c (suc k) lt hit = elim (Bool-cases (rejects stream c)) [
    | inr hit' ↦ (address_text stream c, c + 4, one_draw fuel c ∙ (rw hit' (three_draws c)), tt)
    | inl passed ↦
        let (s, c', e, u) =
          fair_from fuel (c + 1) k (omega arith) (ap (rejects stream) (omega arith) ∙ hit) in
        (s, c', one_draw fuel c ∙ (rw passed e), u)
  ]

  pub Yields-public : (fuel : ℕ) → IsFair fuel → Yields (rand_public_ip stream fuel) (λ s. Unit {0})
  Yields-public fuel fair = record {
    at = λ c. let (k, lt, hit) = fair c in fair_from fuel c k lt hit;
  }
