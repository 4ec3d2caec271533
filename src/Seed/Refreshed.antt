-- ===== src/Seed/Refreshed.antt =====
-- What `main` of seed.py prepares: the alerts with the ages of those that stay open.
use soc_dashboard.Common.{
  ℕ, ◌+◌, ◌-◌, ◌*◌, ◌≡◌, refl, String, Bool, true, false, List, [], ◌∷◌, All, arith, nat_eq,
  text_eq, contains, Bool-cases, inl, inr,
}
use soc_dashboard.Db.Statements.{severities}
use soc_dashboard.Seed.Random.{Stream, range_from}
use soc_dashboard.Seed.Alerts.{Draft, minute}
use soc_dashboard.Seed.Ages.{refresh_open, refresh_at, refresh}
use soc_dashboard.Seed.Main.{prepare}
use soc_dashboard.Seed.Yields.{Yields, Yields-pure, Yields-bind, Yields-randint}
use soc_dashboard.Seed.Addresses.{IsFair}
use soc_dashboard.Seed.Counts.{count}
use soc_dashboard.Seed.Positions.{Yields-sample}
use soc_dashboard.Seed.Distribution.{IsDemo, Yields-build_alerts}
use soc_dashboard.Seed.Ranges.{in_time, ages}
use soc_dashboard.Seed.Rows.{IsAged}

-- What is to be stored of an alert: its category, its severity, and whether it is closed.
abbrev pub Kind : Type 0
Kind = String × String × Bool

abbrev pub draft_kinds : List ℕ → ℕ → List Draft → List Kind
draft_kinds closed i [] = []
draft_kinds closed i (a ∷ rest) =
    (a.category, a.severity, contains closed i) ∷ draft_kinds closed (i + 1) rest

-- An alert at position i can be stored.
pub record IsReady (now : ℕ) (closed : List ℕ) (i : ℕ) (a : Draft) : Type 0 where
  pub allowed : contains severities a.severity ≡ true
  pub aged : contains closed i ≡ false → IsAged now a.severity a.created_at

abbrev pub AllReady : ℕ → List ℕ → ℕ → List Draft → Type 0
AllReady now closed i [] = Unit
AllReady now closed i (a ∷ rest) = IsReady now closed i a × AllReady now closed (i + 1) rest

pub record IsRefreshed (now : ℕ) (closed : List ℕ) (i : ℕ) (old fresh : List Draft) : Type 0 where
  pub kinds : draft_kinds closed i fresh ≡ draft_kinds closed i old
  pub ready : AllReady now closed i fresh

module _ (stream : Stream) (now : ℕ) (closed : List ℕ) where
  Yields-refresh_at :
      (i : ℕ) (a : Draft)
      → contains severities a.severity ≡ true
      → Yields
          (refresh_at stream now closed i a)
          (λ b. (b.category ≡ a.category) × (b.severity ≡ a.severity) × IsReady now closed i b)
  unfolding refresh_at refresh_open
  Yields-refresh_at i a ok = elim (Bool-cases (contains closed i)) [
    | inl e ↦
        rw (refresh_at, e)
          (Yields-pure a _ (refl, refl, record { allowed = ok; aged = λ f. absurd (cc) }))
    | inr e ↦
        rw (refresh_at, e)
          (Yields-bind _ _ _ _
            (Yields-randint stream (ages a.severity).0 (ages a.severity).1
              (in_time a.severity ok).ages_range)
            λ age h.
              Yields-pure (record a { created_at = now - age * minute }) _
                (
                  refl,
                  refl,
                  record {
                    allowed = ok;
                    aged = λ f. record { age = age; created = refl; least = h.0; most = h.1 };
                  },
                ))
  ]

  pub Yields-refresh :
      (i : ℕ) (alerts : List Draft)
      → All (λ d. contains severities d.severity ≡ true) alerts
      → Yields (refresh stream now closed i alerts) (IsRefreshed now closed i alerts)
  unfolding refresh
  Yields-refresh i [] ok = Yields-pure [] _ (record { kinds = refl; ready = tt })
  Yields-refresh i (a ∷ alerts) ok = Yields-bind _ _ _ _ (Yields-refresh_at i a ok.0) λ b hb.
      Yields-bind _ _ (IsRefreshed now closed (i + 1) alerts) _ (Yields-refresh (i + 1) alerts ok.1)
        λ rest h.
          Yields-pure (b ∷ rest) (IsRefreshed now closed i (a ∷ alerts))
            (record { kinds = rw (hb.0, hb.1, h.kinds) refl; ready = (hb.2, h.ready) })

-- What `main` has when it connects.
pub record IsPrepared (built_at now : ℕ) (closed : List ℕ) (alerts : List Draft) : Type 0 where
  pub built : List Draft
  pub demo : IsDemo built_at built
  pub picked : count (contains closed) (range_from 0 50) ≡ 30
  pub refreshed : IsRefreshed now closed 0 built alerts

pub Yields-prepare :
    (stream : Stream) (fuel built_at now : ℕ)
    → IsFair stream fuel
    → Yields (prepare stream fuel built_at now) (λ p. IsPrepared built_at now p.0 p.1)
unfolding prepare
Yields-prepare stream fuel built_at now fair =
    Yields-bind _ _ (IsDemo built_at) _ (Yields-build_alerts stream fuel fair built_at)
      λ built demo.
        Yields-bind _ _ (λ closed. count (contains closed) (range_from 0 50) ≡ 30) _
          (rw demo.size (Yields-sample stream 50 30 (omega arith)))
          λ closed picked.
            Yields-bind _ _ (IsRefreshed now closed 0 built) _
              (Yields-refresh stream now closed 0 built demo.allowed)
              λ alerts h.
                Yields-pure (closed, alerts) _
                  (record { built = built; demo = demo; picked = picked; refreshed = h })
