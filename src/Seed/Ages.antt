-- ===== src/Seed/Ages.antt =====
-- The age that `main` of seed.py gives the alerts that stay open.
use soc_dashboard.Common.{
  ℕ, ◌+◌, ◌-◌, ◌*◌, true, false, Option, none, some, List, [], ◌∷◌, contains, nat_eq, lookup, Dict,
}
use soc_dashboard.Seed.Random.{Stream, Draw, pure, ◌>>=◌, randint}
use soc_dashboard.Seed.Alerts.{Draft, minute}

-- In minutes.
abbrev pub open_age : Dict (ℕ × ℕ)
open_age =
    ("CRITICAL", (18, 30)) ∷ ("HIGH", (30, 85)) ∷ ("MEDIUM", (20, 90)) ∷ ("LOW", (30, 180)) ∷ []

-- `d.get(k, default)`
abbrev pub get_or : {A : Type 0} → A → Option A → A
get_or d none = d
get_or d (some a) = a

module _ (stream : Stream) where
  unfoldable pub refresh_open : ℕ → Draft → ℕ × ℕ → Draw Draft
  refresh_open now a range = do
    age ← randint stream range.0 range.1
    pure (record a { created_at = now - age * minute })

  -- One round of the loop, at position i.
  unfoldable pub refresh_at : ℕ → List ℕ → ℕ → Draft → Draw Draft
  refresh_at now closed i a = elim (contains closed i) [
    | true ↦ pure a
    | false ↦ refresh_open now a (get_or (10, 60) (lookup a.severity open_age))
  ]

  unfoldable pub refresh : ℕ → List ℕ → ℕ → List Draft → Draw (List Draft)
  refresh now closed i [] = pure []
  refresh now closed i (a ∷ rest) = do
    fresh ← refresh_at now closed i a
    later ← refresh now closed (i + 1) rest
    pure (fresh ∷ later)
