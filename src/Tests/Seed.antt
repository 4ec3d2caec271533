-- ===== src/Tests/Seed.antt =====
-- Witnesses for the demo data: a generator of two raw numbers, and one that always gives the same.
use soc_dashboard.Common.{
  ℕ, zero, suc, ◌+◌, ◌*◌, ◌/◌, ◌≡◌, ◌<◌, refl, ap, ◌∙◌, text_eq, List, some, true, length, filter,
  arith, inl, inr,
}
use soc_dashboard.Values.{Result, ok}
use soc_dashboard.Db.Session.{Session}
use soc_dashboard.Sla.{Rate, compute_sla}
use soc_dashboard.Stats.{sla_rows}
use soc_dashboard.Seed.Random.{Stream}
use soc_dashboard.Seed.Alerts.{Draft, is_reserved, rand_public_ip, build_alerts, minute}
use soc_dashboard.Seed.Main.{main}
use soc_dashboard.Seed.Addresses.{IsFair, rejects, address, rand_public_ip_returns}
use soc_dashboard.Seed.Distribution.{IsDemo, build_alerts_lem}
use soc_dashboard.Seed.Transaction.{Ends}
use soc_dashboard.Seed.Replaced.{IsSeeded, main_lem}
use soc_dashboard.Seed.Targets.{IsLateIfOpen, main_breaches}
use soc_dashboard.Sla.Metrics.{is_late}
use soc_dashboard.Common.{All}
use soc_dashboard.Stats.{sla_row}
use soc_dashboard.Tests.Fixtures.{world}

-- The first draw is rejected, the next one is not.
abbrev counting : Stream
counting i = i + 9

first_rejected : (j : ℕ) → j < 1 → rejects counting (0 + j) ≡ true
unfolding is_reserved
first_rejected zero l = refl
first_rejected (suc j) l = absurd (omega arith)

rand_public_ip_returns_example : rand_public_ip counting 3 0 ≡ address counting (0 + 1)
unfolding is_reserved
rand_public_ip_returns_example =
    rand_public_ip_returns counting 1 3 0 (omega arith) first_rejected refl

abbrev steady : Stream
steady i = 8

steady-IsFair : IsFair steady 1
unfolding is_reserved
steady-IsFair c = (0, omega arith, refl)

build_alerts_lem_example :
    (alerts : List Draft) × (c' : ℕ) × (build_alerts steady 1 5_000_000 0 ≡ some (alerts, c'))
    × IsDemo 5_000_000 alerts
build_alerts_lem_example = build_alerts_lem steady 1 5_000_000 0 steady-IsFair

abbrev hour_later : Session
hour_later = record world.session { now = 60 * minute }

main_lem_example :
    (o : Result (Unit {0}) × Session) × (main steady 1 (60 * minute) hour_later ≡ some o)
    × Ends hour_later (IsSeeded (60 * minute) hour_later.now hour_later.db) o
main_lem_example = main_lem steady 1 (60 * minute) hour_later steady-IsFair

abbrev rate : Rate
rate part whole = 1000 * part / whole

abbrev seeded : Session
seeded = (main_lem steady 1 (60 * minute) hour_later steady-IsFair).0.1

-- No call fails, so it returns.
main_returns : main steady 1 (60 * minute) hour_later ≡ some (ok tt, seeded)
main_returns =
    let (o, e, ends) = main_lem steady 1 (60 * minute) hour_later steady-IsFair in
    elim ends [
      | inl (raised, kept, faulty) ↦ absurd (faulty refl)
      | inr (done, s) ↦ e ∙ ap (λ r. some (r, o.1)) done
    ]

main_breaches_example :
    ((compute_sla rate (60 * minute) (sla_rows seeded.db.tables)).breaches
      ≡ length (
          filter
            (λ a. is_late (60 * minute) (sla_row seeded.db.tables.analyst_actions a))
            seeded.db.tables.alerts))
    × All (IsLateIfOpen (60 * minute) seeded.db.tables.analyst_actions) seeded.db.tables.alerts
main_breaches_example =
    main_breaches rate steady 1 (60 * minute) hour_later seeded steady-IsFair (omega arith)
      main_returns
