-- ===== src/Seed/Targets.antt =====
-- The seeded alerts against the SLA targets of app.py.
use soc_dashboard.Common.{
  ℕ, ◌*◌, ◌≤◌, ◌<◌, ◌≡◌, refl, sym, ap, subst, ◌∙◌, String, true, false, ◌&&◌, ◌||◌, inl, inr,
  Option, none, some, List, [], ◌∷◌, length, filter, All, arith, ◌==◌, nat_eq, text_eq, contains,
  ltb, Bool-cases, lookup,
}
use mathlib.Core.Option.{some-injective}
use soc_dashboard.Values.{ok, err-ok}
use soc_dashboard.Db.{Alert, AnalystAction, Tables, Db}
use soc_dashboard.Db.Session.{Session}
use soc_dashboard.Db.Statements.{severities}
use soc_dashboard.Sla.{SlaRow, Rate, breaches_target, compute_sla}
use soc_dashboard.Sla.Metrics.{is_late, is_late-is_late_at, compute_sla_lem}
use soc_dashboard.Stats.{is_open, least, min_response, sla_row, sla_rows}
use soc_dashboard.Stats.Report.{filter-map}
use soc_dashboard.Seed.Random.{Stream}
use soc_dashboard.Seed.Alerts.{minute}
use soc_dashboard.Seed.Main.{main}
use soc_dashboard.Seed.Addresses.{IsFair}
use soc_dashboard.Seed.Known.{contained}
use soc_dashboard.Seed.Ranges.{in_time, IsInTime}
use soc_dashboard.Seed.Rows.{IsAged, Stored}
use soc_dashboard.Seed.Transaction.{Ends}
use soc_dashboard.Seed.Replaced.{IsSeeded, main_lem}
use soc_dashboard.System.History.{actions_of}

fold_min : List AnalystAction → Option ℕ
fold_min [] = none
fold_min (r ∷ rows) = least r.response_time_seconds (fold_min rows)

min_response_lem :
    (key : ℕ) (rows : List AnalystAction) → min_response key rows ≡ fold_min (actions_of key rows)
unfolding min_response actions_of fold_min
min_response_lem key [] = refl
min_response_lem key (r ∷ rows) = elim (Bool-cases (r.alert_id == key)) [
  | inl e ↦ rw e (ap (least r.response_time_seconds) (min_response_lem key rows))
  | inr e ↦ rw e (min_response_lem key rows)
]

abbrev waiting : String → ℕ → SlaRow
waiting severity created = record { severity = severity; resp = none; created_at = created }

-- The alerts of this severity that wait: late where it is CRITICAL, in time where it is lower than HIGH.
abbrev Waits : String → Type 0
Waits severity =
    (now created : ℕ)
    → 15 * minute < now
    → IsAged now severity created
    → ((severity == "CRITICAL") ≡ true → is_late now (waiting severity created) ≡ true)
      × ((severity == "CRITICAL" || severity == "HIGH") ≡ false
          → is_late now (waiting severity created) ≡ false)

critical-Waits : Waits "CRITICAL"
unfolding lookup breaches_target
critical-Waits now created h aged =
    (λ e. ground (arith, h, aged.created, aged.least), λ e. absurd (cc))

high-Waits : Waits "HIGH"
high-Waits now created h aged = (λ e. absurd (cc), λ e. absurd (cc))

medium-Waits : Waits "MEDIUM"
unfolding lookup breaches_target
medium-Waits now created h aged = (λ e. absurd (cc), λ e. ground (arith, aged.created, aged.most))

low-Waits : Waits "LOW"
unfolding lookup breaches_target
low-Waits now created h aged = (λ e. absurd (cc), λ e. ground (arith, aged.created, aged.most))

waits : (severity : String) → contains severities severity ≡ true → Waits severity
waits severity =
    contained Waits severities severity
      (critical-Waits, (high-Waits, (medium-Waits, (low-Waits, tt))))

answered_late :
    (now : ℕ) (row : SlaRow) (seconds : ℕ) (t : IsInTime row.severity)
    → row.resp ≡ some seconds
    → seconds ≤ t.target
    → is_late now row ≡ false
unfolding breaches_target
answered_late now row seconds t e h =
    let fine : ltb t.target seconds ≡ false = ground arith in
    let same = is_late-is_late_at now row in sym same ∙ (rw (t.target_of, e) fine)

abbrev waiting_answer : Alert → ℕ → SlaRow
waiting_answer a seconds = record {
  severity = a.severity;
  resp = some seconds;
  created_at = a.created_at;
}

-- Whether a stored alert is late when it is seeded.
late_lem :
    (now : ℕ) (rows : List AnalystAction) (a : Alert)
    → 15 * minute < now
    → contains severities a.severity ≡ true
    → Stored now rows a
    → ((is_open a && a.severity == "CRITICAL") ≡ true → is_late now (sla_row rows a) ≡ true)
      × ((is_open a && (a.severity == "CRITICAL" || a.severity == "HIGH")) ≡ false
          → is_late now (sla_row rows a) ≡ false)
unfolding fold_min
late_lem now rows a h allowed (inl (o, none_yet, aged)) =
    let none_min : min_response a.id rows ≡ none =
      min_response_lem a.id rows ∙ ap fold_min none_yet in
    let (late, fine) = waits a.severity allowed now a.created_at h aged in
    rw (o, none_min) (late, fine)
late_lem now rows a h allowed (inr (c, x)) =
    let t = in_time a.severity allowed in
    let one_min : min_response a.id rows ≡ some x.seconds =
      min_response_lem a.id rows ∙ ap fold_min x.only ∙ ap (λ o. least o none) x.response in
    rw (c, one_min)
      (
        λ e. absurd (cc),
        λ e.
            answered_late now (waiting_answer a x.seconds) x.seconds t refl
              (omega (arith, x.most, t.in_time)),
      )

-- Every row of a list.
every_alert :
    (P Q R : Alert → Type 0) (xs : List Alert)
    → ((a : Alert) → P a → Q a → R a)
    → All P xs
    → All Q xs
    → All R xs
every_alert P Q R [] k p q = tt
every_alert P Q R (x ∷ xs) k p q = (k x p.0 q.0, every_alert P Q R xs k p.1 q.1)

late_rows :
    (now : ℕ) (rate : Rate) (t : Tables)
    → (compute_sla rate now (sla_rows t)).breaches
      ≡ length (filter (λ a. is_late now (sla_row t.analyst_actions a)) t.alerts)
late_rows now rate t =
    (compute_sla_lem rate now (sla_rows t) "").1
    ∙ filter-map (is_late now) (sla_row t.analyst_actions) t.alerts

-- An open CRITICAL alert is late, and one that is closed or neither CRITICAL nor HIGH is not.
abbrev pub IsLateIfOpen : ℕ → List AnalystAction → Alert → Type 0
IsLateIfOpen now rows a =
    ((is_open a && a.severity == "CRITICAL") ≡ true → is_late now (sla_row rows a) ≡ true)
    × ((is_open a && (a.severity == "CRITICAL" || a.severity == "HIGH")) ≡ false
        → is_late now (sla_row rows a) ≡ false)

seeded_breaches :
    (rate : Rate) (built_at now : ℕ) (d d' : Db)
    → 15 * minute < now
    → IsSeeded built_at now d d'
    → ((compute_sla rate now (sla_rows d'.tables)).breaches
        ≡ length (filter (λ a. is_late now (sla_row d'.tables.analyst_actions a)) d'.tables.alerts))
      × All (IsLateIfOpen now d'.tables.analyst_actions) d'.tables.alerts
seeded_breaches rate built_at now d d' h s = (
  late_rows now rate d'.tables,
  every_alert _ _ _ d'.tables.alerts (λ a k l. late_lem now d'.tables.analyst_actions a h k l)
      s.allowed s.stored,
)

-- Right after a seeding that returned, with a fair generator and more than 15 minutes after the
-- start of time: the SLA metrics count as breaches exactly the alerts that are late; every open
-- CRITICAL alert is late, and no closed alert and no open MEDIUM or LOW one is.
pub main_breaches :
    (rate : Rate) (stream : Stream) (fuel built_at : ℕ) (s s' : Session)
    → IsFair stream fuel
    → 15 * minute < s.now
    → main stream fuel built_at s ≡ some (ok tt, s')
    → ((compute_sla rate s.now (sla_rows s'.db.tables)).breaches
        ≡ length (
            filter
              (λ a. is_late s.now (sla_row s'.db.tables.analyst_actions a))
              s'.db.tables.alerts))
      × All (IsLateIfOpen s.now s'.db.tables.analyst_actions) s'.db.tables.alerts
main_breaches rate stream fuel built_at s s' fair h returned =
    let (o, e, ends) = main_lem stream fuel built_at s fair in
    let same : o ≡ (ok tt, s') = some-injective _ _ (sym e ∙ returned) in
    elim (subst (Ends s (IsSeeded built_at s.now s.db)) same ends) [
      | inl (raised, kept, faulty) ↦ absurd (err-ok (sym raised.1))
      | inr (done, seeded) ↦ seeded_breaches rate built_at s.now s.db s'.db h seeded
    ]
