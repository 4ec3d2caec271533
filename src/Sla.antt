-- ===== src/Sla.antt =====
-- `SLA_SECONDS` and `compute_sla` of app.py. Times are in microseconds. `(now - created_at)` exceeds
-- a target of seconds exactly when it exceeds as many million microseconds: the division by 10**6
-- of `total_seconds` is correctly rounded, so it is monotone and exact at whole seconds.
pub mod Metrics
use soc_dashboard.Common.{
  ℕ, ◌+◌, ◌-◌, ◌*◌, String, Bool, true, false, Option, none, some, List, [], ◌∷◌, ◌==◌, nat_eq, ltb,
  Dict, lookup, insert, if◌then◌else◌,
}

abbrev pub sla_seconds : Dict ℕ
sla_seconds =
    ("CRITICAL", 15 * 60) ∷ ("HIGH", 60 * 60) ∷ ("MEDIUM", 4 * 60 * 60) ∷ ("LOW", 24 * 60 * 60) ∷ []

-- A row of the SLA query: `resp` is the least recorded response time, in seconds.
pub record SlaRow : Type 0 where
  pub severity : String
  pub resp : Option ℕ
  pub created_at : ℕ

-- `elapsed > target`, from the recorded response or from the age of the open alert
unfoldable pub breaches_target : ℕ → ℕ → SlaRow → Bool
breaches_target now target r = elim r.resp [
  | some seconds ↦ ltb target seconds
  | none ↦ ltb (r.created_at + target * 1_000_000) now
]

-- `by_severity[k] = by_severity.get(k, 0) + 1`
abbrev pub count_one : Option ℕ → ℕ
count_one none = 1
count_one (some n) = n + 1

unfoldable pub increment : String → Dict ℕ → Dict ℕ
increment k d = insert k (count_one (lookup k d)) d

pub record Tally : Type 0 where
  pub considered : ℕ
  pub breaches : ℕ
  pub by_severity : Dict ℕ

-- One round of the loop, at the target of the row's severity.
unfoldable pub tally_row : ℕ → SlaRow → Option ℕ → Tally → Tally
tally_row now r none t = t
tally_row now r (some target) t =
    if breaches_target now target r
    then record {
      considered = t.considered + 1;
      breaches = t.breaches + 1;
      by_severity = increment r.severity t.by_severity;
    }
    else record t { considered = t.considered + 1 }

unfoldable pub tally_rows : ℕ → List SlaRow → Tally → Tally
tally_rows now [] t = t
tally_rows now (r ∷ rows) t =
    tally_rows now rows (tally_row now r (lookup r.severity sla_seconds) t)

pub record SlaMetrics : Type 0 where
  pub breaches : ℕ
  pub considered : ℕ
  -- in tenths of a percent
  pub breach_rate : ℕ
  pub by_severity : Dict ℕ

-- `round(100 * part / whole, 1)`, in tenths, where `whole` is not 0: Python's float division and
-- rounding.
abbrev pub Rate : Type 0
Rate = ℕ → ℕ → ℕ

unfoldable pub rate_of : Rate → ℕ → ℕ → ℕ
rate_of rate part whole = if whole == 0 then 0 else rate part whole

unfoldable pub compute_sla : Rate → ℕ → List SlaRow → SlaMetrics
compute_sla rate now rows =
    let t = tally_rows now rows (record { considered = 0; breaches = 0; by_severity = [] }) in
    record {
      breaches = t.breaches;
      considered = t.considered;
      breach_rate = rate_of rate t.breaches t.considered;
      by_severity = t.by_severity;
    }
