-- ===== src/Sla/Metrics.antt =====
-- The SLA metrics against an independent count.
use soc_dashboard.Common.{
  ℕ, ◌+◌, ◌-◌, ◌*◌, ◌≡◌, ◌∙◌, refl, ap, not, leb, Option-cases, String, Bool, true, false, Option,
  none, some, List, [], ◌∷◌, ◌==◌, nat_eq, text_eq, Dict, lookup, lookup-insert, if◌then◌else◌,
  length, filter, arith, ◌&&◌, eq_iff, Bool-cases, inl, inr,
}
use soc_dashboard.Sla.{
  sla_seconds, SlaRow, breaches_target, count_one, increment, Tally, tally_row, tally_rows, Rate,
  rate_of, compute_sla,
}

-- The targets in minutes.
abbrev pub minutes : String → Option ℕ
minutes severity =
    if severity == "CRITICAL"
    then some 15
    else if severity == "HIGH"
    then some 60
    else if severity == "MEDIUM"
    then some 240
    else if severity == "LOW"
    then some 1_440
    else none

-- The microseconds that the row's response took, or has taken so far.
abbrev pub waited : ℕ → SlaRow → ℕ
waited now r = elim r.resp [ some seconds ↦ seconds * 1_000_000 | none ↦ now - r.created_at ]

-- A row counts if its severity has a target, and is late if it took longer than that.
abbrev is_target : Option ℕ → Bool
is_target none = false
is_target (some _) = true

abbrev past : ℕ → Option ℕ → Bool
past took none = false
past took (some m) = not (leb took (m * 60_000_000))

abbrev pub has_target : SlaRow → Bool
has_target r = is_target (minutes r.severity)

abbrev pub is_late : ℕ → SlaRow → Bool
is_late now r = past (waited now r) (minutes r.severity)

-- The same by the tables and the comparisons of app.py.
abbrev pub is_late_at : ℕ → SlaRow → Option ℕ → Bool
is_late_at now r none = false
is_late_at now r (some target) = breaches_target now target r

abbrev in_seconds : Option ℕ → Option ℕ
in_seconds none = none
in_seconds (some m) = some (m * 60)

lookup-sla_seconds :
    (severity : String) → lookup severity sla_seconds ≡ in_seconds (minutes severity)
unfolding lookup
lookup-sla_seconds severity = ground (
  arith,
  eq_iff "CRITICAL" severity,
  eq_iff "HIGH" severity,
  eq_iff "MEDIUM" severity,
  eq_iff "LOW" severity,
  eq_iff severity "CRITICAL",
  eq_iff severity "HIGH",
  eq_iff severity "MEDIUM",
  eq_iff severity "LOW",
)

late_in :
    (now : ℕ) (r : SlaRow) (o : Option ℕ) → is_late_at now r (in_seconds o) ≡ past (waited now r) o
unfolding breaches_target
late_in now r none = refl
late_in now r (some m) = elim (Option-cases r.resp) [
  | inl e ↦ rw e (ground arith)
  | inr (seconds, e) ↦ rw e (ground arith)
]

pub is_late-is_late_at :
    (now : ℕ) (r : SlaRow) → is_late_at now r (lookup r.severity sla_seconds) ≡ is_late now r
is_late-is_late_at now r =
    ap (is_late_at now r) (lookup-sla_seconds r.severity) ∙ late_in now r (minutes r.severity)

counts_in : (o : Option ℕ) → is_target (in_seconds o) ≡ is_target o
counts_in none = refl
counts_in (some m) = refl

has_target-is_target : (r : SlaRow) → is_target (lookup r.severity sla_seconds) ≡ has_target r
has_target-is_target r =
    ap is_target (lookup-sla_seconds r.severity) ∙ counts_in (minutes r.severity)

abbrev found : Option ℕ → ℕ
found none = 0
found (some n) = n

abbrev pub count_of : String → Dict ℕ → ℕ
count_of k d = found (lookup k d)

abbrev one : Bool → ℕ
one b = if b then 1 else 0

found-count_one : (o : Option ℕ) → found (some (count_one o)) ≡ 1 + found o
found-count_one none = omega arith
found-count_one (some n) = omega arith

count_of-increment :
    (k j : String) (d : Dict ℕ) → count_of j (increment k d) ≡ one (k == j) + count_of j d
unfolding increment
count_of-increment k j d =
    let e = lookup-insert k j (count_one (lookup k d)) d in
    let f = ap found e in ground (arith, eq_iff k j, f, found-count_one (lookup k d))

module _ (now : ℕ) where
  considered-tally_row :
      (r : SlaRow) (o : Option ℕ) (t : Tally)
      → (tally_row now r o t).considered ≡ one (is_target o) + t.considered
  unfolding tally_row
  considered-tally_row r none t = omega arith
  considered-tally_row r (some target) t = ground arith

  breaches-tally_row :
      (r : SlaRow) (o : Option ℕ) (t : Tally)
      → (tally_row now r o t).breaches ≡ one (is_late_at now r o) + t.breaches
  unfolding tally_row
  breaches-tally_row r none t = omega arith
  breaches-tally_row r (some target) t = ground arith

  by_severity-tally_row :
      (s : String) (r : SlaRow) (o : Option ℕ) (t : Tally)
      → count_of s (tally_row now r o t).by_severity
        ≡ one (is_late_at now r o && r.severity == s) + count_of s t.by_severity
  unfolding tally_row
  by_severity-tally_row s r none t = omega arith
  by_severity-tally_row s r (some target) t = elim (Bool-cases (breaches_target now target r)) [
    | inl b ↦ rw b (count_of-increment r.severity s t.by_severity)
    | inr b ↦ rw b (omega arith)
  ]

  tally_rows_lem :
      (s : String) (rows : List SlaRow) (t : Tally)
      → ((tally_rows now rows t).considered ≡ t.considered + length (filter has_target rows))
        × ((tally_rows now rows t).breaches ≡ t.breaches + length (filter (is_late now) rows))
        × (count_of s (tally_rows now rows t).by_severity
            ≡ count_of s t.by_severity
              + length (filter (λ r. is_late now r && r.severity == s) rows))
  unfolding tally_rows
  tally_rows_lem s [] t = (omega arith, omega arith, omega arith)
  tally_rows_lem s (r ∷ rows) t =
      let o = lookup r.severity sla_seconds in
      let (h, k, l) = tally_rows_lem s rows (tally_row now r o t) in
      (
        ground (arith, h, considered-tally_row r o t, has_target-is_target r),
        ground (arith, k, breaches-tally_row r o t, is_late-is_late_at now r),
        ground (arith, l, by_severity-tally_row s r o t, is_late-is_late_at now r),
      )

abbrev start : Tally
start = record { considered = 0; breaches = 0; by_severity = [] }

-- What `compute_sla` reports on any rows: `considered` is the number of rows whose severity has a
-- target; `breaches` is the number of rows that are late: the recorded response time, or the age at
-- `now` where there is none, is more than 15 minutes, 1, 4 or 24 hours for CRITICAL, HIGH, MEDIUM
-- and LOW; `by_severity` has for each severity the number of its late rows; the rate is the rounded share of the late rows, and 0
-- where no row counts.
pub compute_sla_lem :
    (rate : Rate) (now : ℕ) (rows : List SlaRow) (s : String)
    → ((compute_sla rate now rows).considered ≡ length (filter has_target rows))
      × ((compute_sla rate now rows).breaches ≡ length (filter (is_late now) rows))
      × (count_of s (compute_sla rate now rows).by_severity
          ≡ length (filter (λ r. is_late now r && r.severity == s) rows))
      × ((compute_sla rate now rows).breach_rate ≡ (
          if length (filter has_target rows) == 0
          then 0
          else rate (length (filter (is_late now) rows)) (length (filter has_target rows))))
unfolding compute_sla rate_of lookup
compute_sla_lem rate now rows s =
    let (h, k, l) = tally_rows_lem now s rows start in
    let h' : (tally_rows now rows start).considered ≡ length (filter has_target rows) =
      omega (arith, h) in
    let k' : (tally_rows now rows start).breaches ≡ length (filter (is_late now) rows) =
      omega (arith, k) in
    (h', k', omega (arith, l), rw (h', k') refl)
