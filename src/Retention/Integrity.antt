-- ===== src/Retention/Integrity.antt =====
-- What a purge leaves behind, whichever call fails.
use soc_dashboard.Common.{
  ℕ, ◌+◌, ◌≡◌, refl, ap, sym, ◌∙◌, Bool, true, false, not, ◌⊎◌, inl, inr, List, [], ◌∷◌, pos, ◌==◌,
  nat_eq, filter, length, All, arith, Bool-cases, ◌||◌, ltb, ◌*◌, ◌^◌, leb,
}
use soc_dashboard.Values.{Exn, Result, ok, err, database_error, ok-injective, err-ok}
use soc_dashboard.Db.{Alert, Tables}
use soc_dashboard.Db.Session.{Session, execute, fails, spend, rollback}
use soc_dashboard.Db.Statements.{has_alert}
use soc_dashboard.Retention.{
  is_old, purged, delete_old, leave_committed, commit_deleted, purge_old_alerts,
  microseconds_per_day,
}

-- Every action, audit entry and embedding is of an alert that is there.
abbrev pub IsIntact : Tables → Type 0
IsIntact t =
    All (λ r. has_alert r.alert_id t.alerts ≡ true) t.analyst_actions
    × All (λ r. has_alert r.alert_id t.alerts ≡ true) t.audit_log
    × All (λ r. has_alert r.alert_id t.alerts ≡ true) t.alert_embeddings

All-filter : {A : Type 0} (p : A → Bool) (xs : List A) → All (λ x. p x ≡ true) (filter p xs)
All-filter p [] = tt
All-filter p (x ∷ xs) = elim (Bool-cases (p x)) [
  | inl e ↦ rw e (e, All-filter p xs)
  | inr e ↦ rw e (All-filter p xs)
]

pub length-filter-not :
    {A : Type 0} (p : A → Bool) (xs : List A)
    → length (filter p xs) + length (filter (λ x. not (p x)) xs) ≡ length xs
length-filter-not p [] = omega arith
length-filter-not p (x ∷ xs) = ground (arith, length-filter-not p xs)

pub purged-IsIntact : (days now : ℕ) (t : Tables) → IsIntact (purged days now t)
purged-IsIntact days now t =
    (All-filter _ t.analyst_actions, All-filter _ t.audit_log, All-filter _ t.alert_embeddings)

-- How a purge of some days ends: it raised, with the tables as before or purged all the same, or it
-- returned the number of the alerts that are gone.
abbrev pub Purged : ℕ → Session → Result ℕ × Session → Type 0
Purged days s (r, s') =
    (((e : Exn) × (r ≡ err e))
      × ((s'.db.tables ≡ s.db.tables) ⊎ (s'.db.tables ≡ purged days s.now s.db.tables)))
    ⊎ ((s'.db.tables ≡ purged days s.now s.db.tables)
        × (r ≡ ok (length (filter (is_old days s.now) s.db.tables.alerts))))

committed-Purged :
    (days : ℕ) (s s' : Session) (n : ℕ)
    → s'.db.tables ≡ purged days s.now s.db.tables
    → n ≡ length (filter (is_old days s.now) s.db.tables.alerts)
    → Purged days s (commit_deleted s (ok n, s'))
unfolding commit_deleted leave_committed rollback
committed-Purged days s s' n e h = elim (Bool-cases (fails s'.faults)) [
  | inl lost ↦ rw lost (inl ((database_error, refl), inl refl))
  | inr fine ↦ rw fine (elim (Bool-cases (fails (spend s').faults)) [
    | inl lost ↦ rw lost (inl ((database_error, refl), inr e))
    | inr fine' ↦ rw fine' (inr (e, ap ok h))
  ])
]

raised-Purged : (days : ℕ) (s s' : Session) (e : Exn) → Purged days s (commit_deleted s (err e, s'))
unfolding commit_deleted rollback
raised-Purged days s s' e = inl ((e, refl), inl refl)

run-Purged :
    (days : ℕ) (s : Session)
    → Purged days s (commit_deleted s (execute (delete_old days) (spend s)))
unfolding execute delete_old
run-Purged days s = elim (Bool-cases (fails (spend s).faults)) [
  | inl lost ↦ rw lost (raised-Purged days s (spend (spend s)) database_error)
  | inr fine ↦
      elim (Bool-cases (ltb s.now (days * microseconds_per_day) || not (ltb days (2 ^ 31)))) [
        | inl out ↦ rw (fine, out) (raised-Purged days s _ database_error)
        | inr within ↦ rw (fine, within) (committed-Purged days s _ _ refl refl)
      ]
]

pub purge-Purged :
    (days : ℕ) (s : Session) → (days == 0) ≡ false → Purged days s (purge_old_alerts (pos days) s)
unfolding purge_old_alerts
purge-Purged days s h = elim (Bool-cases (fails s.faults)) [
  | inl lost ↦ rw (h, lost) (inl ((database_error, refl), inl refl))
  | inr fine ↦ rw (h, fine) (run-Purged days s)
]

-- An alert at most that many days old.
abbrev pub is_young : ℕ → ℕ → Alert → Bool
is_young days now a = leb now (a.created_at + days * (24 * 60 * 60 * 1_000_000))

filter-ext :
    {A : Type 0} (p q : A → Bool) (xs : List A) → ((x : A) → p x ≡ q x) → filter p xs ≡ filter q xs
filter-ext p q [] h = refl
filter-ext p q (x ∷ xs) h = rw (h x, filter-ext p q xs h) refl

not-is_old : (days now : ℕ) (a : Alert) → not (is_old days now a) ≡ is_young days now a
unfolding is_old
not-is_old days now a = ground arith

-- The young alerts are left with what belongs to them, and n alerts are gone.
pub record HasPurged (days : ℕ) (s : Session) (t : Tables) (n : ℕ) : Type 0 where
  pub alerts : t.alerts ≡ filter (is_young days s.now) s.db.tables.alerts
  pub gone : n + length t.alerts ≡ length s.db.tables.alerts
  pub analyst_actions :
      t.analyst_actions ≡ filter (λ r. has_alert r.alert_id t.alerts) s.db.tables.analyst_actions
  pub audit_log : t.audit_log ≡ filter (λ r. has_alert r.alert_id t.alerts) s.db.tables.audit_log
  pub alert_embeddings :
      t.alert_embeddings ≡ filter (λ r. has_alert r.alert_id t.alerts) s.db.tables.alert_embeddings
  pub users : t.users ≡ s.db.tables.users

purged-HasPurged :
    (days : ℕ) (s : Session)
    → HasPurged days s
        (purged days s.now s.db.tables)
        (length (filter (is_old days s.now) s.db.tables.alerts))
purged-HasPurged days s = record {
  alerts = filter-ext _ _ s.db.tables.alerts (not-is_old days s.now);
  gone = length-filter-not (is_old days s.now) s.db.tables.alerts;
  analyst_actions = refl;
  audit_log = refl;
  alert_embeddings = refl;
  users = refl;
}

-- All of a purge or nothing of it was done; all of it, if it returned a number, the one of the alerts.
abbrev pub PurgeEnds : ℕ → Session → Result ℕ × Session → Type 0
PurgeEnds days s (r, s') =
    ((s'.db.tables ≡ s.db.tables) ⊎ ((n : ℕ) × HasPurged days s s'.db.tables n))
    × ((n : ℕ) → r ≡ ok n → HasPurged days s s'.db.tables n)

purge_outcome :
    (days : ℕ) (s s' : Session) (r : Result ℕ)
    → IsIntact s.db.tables
    → Purged days s (r, s')
    → IsIntact s'.db.tables × PurgeEnds days s (r, s')
purge_outcome days s s' r h (inl ((e, raised), inl same)) =
    (rw same h, (inl same, λ n k. absurd (err-ok (sym raised ∙ k))))
purge_outcome days s s' r h (inl ((e, raised), inr gone)) = (
  rw gone (purged-IsIntact days s.now s.db.tables),
  (
    inr (length (filter (is_old days s.now) s.db.tables.alerts), rw gone (purged-HasPurged days s)),
    λ n k. absurd (err-ok (sym raised ∙ k)),
  ),
)
purge_outcome days s s' r h (inr (gone, count)) = (
  rw gone (purged-IsIntact days s.now s.db.tables),
  (
    inr (length (filter (is_old days s.now) s.db.tables.alerts), rw gone (purged-HasPurged days s)),
    λ n k. rw (gone, ok-injective (sym k ∙ count)) (purged-HasPurged days s),
  ),
)

-- A purge of at least one day, whichever of its calls fail: if every action, audit entry and
-- embedding was of an alert that is there, then so it is afterwards. Either the tables are as
-- before, or exactly the alerts of at most that many days of 24 hours are left, with their actions,
-- audit entries and embeddings, and with the accounts; the latter if the purge returned a number,
-- which is then that of the alerts that are gone.
pub purge_old_alerts_lem :
    (days : ℕ) (s : Session)
    → (days == 0) ≡ false
    → IsIntact s.db.tables
    → let (r, s') = purge_old_alerts (pos days) s in
      IsIntact s'.db.tables × PurgeEnds days s (r, s')
purge_old_alerts_lem days s h intact =
    let out = purge_old_alerts (pos days) s in
    purge_outcome days s out.1 out.0 intact (purge-Purged days s h)
