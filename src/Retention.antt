-- ===== src/Retention.antt =====
-- `purge_old_alerts` of app.py. Here timestamps count from the server's least one, so that a cutoff
-- below 0 is the "out of range" error of the subtraction.
pub mod Integrity
use soc_dashboard.Common.{
  ℕ, ◌+◌, ◌-◌, ◌*◌, ◌^◌, Bool, not, ◌||◌, List, ltb, ℤ, pos, negsuc, ◌==◌, nat_eq, filter, length,
  if◌then◌else◌,
}
use soc_dashboard.Values.{Result, ok, err, database_error}
use soc_dashboard.Db.{Alert, Tables, Db}
use soc_dashboard.Db.Session.{Session, Tx, execute, fails, spend, rollback}
use soc_dashboard.Db.Statements.{has_alert}

-- ON DELETE CASCADE: the rows of the other tables whose alert is left.
abbrev pub cascade : List Alert → Tables → Tables
cascade left t = record t {
  alerts = left;
  analyst_actions = filter (λ r. has_alert r.alert_id left) t.analyst_actions;
  audit_log = filter (λ r. has_alert r.alert_id left) t.audit_log;
  alert_embeddings = filter (λ r. has_alert r.alert_id left) t.alert_embeddings;
}

abbrev pub microseconds_per_day : ℕ
microseconds_per_day = 86_400_000_000

-- created_at < now() - make_interval(days => …)
unfoldable pub is_old : ℕ → ℕ → Alert → Bool
is_old days now a = ltb (a.created_at + days * microseconds_per_day) now

-- The tables without the old alerts.
abbrev pub purged : ℕ → ℕ → Tables → Tables
purged days now t = cascade (filter (λ a. not (is_old days now a)) t.alerts) t

-- DELETE FROM alerts WHERE created_at < …; cur.rowcount. The days are an int4.
unfoldable pub delete_old : ℕ → ℕ → Db → Result ℕ × Db
delete_old days now d =
    if ltb now (days * microseconds_per_day) || not (ltb days (2 ^ 31))
    then (err database_error, d)
    else (
      ok (length (filter (is_old days now) d.tables.alerts)),
      record d { tables = purged days now d.tables },
    )

-- The end of the `with` block after an explicit `conn.commit()`: one more commit, of nothing.
unfoldable pub leave_committed : ℕ → Session → Result ℕ × Session
leave_committed deleted s =
    if fails s.faults then (err database_error, spend s) else (ok deleted, spend s)

-- `conn.commit()`, on what the statement left
unfoldable pub commit_deleted : Session → Result ℕ × Session → Result ℕ × Session
commit_deleted before (err e, s) = (err e, rollback before s)
commit_deleted before (ok deleted, s) =
    if fails s.faults
    then (err database_error, rollback before (spend s))
    else leave_committed deleted (spend s)

unfoldable pub purge_old_alerts : ℤ → Tx ℕ
purge_old_alerts (negsuc _) s = (ok 0, s)
purge_old_alerts (pos days) s =
    if days == 0
    then (ok 0, s)
    else if fails s.faults
    then (err database_error, spend s)
    else commit_deleted s (execute (delete_old days) (spend s))
