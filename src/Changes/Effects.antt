-- ===== src/Changes/Effects.antt =====
-- What a transaction of the triage endpoints has written when it returns.
use soc_dashboard.Common.{
  ℕ, String, ◌≡◌, ap, Option, none, some, some, List, [], ◌∷◌, ◌++◌, arith, eq_iff, nat_eq, text_eq,
}
use soc_dashboard.Values.{ok}
use soc_dashboard.Crypto.{decrypt_alert}
use soc_dashboard.Db.{Alert, AnalystAction, AuditEntry, Db}
use soc_dashboard.Db.Session.{Session}
use soc_dashboard.Db.Ensures.{
  Ensures, Ensures-bind, Ensures-lift, Ensures-execute_then, Ensures-lift_then, Ensures-pure,
}
use soc_dashboard.Db.Statements.{
  find_alert, close_row, update_rows, select_alert, update_alert, insert_action, insert_audit,
  response_seconds,
}
use soc_dashboard.World.{Env, bind_text}
use soc_dashboard.Access.{User}
use soc_dashboard.Requests.{Verdict}
use soc_dashboard.Changes.{found_alert, require_open, fetched, look_tx, close_tx, classify_tx}

pub find_alert-update_rows :
    (key : ℕ) (status analyst : String) (rows : List Alert) (a : Alert)
    → find_alert key rows ≡ some a
    → find_alert key (update_rows key (close_row status analyst) rows)
      ≡ some (close_row status analyst a)
unfolding find_alert update_rows
find_alert-update_rows key status analyst [] a h = absurd (cc)
find_alert-update_rows key status analyst (r ∷ rows) a h =
    ground (arith, find_alert-update_rows key status analyst rows a)

-- The row of `analyst_actions` that a triage of `alert` writes.
abbrev pub action_row : ℕ → ℕ → String → Verdict → Alert → ℕ → AnalystAction
action_row key alert_id analyst v alert now = record {
  id = key;
  alert_id = alert_id;
  analyst_name = analyst;
  action = v.action;
  acted_at = now;
  response_time_seconds = some (response_seconds now alert.created_at);
}

abbrev pub audit_row : ℕ → ℕ → User → String → String → String → Option String → ℕ → AuditEntry
audit_row key alert_id user action from to note now = record {
  id = key;
  alert_id = alert_id;
  user_id = user.id;
  username = user.username;
  action = action;
  from_status = from;
  to_status = to;
  note = note;
  created_at = now;
}

-- The three writes of a triage, together: the row is closed, its action and its audit entry are
-- recorded, and nothing else has changed.
pub record Triaged (user : User) (alert_id : ℕ) (analyst : String) (v : Verdict) (now : ℕ)
    (alert : Alert) (d d' : Db) : Type 0 where
  pub found : find_alert alert_id d.tables.alerts ≡ some alert
  pub was_open : alert.status ≡ "open"
  pub alerts : d'.tables.alerts ≡ update_rows alert_id (close_row v.status analyst) d.tables.alerts
  pub analyst_actions :
      d'.tables.analyst_actions
      ≡ d.tables.analyst_actions
        ++ action_row d.sequences.analyst_actions_id alert_id analyst v alert now ∷ []
  pub audit_log :
      d'.tables.audit_log
      ≡ d.tables.audit_log
        ++ audit_row d.sequences.audit_log_id alert_id user v.action "open" v.status none now ∷ []
  pub alert_embeddings : d'.tables.alert_embeddings ≡ d.tables.alert_embeddings
  pub users : d'.tables.users ≡ d.tables.users

module _ (env : Env) (user : User) (alert_id : ℕ) (analyst : String) (v : Verdict)
    (s : Session) where
  -- What `classify_tx` leaves when it returns.
  abbrev pub Closed : Alert → Session → Type 0
  Closed shown s' =
      (alert : Alert) × Triaged user alert_id analyst v s.now alert s.db s'.db
      × (shown ≡ decrypt_alert env.fernet (close_row v.status analyst alert))

  -- The three writes, one after the other.
  abbrev updated_db : Db
  updated_db = (update_alert v.status analyst alert_id s.now s.db).1

  abbrev acted_db : Alert → Db
  acted_db alert = (insert_action alert_id analyst v.action alert.created_at s.now updated_db).1

  classify_writes :
      (alert : Alert) (changed : Option Alert) (updated : Alert) (logged : Unit {0})
      (entry : AuditEntry)
      → find_alert alert_id s.db.tables.alerts ≡ some alert
      → alert.status ≡ "open"
      → (update_alert v.status analyst alert_id s.now s.db).0 ≡ ok changed
      → fetched changed ≡ ok updated
      → (insert_action alert_id analyst v.action alert.created_at s.now updated_db).0 ≡ ok logged
      → (insert_audit alert_id user.id user.username v.action alert.status v.status none s.now
          (acted_db alert)).0
        ≡ ok entry
      → Triaged user alert_id analyst v s.now alert s.db
          (insert_audit alert_id user.id user.username v.action alert.status v.status none s.now
            (acted_db alert)).1
        × (updated ≡ close_row v.status analyst alert)
  unfolding update_alert insert_action insert_audit
  classify_writes alert changed updated logged entry a b c d e f =
      ground (arith, find_alert-update_rows alert_id v.status analyst s.db.tables.alerts alert a)

  open_alert :
      (row : Option Alert) (found alert : Alert)
      → (select_alert alert_id s.now s.db).0 ≡ ok row
      → found_alert row ≡ ok found
      → require_open found ≡ ok alert
      → (find_alert alert_id s.db.tables.alerts ≡ some alert) × (alert.status ≡ "open")
  unfolding select_alert
  open_alert row found alert a b c = ground (arith, eq_iff found.status "open")

  pub classify_tx-Ensures : Ensures (classify_tx env user alert_id analyst v) s Closed
  unfolding classify_tx look_tx close_tx bind_text select_alert
  classify_tx-Ensures = Ensures-bind (look_tx alert_id) _ s _ (
      Ensures-execute_then _ s _ _ (λ row e1. Ensures-lift_then _ _ _ _ (λ found e2.
        Ensures-lift _ _ _ (λ alert e3. Ensures-lift_then _ _ _ _ (λ name e4.
          let same : name ≡ analyst = ground arith in
          let (here, was_open) = open_alert row found alert e1 e2 e3 in
          rw same (
            Ensures-execute_then _ _ _ _ (λ changed e5. Ensures-lift_then _ _ _ _ (λ updated e6.
              Ensures-execute_then _ _ _ _ (λ logged e7. Ensures-execute_then _ _ _ _ (λ entry e8.
                Ensures-pure _ _ _ (
                  let (done, shown) =
                    classify_writes alert changed updated logged entry here was_open e5 e6 e7 e8 in
                  (alert, done, ap (decrypt_alert env.fernet) shown))))))))))))
