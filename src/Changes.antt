-- ===== src/Changes.antt =====
-- The transactions of `api_classify` and `api_add_note` of app.py. A user's name and an action come
-- from the database and from the program's own table, so the driver can send them.
pub mod Effects
pub mod Notes
pub mod Race
pub mod Closing
pub mod Overlap
use soc_dashboard.Common.{ℕ, String, Option, none, some, ◌==◌, text_eq, if◌then◌else◌}
use soc_dashboard.Values.{Exn, http, type_error, Result, ok, err}
use soc_dashboard.Crypto.{encrypt_text, decrypt_alert}
use soc_dashboard.Db.{Alert, AuditEntry}
use soc_dashboard.Db.Session.{Tx, execute, pure, lift, ◌>>=◌, ◌>>◌}
use soc_dashboard.Db.Statements.{select_alert, update_alert, insert_action, insert_audit}
use soc_dashboard.World.{Env, bind_text}
use soc_dashboard.Access.{User}
use soc_dashboard.Requests.{Verdict}

abbrev pub found_alert : Option Alert → Result Alert
found_alert none = err (http 404 "alert not found")
found_alert (some a) = ok a

abbrev pub require_open : Alert → Result Alert
require_open a = if a.status == "open" then ok a else err (http 409 "alert is already closed")

-- `decrypt_alert(cur.fetchone())`, which is no row only if the alert has vanished
abbrev pub fetched : Option Alert → Result Alert
fetched none = err type_error
fetched (some a) = ok a

-- The first half of the block of `api_classify`: the row, and the state check.
unfoldable pub look_tx : ℕ → Tx Alert
look_tx alert_id = do
  row ← execute (select_alert alert_id)
  found ← lift (found_alert row)
  lift (require_open found)

-- The second half: the update, the action and the audit entry, from the row that was read.
unfoldable pub close_tx : Env → User → ℕ → String → Verdict → Alert → Tx Alert
close_tx env user alert_id analyst v alert = do
  name ← lift (bind_text env analyst)
  changed ← execute (update_alert v.status name alert_id)
  updated ← lift (fetched changed)
  execute (insert_action alert_id name v.action alert.created_at)
  execute (insert_audit alert_id user.id user.username v.action alert.status v.status none)
  pure (decrypt_alert env.fernet updated)

-- The block of `api_classify`.
unfoldable pub classify_tx : Env → User → ℕ → String → Verdict → Tx Alert
classify_tx env user alert_id analyst v = do
  alert ← look_tx alert_id
  close_tx env user alert_id analyst v alert

-- The block of `api_add_note`
unfoldable pub note_tx : Env → User → ℕ → String → Tx AuditEntry
note_tx env user alert_id note = do
  row ← execute (select_alert alert_id)
  alert ← lift (found_alert row)
  sealed ← lift (bind_text env (encrypt_text env.fernet note))
  execute (
      insert_audit alert_id user.id user.username "note_added" alert.status alert.status
        (some sealed))
