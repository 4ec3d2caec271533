-- ===== src/Changes/Notes.antt =====
-- What the transaction of `api_add_note` has written when it returns.
use soc_dashboard.Common.{ℕ, String, ◌≡◌, some, Option, [], ◌∷◌, ◌++◌, arith}
use soc_dashboard.Values.{ok}
use soc_dashboard.Crypto.{encrypt_text}
use soc_dashboard.Db.{Alert, AuditEntry, Db}
use soc_dashboard.Db.Session.{Session}
use soc_dashboard.Db.Ensures.{Ensures, Ensures-execute, Ensures-execute_then, Ensures-lift_then}
use soc_dashboard.Db.Statements.{find_alert, select_alert, insert_audit}
use soc_dashboard.World.{Env, bind_text}
use soc_dashboard.Access.{User}
use soc_dashboard.Changes.{found_alert, note_tx}
use soc_dashboard.Changes.Effects.{audit_row}

-- One audit entry is appended, with the note encrypted, and nothing else has changed.
pub record Noted (env : Env) (user : User) (alert_id : ℕ) (note : String) (now : ℕ) (alert : Alert)
    (entry : AuditEntry) (d d' : Db) : Type 0 where
  pub found : find_alert alert_id d.tables.alerts ≡ some alert
  pub written :
      entry
      ≡ audit_row d.sequences.audit_log_id alert_id user "note_added" alert.status alert.status
          (some (encrypt_text env.fernet note))
          now
  pub tables : d'.tables ≡ record d.tables { audit_log = d.tables.audit_log ++ entry ∷ [] }

module _ (env : Env) (user : User) (alert_id : ℕ) (note : String) (s : Session) where
  abbrev pub Recorded : AuditEntry → Session → Type 0
  Recorded entry s' = (alert : Alert) × Noted env user alert_id note s.now alert entry s.db s'.db

  write_note :
      (row : Option Alert) (alert : Alert) (sealed : String) (entry : AuditEntry)
      → (select_alert alert_id s.now s.db).0 ≡ ok row
      → found_alert row ≡ ok alert
      → bind_text env (encrypt_text env.fernet note) ≡ ok sealed
      → (insert_audit alert_id user.id user.username "note_added" alert.status alert.status
          (some sealed)
          s.now
          s.db).0
        ≡ ok entry
      → Noted env user alert_id note s.now alert entry s.db
          (insert_audit alert_id user.id user.username "note_added" alert.status alert.status
            (some sealed)
            s.now
            s.db).1
  unfolding select_alert bind_text insert_audit
  write_note row alert sealed entry a b c e = ground arith

  pub note_tx-Ensures : Ensures (note_tx env user alert_id note) s Recorded
  unfolding note_tx select_alert
  note_tx-Ensures = Ensures-execute_then _ s _ _ (λ row e1. Ensures-lift_then _ _ _ _ (λ alert e2.
      Ensures-lift_then _ _ _ _ (λ sealed e3.
        Ensures-execute _ _ _
          (λ entry e4. (alert, write_note row alert sealed entry e1 e2 e3 e4)))))
