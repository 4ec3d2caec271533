-- ===== src/Audit/History.antt =====
-- The history of an alert is the same with encryption as without it.
use soc_dashboard.Common.{
  ℕ, ◌≡◌, refl, ap, ◌∙◌, String, Option, none, some, List, [], ◌∷◌, filter, map, ◌==◌, nat_eq,
  Bool-cases, inl, inr,
}
use soc_dashboard.Values.{ok}
use soc_dashboard.Crypto.{Cipher, encrypt_text, decrypt_field}
use soc_dashboard.Crypto.RoundTrip.{IsCipher, decrypt_text-encrypt_text}
use soc_dashboard.Db.{AuditEntry}
use soc_dashboard.Db.Session.{execute, spend}
use soc_dashboard.Db.Settles.{Settles-execute, Settles-with_conn}
use soc_dashboard.World.{Env, World, App, Response, success, pure, respond, in_db, to_response}
use soc_dashboard.World.Frame.{bind-ok}
use soc_dashboard.Audit.{LogOrder, of_alert, select_history, show_entry, api_alert_audit}

abbrev pub seal_note : Option Cipher → Option String → Option String
seal_note fernet none = none
seal_note fernet (some s) = some (encrypt_text fernet s)

-- An entry as it is stored.
abbrev pub seal : Option Cipher → AuditEntry → AuditEntry
seal fernet e = record e { note = seal_note fernet e.note }

note_back :
    (fernet : Option Cipher) (n : Option String)
    → IsCipher fernet
    → decrypt_field fernet (seal_note fernet n) ≡ n
unfolding decrypt_field
note_back fernet none h = refl
note_back fernet (some s) h = ap some (decrypt_text-encrypt_text fernet s h)

show-seal :
    (fernet : Option Cipher) (rows : List AuditEntry)
    → IsCipher fernet
    → map (show_entry fernet) (map (seal fernet) rows) ≡ rows
show-seal fernet [] h = refl
show-seal fernet (e ∷ rows) h = rw (note_back fernet e.note h, show-seal fernet rows h) refl

filter-seal :
    (fernet : Option Cipher) (key : ℕ) (rows : List AuditEntry)
    → filter (of_alert key) (map (seal fernet) rows)
      ≡ map (seal fernet) (filter (of_alert key) rows)
filter-seal fernet key [] = refl
filter-seal fernet key (e ∷ rows) = elim (Bool-cases (e.alert_id == key)) [
  | inl h ↦ rw h (ap (λ l. seal fernet e ∷ l) (filter-seal fernet key rows))
  | inr h ↦ rw h (filter-seal fernet key rows)
]

history_read :
    (order : LogOrder) (key : ℕ) (w : World)
    → w.session.faults ≡ []
    → (in_db (execute (select_history order key)) w).0
      ≡ ok (order.oldest_first (filter (of_alert key) w.session.db.tables.audit_log))
unfolding in_db select_history
history_read order key w calm =
    let rows = order.oldest_first (filter (of_alert key) w.session.db.tables.audit_log) in
    let settles =
      Settles-with_conn (execute (select_history order key)) w.session (λ l d. l ≡ rows)
        (Settles-execute (select_history order key) (spend w.session) _ rows w.session.db refl
          refl) in
    elim settles.at [
      | inl (l, s', e, kept, found) ↦ ap (λ r. r.0) e ∙ ap ok found
      | inr (x, s', e, faulty) ↦ absurd (faulty calm)
    ]

-- Where the cipher decrypts what it encrypted, the sort by time does not look at the notes, and no
-- call fails: over a log whose notes are stored encrypted, the history of an alert is answered 200
-- with the entries of that alert in plaintext, in the order that the plaintext log gives.
pub api_alert_audit_lem :
    (env : Env) (order : LogOrder) (alert_id : ℕ) (entries : List AuditEntry) (w : World)
    → IsCipher env.fernet
    → ((rows : List AuditEntry)
        → order.oldest_first (map (seal env.fernet) rows)
          ≡ map (seal env.fernet) (order.oldest_first rows))
    → w.session.db.tables.audit_log ≡ map (seal env.fernet) entries
    → w.session.faults ≡ []
    → (respond (api_alert_audit env order alert_id) w).0
      ≡ success 200 (order.oldest_first (filter (of_alert alert_id) entries))
unfolding api_alert_audit to_response
api_alert_audit_lem env order alert_id entries w cipher blind stored calm =
    let plain = order.oldest_first (filter (of_alert alert_id) entries) in
    let sealed : order.oldest_first (filter (of_alert alert_id) w.session.db.tables.audit_log)
        ≡ map (seal env.fernet) plain =
      ap (λ l. order.oldest_first (filter (of_alert alert_id) l)) stored
      ∙ ap order.oldest_first (filter-seal env.fernet alert_id entries)
      ∙ blind (filter (of_alert alert_id) entries) in
    let tail : List AuditEntry → App (Response (List AuditEntry)) =
      λ rows. pure (success 200 (map (show_entry env.fernet) rows)) in
    ap (λ r. to_response r.0)
      (bind-ok (in_db (execute (select_history order alert_id))) tail w
        (map (seal env.fernet) plain) (history_read order alert_id w calm ∙ ap ok sealed))
    ∙ ap (success 200) (show-seal env.fernet plain cipher)
