-- ===== src/Audit.antt =====
-- `api_alert_audit` and `audit_log_page` of app.py. The orders by time are arguments, and so is the
-- match of a search; `login_required` stands around both.
pub mod History
pub mod Pages
use soc_dashboard.Common.{
  ℕ, ◌-◌, ◌*◌, ◌^◌, ℤ, pos, negsuc, String, Bool, Option, none, some, List, [], ◌∷◌, length, take,
  drop, filter, map, ◌==◌, nat_eq, text_eq, ltb, strip, int_of, lookup, Dict, max, if◌then◌else◌,
}
use soc_dashboard.Values.{Result, ok, err, value_error, database_error}
use soc_dashboard.Crypto.{Cipher, decrypt_field}
use soc_dashboard.Db.{AuditEntry, Db}
use soc_dashboard.Db.Session
use soc_dashboard.Db.Session.{Tx, execute}
use soc_dashboard.World.{Env, App, pure, lift, ◌>>=◌, in_db, Response, success}
use soc_dashboard.Access.{User, require_role}

-- What PostgreSQL leaves open, or does by its own collation.
pub record LogOrder : Type 0 where
  -- ORDER BY created_at ASC
  pub oldest_first : List AuditEntry → List AuditEntry
  -- ORDER BY created_at DESC
  pub newest_first : List AuditEntry → List AuditEntry
  -- username ILIKE '%…%' OR action ILIKE '%…%'
  pub has_match : String → AuditEntry → Bool

abbrev pub of_alert : ℕ → AuditEntry → Bool
of_alert alert_id e = e.alert_id == alert_id

-- SELECT … FROM audit_log WHERE alert_id = … ORDER BY created_at ASC
unfoldable pub select_history : LogOrder → ℕ → ℕ → Db → Result (List AuditEntry) × Db
select_history order alert_id now d =
    (ok (order.oldest_first (filter (of_alert alert_id) d.tables.audit_log)), d)

-- The rows with their notes decrypted.
abbrev pub show_entry : Option Cipher → AuditEntry → AuditEntry
show_entry fernet e = record e { note = decrypt_field fernet e.note }

-- `api_alert_audit`
unfoldable pub api_alert_audit : Env → LogOrder → ℕ → App (Response (List AuditEntry))
api_alert_audit env order alert_id = do
  rows ← in_db (execute (select_history order alert_id))
  pure (success 200 (map (show_entry env.fernet) rows))

-- `int(…)` of the argument, which raises, and `max(1, …)`
abbrev pub at_least_one : Option ℤ → Result ℕ
at_least_one none = err value_error
at_least_one (some (pos n)) = ok (max 1 n)
at_least_one (some (negsuc n)) = ok 1

unfoldable pub page_arg : Env → Dict String → Result ℕ
page_arg env args = elim (lookup "page" args) [
  | none ↦ ok 1
  | some s ↦ at_least_one (int_of env.decimal_of s)
]

abbrev pub search_text : Option String → String
search_text none = ""
search_text (some s) = strip s

abbrev pub searched : LogOrder → String → List AuditEntry → List AuditEntry
searched order search rows = if search == "" then rows else filter (order.has_match search) rows

-- SELECT … ORDER BY created_at DESC LIMIT … OFFSET …; an offset is a bigint.
unfoldable pub select_log : LogOrder → String → ℕ → ℕ → ℕ → Db → Result (List AuditEntry) × Db
select_log order search per_page offset now d =
    if ltb offset (2 ^ 63)
    then (
      ok (
          take per_page
            (drop offset (order.newest_first (searched order search d.tables.audit_log)))),
      d,
    )
    else (err database_error, d)

-- SELECT count(*) FROM audit_log
unfoldable pub count_log : ℕ → Db → Result ℕ × Db
count_log now d = (ok (length d.tables.audit_log), d)

pub record LogPage : Type 0 where
  pub entries : List AuditEntry
  pub page : ℕ
  pub per_page : ℕ
  pub total : ℕ
  pub search : String

unfoldable pub log_tx : LogOrder → String → ℕ → Tx (List AuditEntry × ℕ)
log_tx order search page =
    Session.◌>>=◌ (execute (select_log order search 50 ((page - 1) * 50)))
      λ rows. Session.◌>>=◌ (execute count_log) λ total. Session.pure (rows, total)

unfoldable pub log_view : Env → LogOrder → Dict String → User → App (Response LogPage)
log_view env order args user = do
  page ← lift (page_arg env args)
  found ← in_db (log_tx order (search_text (lookup "q" args)) page)
  pure (
      success 200 (record {
        entries = map (show_entry env.fernet) found.0;
        page = page;
        per_page = 50;
        total = found.1;
        search = search_text (lookup "q" args);
      }))

-- `audit_log_page` under `require_role`
unfoldable pub audit_log_page : Env → LogOrder → Option User → Dict String → App (Response LogPage)
audit_log_page env order who args = require_role env ("admin" ∷ []) who (log_view env order args)
