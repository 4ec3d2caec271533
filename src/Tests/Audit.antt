-- ===== src/Tests/Audit.antt =====
-- Witnesses for the audit pages: a cipher that puts a character in front, a log of one note.
use soc_dashboard.Common.{String, Option, none, some, true, [], ◌∷◌, ◌≡◌, ◌⊎◌, refl, filter}
use soc_dashboard.Db.{AuditEntry}
use soc_dashboard.World.{Env, World, respond, success}
use soc_dashboard.World.Failure.{IsFailure}
use soc_dashboard.Access.{User}
use soc_dashboard.Audit.{LogOrder, LogPage, of_alert, api_alert_audit, audit_log_page}
use soc_dashboard.Audit.History.{seal, api_alert_audit_lem}
use soc_dashboard.Audit.Pages.{IsPage, audit_log_page_lem}
use soc_dashboard.Tests.Fixtures.{env, world, analyst, db}

abbrev strip_mark : String → Option String
strip_mark String.[] = none
strip_mark (String.◌∷◌ c s) = some s

abbrev sealing_env : Env
sealing_env = record env {
  fernet = some (record { encrypt = λ s. String.◌∷◌ "#" s; decrypt = strip_mark });
}

abbrev order : LogOrder
order = record { oldest_first = λ l. l; newest_first = λ l. l; has_match = λ s e. true }

abbrev entry : AuditEntry
entry = record {
  id = 1;
  alert_id = 1;
  user_id = 7;
  username = "ana";
  action = "note_added";
  from_status = "open";
  to_status = "open";
  note = some "seen before";
  created_at = 30;
}

abbrev logged : World
logged = record world {
  session = record world.session {
    db = record db { tables = record db.tables { audit_log = seal sealing_env.fernet entry ∷ [] } };
  };
}

api_alert_audit_lem_example :
    (respond (api_alert_audit sealing_env order 1) logged).0
    ≡ success 200 (filter (of_alert 1) (entry ∷ []))
api_alert_audit_lem_example =
    api_alert_audit_lem sealing_env order 1 (entry ∷ []) logged (λ s. refl) (λ rows. refl) refl refl

abbrev admin : User
admin = record analyst { role = "admin" }

audit_log_page_lem_example :
    IsFailure (respond (audit_log_page env order (some admin) []) logged).0
    ⊎ ((user : User) × (some admin ≡ some user)
        × (user.role ≡ "admin")
        × ((p : LogPage) × ((respond (audit_log_page env order (some admin) []) logged).0
              ≡ success 200 p)
            × IsPage p))
audit_log_page_lem_example = audit_log_page_lem env order (some admin) [] logged
