-- ===== src/Triage.antt =====
-- `api_classify` and `api_add_note` of app.py.
pub mod Effect
pub mod Once
pub mod Notes
use soc_dashboard.Common.{ℕ, String, Option, none, some, List, [], ◌∷◌}
use soc_dashboard.Values.{Json, as_body, get}
use soc_dashboard.Db.{Alert, AuditEntry}
use soc_dashboard.Sse.{Event}
use soc_dashboard.World.{Env, App, pure, lift, ◌>>=◌, ◌>>◌, in_db, Response, success, sse_publish}
use soc_dashboard.Access.{User, require_role}
use soc_dashboard.Requests.{Verdict, verdict, read_analyst, read_note}
use soc_dashboard.Changes.{classify_tx, note_tx}

abbrev pub status_change : ℕ → Alert → Verdict → Event
status_change alert_id updated v = record {
  kind = "status_change";
  alert_id = alert_id;
  severity = updated.severity;
  status = v.status;
}

-- The body of `api_classify`
unfoldable pub classify_view : Env → ℕ → Option Json → User → App (Response Alert)
classify_view env alert_id json user = do
  body ← lift (as_body json)
  analyst ← lift (read_analyst body)
  v ← lift (verdict (get "action" body))
  updated ← in_db (classify_tx env user alert_id analyst v)
  sse_publish env (status_change alert_id updated v)
  pure (success 200 updated)

abbrev pub triage_roles : List String
triage_roles = "analyst" ∷ "admin" ∷ []

-- `api_classify` under `require_role`
unfoldable pub api_classify : Env → Option User → ℕ → Option Json → App (Response Alert)
api_classify env who alert_id json =
    require_role env triage_roles who (classify_view env alert_id json)

-- The body of `api_add_note`, which answers with the entry's id and time
unfoldable pub note_view : Env → ℕ → Option Json → User → App (Response (ℕ × ℕ))
note_view env alert_id json user = do
  body ← lift (as_body json)
  note ← lift (read_note body)
  entry ← in_db (note_tx env user alert_id note)
  pure (success 201 (entry.id, entry.created_at))

-- `api_add_note` under `require_role`
unfoldable pub api_add_note : Env → Option User → ℕ → Option Json → App (Response (ℕ × ℕ))
api_add_note env who alert_id json = require_role env triage_roles who (note_view env alert_id json)
