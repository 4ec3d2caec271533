-- ===== src/Approval.antt =====
-- `api_approve_workflow` of app.py. The Conductor SDK and the environment variable are an argument;
-- `login_required` stands around the view, which looks at no role.
pub mod Released
use Prim.Native.String.{◌++◌ as concat}
use soc_dashboard.Common.{
  String, Bool, Option, none, some, not, ◌||◌, ◌==◌, text_eq, Dict, if◌then◌else◌,
}
use soc_dashboard.Values.{Result, ok, ◌>>=◌, Json, Value, get, as_body, strip_value}
use soc_dashboard.World.{Response, success, failure}
use soc_dashboard.Access.{User}

pub record Conductor : Type 0 where
  -- the two imports succeed
  pub installed : Bool
  -- CONDUCTOR_SERVER_URL, empty where it is not set
  pub server_url : String
  -- `update_task_sync` for a run, an approving name and a note: the name of the exception it raises
  pub update_task : String → String → String → Option String

pub record Approved : Type 0 where
  pub workflow_run_id : String
  pub approved_by : String

-- The try block around the call.
abbrev pub release : Conductor → User → String → String → Response Approved
release c user workflow_run_id note = elim (c.update_task workflow_run_id user.username note) [
  | none ↦ success 200 (record { workflow_run_id = workflow_run_id; approved_by = user.username })
  | some name ↦ failure 502 (concat "conductor error: " name)
]

-- `(body.get("note") or "").strip()`
unfoldable pub approval_note : Option Json → Result String
approval_note json = as_body json >>= λ body. strip_value (get "note" body)

-- `api_approve_workflow`
unfoldable pub api_approve_workflow :
    Conductor → User → String → Option Json → Result (Response Approved)
api_approve_workflow c user workflow_run_id json =
    if not c.installed
    then ok (failure 503 "conductor SDK not installed")
    else if c.server_url == ""
    then ok (failure 503 "CONDUCTOR_SERVER_URL not configured")
    else approval_note json >>= λ note. ok (release c user workflow_run_id note)
