-- ===== src/Tests/Approval.antt =====
-- A witness for the approval of a workflow run, by a viewer.
use soc_dashboard.Common.{Option, none, some, true, false, [], ◌∷◌, ◌≡◌, ◌↔◌, ◌==◌, text_eq}
use soc_dashboard.Values.{ok, Json, object, str}
use soc_dashboard.World.{success}
use soc_dashboard.Access.{User}
use soc_dashboard.Approval.{Conductor, api_approve_workflow}
use soc_dashboard.Approval.Released.{CanRelease, api_approve_workflow_iff}

abbrev viewer : User
viewer = record { id = 9; username = "vic"; role = "viewer" }

-- A server that knows one run.
abbrev conductor : Conductor
conductor = record {
  installed = true;
  server_url = "http://conductor";
  update_task = λ run who text. elim (run == "run-1") [ true ↦ none | false ↦ some "NotFound" ];
}

abbrev approval_json : Option Json
approval_json = some (object (("note", str "checked") ∷ []))

api_approve_workflow_iff_example :
    (api_approve_workflow conductor viewer "run-1" approval_json
      ≡ ok (success 200 (record { workflow_run_id = "run-1"; approved_by = "vic" })))
    ↔ CanRelease conductor viewer "run-1" approval_json
api_approve_workflow_iff_example = api_approve_workflow_iff conductor viewer "run-1" approval_json
