-- ===== src/Approval/Released.antt =====
-- When an approval is answered 200.
use Prim.Native.String.{◌++◌ as concat}
use soc_dashboard.Common.{
  String, true, false, Option, none, ◌≡◌, ◌↔◌, refl, ◌==◌, text_eq, Bool-cases, Option-cases, inl,
  inr,
}
use soc_dashboard.Values.{ok, Result-cases, ok-injective, err-ok, Json}
use soc_dashboard.World.{success, failure}
use soc_dashboard.Access.{User}
use soc_dashboard.Approval.{Conductor, Approved, release, approval_note, api_approve_workflow}

-- What has to hold for a release.
pub record CanRelease (c : Conductor) (user : User) (run : String) (json : Option Json)
    : Type 0 where
  pub installed : c.installed ≡ true
  pub configured : (c.server_url == "") ≡ false
  pub note : String
  pub given : approval_note json ≡ ok note
  pub accepted : c.update_task run user.username note ≡ none

module _ (c : Conductor) (user : User) (run : String) (json : Option Json) where
  abbrev approved : Approved
  approved = record { workflow_run_id = run; approved_by = user.username }

  released :
      CanRelease c user run json → api_approve_workflow c user run json ≡ ok (success 200 approved)
  unfolding api_approve_workflow
  released h = rw (h.installed, h.configured, h.given, h.accepted) refl

  sent :
      (note : String)
      → release c user run note ≡ success 200 approved
      → c.update_task run user.username note ≡ none
  sent note e = elim (Option-cases (c.update_task run user.username note)) [
    | inl h ↦ h
    | inr (name, h) ↦
        let clash : failure 502 (concat "conductor error: " name) ≡ success 200 approved =
          (rw (release, h) at e) in
        absurd (cc)
  ]

  needed :
      api_approve_workflow c user run json ≡ ok (success 200 approved) → CanRelease c user run json
  unfolding api_approve_workflow
  needed e = elim (Bool-cases c.installed) [
    | inr h ↦
        let clash : failure 503 "conductor SDK not installed" ≡ success 200 approved =
          ok-injective (rw (api_approve_workflow, h) at e) in
        absurd (cc)
    | inl h ↦ elim (Bool-cases (c.server_url == "")) [
      | inl k ↦
          let clash : failure 503 "CONDUCTOR_SERVER_URL not configured" ≡ success 200 approved =
            ok-injective (rw (api_approve_workflow, h, k) at e) in
          absurd (cc)
      | inr k ↦ elim (Result-cases (approval_note json)) [
        | inr (x, f) ↦ absurd (err-ok (rw (api_approve_workflow, h, k, f) at e))
        | inl (note, f) ↦ record {
          installed = h;
          configured = k;
          note = note;
          given = f;
          accepted = sent note (ok-injective (rw (api_approve_workflow, h, k, f) at e));
        }
      ]
    ]
  ]

-- An approval is answered 200 exactly if the SDK is installed, a server is configured, the body's
-- note can be read, and Conductor accepts the update of that run in the user's name.
pub api_approve_workflow_iff :
    (c : Conductor) (user : User) (run : String) (json : Option Json)
    → (api_approve_workflow c user run json
        ≡ ok (success 200 (record { workflow_run_id = run; approved_by = user.username })))
      ↔ CanRelease c user run json
api_approve_workflow_iff c user run json = (needed c user run json, released c user run json)
