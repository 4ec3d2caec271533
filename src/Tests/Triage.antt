-- ===== src/Tests/Triage.antt =====
-- Witnesses for the triage endpoints.
use soc_dashboard.Common.{arith, Option, [], ◌∷◌, ◌≡◌, ◌⊎◌, refl, some, none}
use soc_dashboard.Db.{Alert}
use soc_dashboard.World.{World, success, respond}
use soc_dashboard.World.Failure.{IsFailure}
use soc_dashboard.Crypto.{decrypt_alert}
use soc_dashboard.Db.Statements.{close_row}
use soc_dashboard.Common.{lookup, strip}
use soc_dashboard.Values.{Json, object, str, as_body, strip_value, get}
use soc_dashboard.Crypto.{encrypt_text}
use soc_dashboard.Db.Session
use soc_dashboard.Db.Session.{with_conn, leave, execute}
use soc_dashboard.Db.Statements.{
  select_alert, find_alert, update_alert, update_rows, insert_action, has_alert, response_seconds,
  insert_audit, has_user,
}
use soc_dashboard.Sse.{publish, put_all, put_nowait, remove_all}
use soc_dashboard.World.{in_db, bind_text, sse_publish, to_response}
use soc_dashboard.Access.{require_role}
use soc_dashboard.Requests.{read_analyst, verdict}
use soc_dashboard.Changes.{look_tx, close_tx, classify_tx}
use soc_dashboard.Changes.Race.{Call, Race, race, begun, Turns}
use soc_dashboard.Changes.Closing.{IsReady}
use soc_dashboard.Changes.Overlap.{BothClosed, overlap_lem}
use soc_dashboard.System.History.{actions_of}
use soc_dashboard.Triage.{api_classify, classify_view, api_add_note}
use soc_dashboard.Triage.Notes.{Annotated, api_add_note-effect}
use soc_dashboard.Triage.Effect.{Classified, api_classify-effect}
use soc_dashboard.Triage.Once.{api_classify_once}
use soc_dashboard.Tests.Fixtures.{env, analyst, classify_json, world, alert_one}

abbrev after : World
after = (respond (api_classify env (some analyst) 1 classify_json) world).1

api_classify-effect_example :
    ((after.session.db.tables ≡ world.session.db.tables)
      × IsFailure (respond (api_classify env (some analyst) 1 classify_json) world).0)
    ⊎ ((c : Classified env analyst 1 classify_json world after) × (((respond
              (api_classify env (some analyst) 1 classify_json)
              world).0
            ≡ success 200 (decrypt_alert none (close_row c.verdict_of.status c.analyst c.alert)))
          ⊎ IsFailure (respond (api_classify env (some analyst) 1 classify_json) world).0))
api_classify-effect_example = api_classify-effect env analyst 1 classify_json world

abbrev closed_one : Alert
closed_one = close_row "true_positive" "ana" alert_one

api_classify_once_example :
    ((respond (api_classify env (some analyst) 1 classify_json) after).1.session.db.tables
      ≡ after.session.db.tables)
    × IsFailure (respond (api_classify env (some analyst) 1 classify_json) after).0
unfolding api_classify require_role classify_view as_body read_analyst verdict strip_value strip get
    lookup in_db with_conn leave execute classify_tx look_tx close_tx Session.◌>>=◌ select_alert
    find_alert update_alert update_rows insert_action has_alert response_seconds insert_audit
    has_user bind_text sse_publish publish put_all put_nowait remove_all decrypt_alert to_response
    encrypt_text
api_classify_once_example =
    api_classify_once env env analyst analyst 1 classify_json classify_json closed_one world refl

abbrev note_json : Option Json
note_json = some (object (("note", str " seen before ") ∷ []))

abbrev noted : World
noted = (respond (api_add_note env (some analyst) 1 note_json) world).1

api_add_note-effect_example :
    ((noted.session.db.tables ≡ world.session.db.tables)
      × IsFailure (respond (api_add_note env (some analyst) 1 note_json) world).0)
    ⊎ ((a : Annotated env analyst 1 note_json world noted) × ((respond
            (api_add_note env (some analyst) 1 note_json)
            world).0
          ≡ success 201 (a.entry.id, a.entry.created_at)))
api_add_note-effect_example = api_add_note-effect env analyst 1 note_json world

-- Two analysts open the same alert: one calls it a true positive, the other escalates it.
abbrev confirming : Call
confirming = record {
  user = analyst;
  analyst = "ana";
  verdict = record { action = "classify_tp"; status = "true_positive" };
}

abbrev escalating : Call
escalating = record {
  user = analyst;
  analyst = "bob";
  verdict = record { action = "escalate"; status = "escalated" };
}

confirming-IsReady :
    IsReady env 1 confirming alert_one.created_at 5_000_000 alert_one world.session.db
unfolding find_alert has_user response_seconds
confirming-IsReady = record {
  found = refl;
  sendable = refl;
  status_in = refl;
  in_range = omega arith;
  known = refl;
}

escalating-IsReady :
    IsReady env 1 escalating alert_one.created_at 5_000_000 alert_one world.session.db
unfolding find_alert has_user response_seconds
escalating-IsReady = record {
  found = refl;
  sendable = refl;
  status_in = refl;
  in_range = omega arith;
  known = refl;
}

overlap_lem_example :
    (end : Race) × Turns env 1 confirming escalating (race world.session begun begun) end
    × BothClosed 1 confirming escalating end
unfolding actions_of
overlap_lem_example =
    overlap_lem env 1 confirming escalating alert_one world.session confirming-IsReady
      escalating-IsReady refl refl refl
