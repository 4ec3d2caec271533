-- ===== src/System.antt =====
-- The dashboard as a whole: the calls that reach its state, in any order, and what the outside may
-- do between them.
pub mod Sound
pub mod Statements
pub mod Writes
pub mod Growth
pub mod Handlers
pub mod Runs
pub mod History
pub mod Records
pub mod Accord
use soc_dashboard.Common.{ℕ, ◌≤◌, String, Bool, Option, List, ℤ, Dict}
use soc_dashboard.Values.{Result, Json}
use soc_dashboard.Sse.{subscribe, unsubscribe, receive}
use soc_dashboard.World.{World, Env, respond}
use soc_dashboard.Access.{User}
use soc_dashboard.Ingest.{api_ingest_alert}
use soc_dashboard.Triage.{api_classify, api_add_note}
use soc_dashboard.Listing.{api_open_alerts, api_all_alerts}
use soc_dashboard.Consumer.{Message, handle}
use soc_dashboard.Manage.{Docker, create_user}
use soc_dashboard.Retention.{purge_old_alerts}

-- One call, with whatever arguments, run to its end; or time passes, and other calls are to fail.
pub data Step (env : Env) (w : World) : World → Type 0 where
  ingest :
      (provided : String) (json : Option Json)
      → Step env w (respond (api_ingest_alert env provided json) w).1
  consume : (message : Message) → Step env w (handle env message w).1
  classify :
      (who : Option User) (alert_id : ℕ) (json : Option Json)
      → Step env w (respond (api_classify env who alert_id json) w).1
  add_note :
      (who : Option User) (alert_id : ℕ) (json : Option Json)
      → Step env w (respond (api_add_note env who alert_id json) w).1
  open_alerts : (args : Dict String) → Step env w (respond (api_open_alerts env args) w).1
  all_alerts : (args : Dict String) → Step env w (respond (api_all_alerts env args) w).1
  create_account :
      (hashpw : String → Result String) (docker : Docker) (username password role : String)
      → Step env w
          (record w { session = (create_user hashpw docker username password role w.session).1 })
  purge : (days : ℤ) → Step env w (record w { session = (purge_old_alerts days w.session).1 })
  connect : Step env w (record w { sse = (subscribe w.sse).1 })
  disconnect : (q : ℕ) → Step env w (record w { sse = unsubscribe q w.sse })
  send : (q : ℕ) → Step env w (record w { sse = (receive q w.sse).1 })
  elapse :
      (faults : List Bool) (now : ℕ)
      → w.session.now ≤ now
      → Step env w (record w { session = record w.session { faults = faults; now = now } })

-- Any number of steps.
pub data Reach (env : Env) (start : World) : World → Type 0 where
  here : Reach env start start
  next : {v w : World} → Reach env start v → Step env v w → Reach env start w
