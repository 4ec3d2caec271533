-- ===== src/System/Accord.antt =====
-- Over any sequence of steps, the actions accord with the alerts' states.
use soc_dashboard.Common.{
  ℕ, ◌≡◌, refl, String, inl, inr, Option, some, none, ◌==◌, nat_eq, Bool-cases, Dict, ℤ, pos,
  negsuc,
}
use soc_dashboard.Values.{Result, Result-cases, Json, scalar, object, Value}
use soc_dashboard.Db.{Db}
use soc_dashboard.World.{World, Env, attempt, respond}
use soc_dashboard.World.Frame.{IsFrame, Keeps, keeps_rules}
use soc_dashboard.Access.{User, require_role}
use soc_dashboard.Validation.{Payload}
use soc_dashboard.Ingest.{insert_alert, kafka_ingest, api_ingest_alert}
use soc_dashboard.Ingest.Stored.{insert_alert-Inserts, api_ingest_alert-effect}
use soc_dashboard.Triage.{api_classify, api_add_note}
use soc_dashboard.Triage.Effect.{verdict-IsClosing, api_classify-effect}
use soc_dashboard.Triage.Notes.{api_add_note-effect}
use soc_dashboard.Consumer.{Message, tombstone, malformed, oversized, too_deep, decoded, handle}
use soc_dashboard.Listing.{api_open_alerts, api_all_alerts}
use soc_dashboard.Manage.{Docker, Outcome, created, failed, duplicate, create_in_local, create_user}
use soc_dashboard.Manage.Accounts.{Told, Told-create_in_local}
use soc_dashboard.Retention.{purge_old_alerts}
use soc_dashboard.Retention.Integrity.{purge-Purged}
use soc_dashboard.System.{
  Step, ingest, consume, classify, add_note, open_alerts, all_alerts, create_account, purge,
  connect, disconnect, send, elapse, Reach, here, next,
}
use soc_dashboard.System.Sound.{IsSound}
use soc_dashboard.System.Growth.{DbGrows, DbGrows-frame}
use soc_dashboard.System.Handlers.{insert_alert-DbGrows}
use soc_dashboard.System.Runs.{Reach-IsSound}
use soc_dashboard.Listing.Reading.{list_view-SameDb}
use soc_dashboard.System.History.{IsRecorded}
use soc_dashboard.System.Records.{
  same-IsRecorded, Appended-IsRecorded, Triaged-IsRecorded, verdict_status, purged-IsRecorded,
  RecordKept,
}

same_tables : (w w' : World) → w'.session.db.tables ≡ w.session.db.tables → RecordKept w w'
same_tables w w' e s r = rw e r

ingest-RecordKept :
    (env : Env) (provided : String) (json : Option Json) (w : World)
    → RecordKept w (respond (api_ingest_alert env provided json) w).1
ingest-RecordKept env provided json w s r = elim (api_ingest_alert-effect env provided json w) [
  | inl (same, refused) ↦ rw same r
  | inr (i, ends) ↦ Appended-IsRecorded w.session.db _ _ s r refl refl i.stored.appended
]

classify-RecordKept :
    (env : Env) (who : Option User) (alert_id : ℕ) (json : Option Json) (w : World)
    → RecordKept w (respond (api_classify env who alert_id json) w).1
unfolding api_classify require_role
classify-RecordKept env none alert_id json w s r = r
classify-RecordKept env (some user) alert_id json w s r =
    elim (api_classify-effect env user alert_id json w) [
      | inl (same, refused) ↦ rw same r
      | inr (c, ends) ↦
          Triaged-IsRecorded user alert_id w.session.now c.analyst c.verdict_of c.alert w.session.db
            _ s r (verdict-IsClosing _ c.verdict_of c.chosen).0
            (verdict_status _ c.verdict_of c.chosen) c.triaged
    ]

note-RecordKept :
    (env : Env) (who : Option User) (alert_id : ℕ) (json : Option Json) (w : World)
    → RecordKept w (respond (api_add_note env who alert_id json) w).1
unfolding api_add_note require_role
note-RecordKept env none alert_id json w s r = r
note-RecordKept env (some user) alert_id json w s r =
    elim (api_add_note-effect env user alert_id json w) [
      | inl (same, refused) ↦ rw same r
      | inr (a, shown) ↦ rw a.noted.tables (same-IsRecorded w.session.db.tables _ refl refl r)
    ]

-- The insert of one alert, as the Kafka path makes it.
abbrev Safe : World → World → Type 0
Safe w w' = DbGrows w w' × RecordKept w w'

Safe-frame : IsFrame Safe
Safe-frame = record {
  same = λ w. (DbGrows-frame.same w, λ s r. r);
  chain = λ u v w g h. (DbGrows-frame.chain u v w g.0 h.0, λ s r. h.1 (g.0.kept s) (g.1 s r));
}

insert_alert-Safe :
    (env : Env) (body : Dict Value) (p : Payload) → Keeps Safe (insert_alert env body p)
insert_alert-Safe env body p = record {
  at = λ w. (
    (insert_alert-DbGrows env body p).at w,
    λ s r. elim (insert_alert-Inserts env body p w) [
      | inl (raised, same) ↦ rw same r
      | inr (st, ends) ↦ Appended-IsRecorded w.session.db _ _ s r refl refl st.appended
    ],
  );
}

kafka_ingest-Safe : (env : Env) (body : Dict Value) → Keeps Safe (kafka_ingest env body)
unfolding kafka_ingest
kafka_ingest-Safe env body = search (keeps_rules, Safe-frame, insert_alert-Safe) depth 8

consume-RecordKept :
    (env : Env) (message : Message) (w : World) → RecordKept w (handle env message w).1
unfolding handle attempt
consume-RecordKept env tombstone w s r = r
consume-RecordKept env malformed w s r = r
consume-RecordKept env oversized w s r = r
consume-RecordKept env too_deep w s r = r
consume-RecordKept env (decoded (scalar v)) w s r = r
consume-RecordKept env (decoded (object body)) w s r = ((kafka_ingest-Safe env body).at w).1 s r

Told-IsRecorded :
    (username h role : String) (d d' : Db) (o : Outcome)
    → Told username h role d d' o
    → IsRecorded d.tables
    → IsRecorded d'.tables
Told-IsRecorded username h role d d' created t r =
    rw t.tables (same-IsRecorded d.tables _ refl refl r)
Told-IsRecorded username h role d d' failed t r = rw t r
Told-IsRecorded username h role d d' duplicate t r = rw t.1 r

create-RecordKept :
    (hashpw : String → Result String) (docker : Docker) (username password role : String)
    (w : World)
    → IsRecorded w.session.db.tables
    → IsRecorded (create_user hashpw docker username password role w.session).1.db.tables
unfolding create_user
create-RecordKept hashpw docker username password role w r = elim (Result-cases (hashpw password)) [
  | inr (x, e) ↦ rw (create_user, e) r
  | inl (h, e) ↦
      rw (create_user, e)
        (Told-IsRecorded username h role w.session.db
          (create_in_local username h role w.session).1.db
          (create_in_local username h role w.session).0
          (Told-create_in_local username h role w.session) r)
]

purge-RecordKept :
    (days : ℤ) (w : World)
    → IsRecorded w.session.db.tables
    → IsRecorded (purge_old_alerts days w.session).1.db.tables
unfolding purge_old_alerts
purge-RecordKept (negsuc n) w r = r
purge-RecordKept (pos days) w r = elim (Bool-cases (days == 0)) [
  | inl e ↦ rw (purge_old_alerts, e) r
  | inr e ↦ elim (purge-Purged days w.session e) [
    | inl (raised, inl same) ↦ rw same r
    | inl (raised, inr gone) ↦ rw gone (purged-IsRecorded days w.session.now w.session.db.tables r)
    | inr (gone, count) ↦ rw gone (purged-IsRecorded days w.session.now w.session.db.tables r)
  ]
]

Step-RecordKept : {env : Env} {w w' : World} → Step env w w' → RecordKept w w'
unfolding api_open_alerts api_all_alerts
Step-RecordKept {env = env} {w = w} (ingest provided json) s r =
    ingest-RecordKept env provided json w s r
Step-RecordKept {env = env} {w = w} (consume message) s r = consume-RecordKept env message w s r
Step-RecordKept {env = env} {w = w} (classify who alert_id json) s r =
    classify-RecordKept env who alert_id json w s r
Step-RecordKept {env = env} {w = w} (add_note who alert_id json) s r =
    note-RecordKept env who alert_id json w s r
Step-RecordKept {env = env} {w = w} (open_alerts args) s r =
    rw ((list_view-SameDb env _ args).at w) r
Step-RecordKept {env = env} {w = w} (all_alerts args) s r =
    rw ((list_view-SameDb env _ args).at w) r
Step-RecordKept {w = w} (create_account hashpw docker username password role) s r =
    create-RecordKept hashpw docker username password role w r
Step-RecordKept {w = w} (purge days) s r = purge-RecordKept days w r
Step-RecordKept connect s r = r
Step-RecordKept (disconnect q) s r = r
Step-RecordKept (send q) s r = r
Step-RecordKept (elapse faults now le) s r = r

-- From a sound database in which it holds, whatever calls are made one after the other, and
-- whichever outside calls fail on the way: an alert is open and has no analyst's action, or it is
-- closed and has exactly one, whose verdict gives its status and whose analyst it is assigned to.
pub Reach-IsRecorded :
    {env : Env} {start w : World}
    → Reach env start w
    → IsSound start.session.db.tables start.session.db.sequences
    → IsRecorded start.session.db.tables
    → IsRecorded w.session.db.tables
Reach-IsRecorded here s r = r
Reach-IsRecorded (next reach step) s r =
    Step-RecordKept step (Reach-IsSound reach s) (Reach-IsRecorded reach s r)
