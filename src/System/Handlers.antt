-- ===== src/System/Handlers.antt =====
-- Every call keeps the stored rows sound, by the rules for blocks and for handlers.
use soc_dashboard.Common.{ℕ, String, Option, none, some, List, Dict, text_eq, nat_eq}
use soc_dashboard.Values.{Json, scalar, object, Value}
use soc_dashboard.Db.{Alert}
use soc_dashboard.Sse.{Event}
use soc_dashboard.World.{Env, App, attempt, sse_publish}
use soc_dashboard.World.Frame.{Keeps, keeps_rules, Keeps-raise, Keeps-pure}
use soc_dashboard.World.Publishing.{db-sse_publish}
use soc_dashboard.Access.{User, require_role}
use soc_dashboard.Requests.{Verdict}
use soc_dashboard.Changes.{look_tx, close_tx, classify_tx, note_tx}
use soc_dashboard.Triage.{classify_view, api_classify, note_view, api_add_note, triage_roles}
use soc_dashboard.Embedding.{embed_text, get_embedding_model}
use soc_dashboard.Validation.{Payload}
use soc_dashboard.Ingest.{
  insert_tx, store_embedding, announce, insert_alert, kafka_ingest, ingest_request,
  api_ingest_alert,
}
use soc_dashboard.Consumer.{Message, tombstone, malformed, oversized, too_deep, decoded, handle}
use soc_dashboard.System.Statements.{
  Grows-refl, insert_row-Grows, select_alert-Grows, update_alert-Grows,
}
use soc_dashboard.System.Writes.{insert_action-Grows, insert_audit-Grows, upsert_embedding-Grows}
use soc_dashboard.System.Growth.{TxGrows, tx_rules, DbGrows, DbGrows-frame, Keeps-in_db}

insert_tx-TxGrows : (env : Env) (body : Dict Value) (p : Payload) → TxGrows (insert_tx env body p)
unfolding insert_tx
insert_tx-TxGrows env body p = search (tx_rules, insert_row-Grows) depth 8

classify_tx-TxGrows :
    (env : Env) (user : User) (alert_id : ℕ) (analyst : String) (v : Verdict)
    → TxGrows (classify_tx env user alert_id analyst v)
unfolding classify_tx look_tx close_tx
classify_tx-TxGrows env user alert_id analyst v =
    search
      (tx_rules, select_alert-Grows, update_alert-Grows, insert_action-Grows, insert_audit-Grows)
      depth 20

note_tx-TxGrows :
    (env : Env) (user : User) (alert_id : ℕ) (note : String)
    → TxGrows (note_tx env user alert_id note)
unfolding note_tx
note_tx-TxGrows env user alert_id note =
    search (tx_rules, select_alert-Grows, insert_audit-Grows) depth 12

publish-DbGrows : (env : Env) (event : Event) → Keeps DbGrows (sse_publish env event)
publish-DbGrows env event = record {
  at = λ w. rw (db-sse_publish env event w) (Grows-refl w.session.db);
}

embed_text-DbGrows : (env : Env) (text : String) → Keeps DbGrows (embed_text env text)
unfolding embed_text get_embedding_model
embed_text-DbGrows env text = record { at = λ w. Grows-refl w.session.db }

Keeps-attempt : (m : App (Unit {0})) → Keeps DbGrows m → Keeps DbGrows (attempt m)
unfolding attempt
Keeps-attempt m k = record { at = k.at }

store_embedding-DbGrows :
    (env : Env) (created : Alert) (vec : Option String)
    → Keeps DbGrows (store_embedding env created vec)
unfolding store_embedding
store_embedding-DbGrows env created none = Keeps-pure DbGrows-frame tt
store_embedding-DbGrows env created (some vec) =
    search (Keeps-attempt, Keeps-in_db, tx_rules, upsert_embedding-Grows) depth 8

announce-DbGrows :
    (env : Env) (body : Dict Value) (p : Payload) (created : Alert)
    → Keeps DbGrows (announce env body p created)
unfolding announce
announce-DbGrows env body p created =
    search
      (keeps_rules, DbGrows-frame, publish-DbGrows, embed_text-DbGrows, store_embedding-DbGrows)
      depth 10

pub insert_alert-DbGrows :
    (env : Env) (body : Dict Value) (p : Payload) → Keeps DbGrows (insert_alert env body p)
unfolding insert_alert
insert_alert-DbGrows env body p =
    search (keeps_rules, DbGrows-frame, Keeps-in_db, insert_tx-TxGrows, announce-DbGrows) depth 8

pub api_ingest_alert-DbGrows :
    (env : Env) (provided : String) (json : Option Json)
    → Keeps DbGrows (api_ingest_alert env provided json)
unfolding api_ingest_alert ingest_request
api_ingest_alert-DbGrows env provided json =
    search (keeps_rules, DbGrows-frame, insert_alert-DbGrows) depth 12

kafka_ingest-DbGrows : (env : Env) (body : Dict Value) → Keeps DbGrows (kafka_ingest env body)
unfolding kafka_ingest
kafka_ingest-DbGrows env body = search (keeps_rules, DbGrows-frame, insert_alert-DbGrows) depth 8

pub handle-DbGrows : (env : Env) (message : Message) → Keeps DbGrows (handle env message)
unfolding handle
handle-DbGrows env tombstone = Keeps-raise DbGrows-frame _
handle-DbGrows env oversized = Keeps-raise DbGrows-frame _
handle-DbGrows env too_deep = Keeps-raise DbGrows-frame _
handle-DbGrows env malformed = Keeps-pure DbGrows-frame _
handle-DbGrows env (decoded (scalar v)) = Keeps-pure DbGrows-frame _
handle-DbGrows env (decoded (object body)) = Keeps-attempt _ (kafka_ingest-DbGrows env body)

-- A view that only some roles may call.
require_role-DbGrows :
    {A : Type 0} (env : Env) (roles : List String) (who : Option User) (view : User → App A)
    → ((u : User) → Keeps DbGrows (view u))
    → Keeps DbGrows (require_role env roles who view)
unfolding require_role
require_role-DbGrows env roles none view h = Keeps-raise DbGrows-frame _
require_role-DbGrows env roles (some u) view h = search (keeps_rules, DbGrows-frame, h) depth 4

pub api_classify-DbGrows :
    (env : Env) (who : Option User) (alert_id : ℕ) (json : Option Json)
    → Keeps DbGrows (api_classify env who alert_id json)
unfolding api_classify classify_view
api_classify-DbGrows env who alert_id json = require_role-DbGrows env triage_roles who _ (λ u.
    search (keeps_rules, DbGrows-frame, Keeps-in_db, classify_tx-TxGrows, publish-DbGrows) depth 14)

pub api_add_note-DbGrows :
    (env : Env) (who : Option User) (alert_id : ℕ) (json : Option Json)
    → Keeps DbGrows (api_add_note env who alert_id json)
unfolding api_add_note note_view
api_add_note-DbGrows env who alert_id json =
    require_role-DbGrows env triage_roles who _
      (λ u. search (keeps_rules, DbGrows-frame, Keeps-in_db, note_tx-TxGrows) depth 14)
