-- ===== src/Ingest.antt =====
-- `_insert_alert`, `_kafka_ingest` and `api_ingest_alert` of app.py.
pub mod Built
pub mod ReadBack
pub mod Announced
pub mod Stored
pub mod Success
use soc_dashboard.Common.{String, Option, none, some, [], ◌∷◌, join, Dict, if◌then◌else◌}
use soc_dashboard.Values.{Json, Value, str, get, as_body}
use soc_dashboard.Crypto.{decrypt_alert}
use soc_dashboard.Db.{Alert}
use soc_dashboard.Db.Session
use soc_dashboard.Db.Session.{Tx}
use soc_dashboard.Db.Statements.{insert_row, upsert_embedding}
use soc_dashboard.Sse.{Event}
use soc_dashboard.World.{
  Env, App, pure, lift, ◌>>=◌, ◌>>◌, in_db, attempt, Response, success, failure, sse_publish,
}
use soc_dashboard.Embedding.{truthy_texts, embed_text}
use soc_dashboard.Validation.{
  Payload, valid_api_key, parse_ingest_payload, parse_kafka_payload, ingest_values,
}

-- The first block of `_insert_alert`: the values are built on the open connection.
unfoldable pub insert_tx : Env → Dict Value → Payload → Tx Alert
insert_tx env body p s =
    Session.◌>>=◌ (Session.lift (ingest_values env body p)) (λ n. Session.execute (insert_row n)) s

-- The second block, which only a vector that was made reaches.
unfoldable pub store_embedding : Env → Alert → Option String → App (Unit {0})
store_embedding env created none = pure tt
store_embedding env created (some vec) =
    attempt (in_db (Session.execute (upsert_embedding env.is_vector created.id vec)))

abbrev pub new_alert : Alert → Event
new_alert row = record {
  kind = "new_alert";
  alert_id = row.id;
  severity = row.severity;
  status = row.status;
}

-- What `_insert_alert` does once the row is committed.
unfoldable pub announce : Env → Dict Value → Payload → Alert → App Alert
announce env body p created = do
  texts ← lift (truthy_texts (str p.title ∷ get "description" body ∷ str p.category ∷ []))
  vec ← embed_text env (join " " texts)
  store_embedding env created vec
  let row = decrypt_alert env.fernet created
  sse_publish env (new_alert row)
  pure row

-- `_insert_alert`
unfoldable pub insert_alert : Env → Dict Value → Payload → App Alert
insert_alert env body p = do created ← in_db (insert_tx env body p); announce env body p created

-- `_kafka_ingest`
unfoldable pub kafka_ingest : Env → Dict Value → App (Unit {0})
kafka_ingest env body = do p ← lift (parse_kafka_payload env body); insert_alert env body p; pure tt

-- `api_ingest_alert` once the key is found valid
unfoldable pub ingest_request : Env → Option Json → App (Response Alert)
ingest_request env json = do
  body ← lift (as_body json)
  p ← lift (parse_ingest_payload env body)
  row ← insert_alert env body p
  pure (success 201 row)

-- `api_ingest_alert`, at the request's X-API-Key and its JSON
unfoldable pub api_ingest_alert : Env → String → Option Json → App (Response Alert)
api_ingest_alert env provided json = do
  valid ← lift (valid_api_key env provided)
  if valid then ingest_request env json else pure (failure 401 "missing or invalid X-API-Key")
