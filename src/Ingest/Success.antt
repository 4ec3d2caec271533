-- ===== src/Ingest/Success.antt =====
-- The ingest endpoint when every outside call succeeds, and the body that it answers with 500
-- although its row is stored.
use soc_dashboard.Common.{
  ℕ, String, ◌+◌, ◌≡◌, ◌≢◌, refl, Option, none, some, arith, [], ◌∷◌, ◌++◌, Dict, true, eq_iff,
  Bool, List, contains, text_eq, join, is_ascii, ap, ◌∙◌,
}
use soc_dashboard.Values.{ok, Value, Kind, str, other, Json, as_body, get}
use soc_dashboard.Crypto.{decrypt_alert}
use soc_dashboard.Db.{Alert}
use soc_dashboard.Db.Session
use soc_dashboard.Db.Session.{Session, execute, with_conn, leave}
use soc_dashboard.Db.Statements.{
  NewAlert, new_row, insert_row, check_alert, severities, upsert_embedding,
}
use soc_dashboard.World.Publishing.{Published, Published-after, sse_publish-ok}
use soc_dashboard.World.Frame.{bind-ok, bind-cong}
use soc_dashboard.World.{
  Env, World, lift, pure, ◌>>=◌, in_db, success, failure, respond, to_response, bind_text,
  sse_publish, attempt,
}
use soc_dashboard.Embedding.{embed_text, truthy_texts, get_embedding_model}
use soc_dashboard.Validation.{
  Payload, valid_api_key, compare_digest, parse_ingest_payload, ingest_values,
}
use soc_dashboard.Validation.Accepted.{parse_ingest_payload_iff}
use soc_dashboard.Ingest.{
  insert_tx, insert_alert, announce, ingest_request, api_ingest_alert, new_alert, store_embedding,
}
use soc_dashboard.Ingest.Announced.{announce-CoreKept}
use soc_dashboard.Ingest.Stored.{created_row}

severity-ingest_values :
    (env : Env) (body : Dict Value) (p : Payload) (n : NewAlert)
    → ingest_values env body p ≡ ok n
    → n.severity ≡ p.severity
unfolding ingest_values bind_text
severity-ingest_values env body p n h = ground arith

check_alert-new_row :
    (n : NewAlert) (key now : ℕ)
    → contains severities n.severity ≡ true
    → check_alert (new_row n key now) ≡ true
unfolding check_alert
check_alert-new_row n key now h = rw h

-- The state after the first block, if nothing failed.
abbrev stored_world : Alert → World → World
stored_world row w = record w {
  session = record w.session {
    db = record {
      tables = record w.session.db.tables { alerts = w.session.db.tables.alerts ++ row ∷ [] };
      sequences = record w.session.db.sequences {
        alerts_id = w.session.db.sequences.alerts_id + 1;
      };
    };
  };
}

in_db-insert_tx :
    (env : Env) (body : Dict Value) (p : Payload) (n : NewAlert) (w : World)
    → w.session.faults ≡ []
    → ingest_values env body p ≡ ok n
    → contains severities n.severity ≡ true
    → in_db (insert_tx env body p) w
      ≡ (ok (created_row n w.session), stored_world (created_row n w.session) w)
unfolding in_db insert_tx with_conn leave execute insert_row Session.◌>>=◌
in_db-insert_tx env body p n w calm built allowed =
    ground (arith, check_alert-new_row n w.session.db.sequences.alerts_id w.session.now)

-- Nothing is published, and what could not fail still cannot.
record Quiet (w w' : World) : Type 0 where
  calm : w.session.faults ≡ [] → w'.session.faults ≡ []
  sse : w'.sse ≡ w.sse
  channel : w'.channel ≡ w.channel

execute-upsert-faults :
    (is_vector : String → Bool) (key : ℕ) (vec : String) (s : Session)
    → s.faults ≡ []
    → (with_conn (execute (upsert_embedding is_vector key vec)) s).1.faults ≡ []
unfolding with_conn leave execute upsert_embedding
execute-upsert-faults is_vector key vec s calm = ground arith

store_embedding-Quiet :
    (env : Env) (created : Alert) (vec : Option String) (w : World)
    → Quiet w (store_embedding env created vec w).1
unfolding store_embedding attempt in_db
store_embedding-Quiet env created none w = record { calm = λ h. h; sse = refl; channel = refl }
store_embedding-Quiet env created (some vec) w = record {
  calm = λ h. execute-upsert-faults env.is_vector created.id vec w.session h;
  sse = refl;
  channel = refl;
}

store_embedding-ok :
    (env : Env) (created : Alert) (vec : Option String) (w : World)
    → (store_embedding env created vec w).0 ≡ ok tt
unfolding store_embedding attempt
store_embedding-ok env created none w = refl
store_embedding-ok env created (some vec) w = refl

embed_text-Quiet : (env : Env) (text : String) (w : World) → Quiet w (embed_text env text w).1
unfolding embed_text get_embedding_model
embed_text-Quiet env text w = record { calm = λ h. h; sse = refl; channel = refl }

announce_ok :
    (env : Env) (body : Dict Value) (p : Payload) (created : Alert) (texts : List String)
    (vec : Option String) (w : World)
    → w.session.faults ≡ []
    → truthy_texts (str p.title ∷ get "description" body ∷ str p.category ∷ []) ≡ ok texts
    → (embed_text env (join " " texts) w).0 ≡ ok vec
    → ((announce env body p created w).0 ≡ ok (decrypt_alert env.fernet created))
      × Published env.has_redis
          (new_alert (decrypt_alert env.fernet created))
          w
          (announce env body p created w).1
unfolding announce
announce_ok env body p created texts vec w calm described embedded =
    let event = new_alert (decrypt_alert env.fernet created) in
    let w1 = (embed_text env (join " " texts) w).1 in
    let w2 = (store_embedding env created vec w1).1 in
    let q1 = embed_text-Quiet env (join " " texts) w in
    let q2 = store_embedding-Quiet env created vec w1 in
    let (sent, published) = sse_publish-ok env event w2 (q2.calm (q1.calm calm)) in
    rw (bind-ok (lift _) _ w texts described) (
      rw (bind-ok (embed_text env _) _ w vec embedded) (
        rw
          (bind-ok (store_embedding env created vec) _ w1 tt
            (store_embedding-ok env created vec w1))
          (rw (bind-ok (sse_publish env event) _ w2 tt sent) (
            refl,
            Published-after env.has_redis event w w2 _ (q2.sse ∙ q1.sse) (q2.channel ∙ q1.channel)
                published,
          ))))

valid_api_key_of_eq :
    (env : Env) (provided : String)
    → env.api_key ≡ some provided
    → provided ≢ ""
    → is_ascii provided ≡ true
    → valid_api_key env provided ≡ ok true
unfolding valid_api_key compare_digest
valid_api_key_of_eq env provided k s a =
    rw k (ground (arith, eq_iff provided "", eq_iff provided provided))

-- The endpoint, up to the commit of the row.
api_ingest_alert-stored :
    (env : Env) (provided : String) (json : Option Json) (body : Dict Value) (p : Payload)
    (n : NewAlert) (w : World)
    → env.api_key ≡ some provided
    → provided ≢ ""
    → is_ascii provided ≡ true
    → as_body json ≡ ok body
    → parse_ingest_payload env body ≡ ok p
    → ingest_values env body p ≡ ok n
    → w.session.faults ≡ []
    → api_ingest_alert env provided json w
      ≡ (announce env body p (created_row n w.session) >>= λ row. pure (success 201 row))
          (stored_world (created_row n w.session) w)
unfolding api_ingest_alert ingest_request insert_alert
api_ingest_alert-stored env provided json body p n w k s a b c v calm =
    let row = created_row n w.session in
    let allowed = ((parse_ingest_payload_iff env body p).0 c).1.2 in
    let first =
      in_db-insert_tx env body p n w calm v (rw (severity-ingest_values env body p n v) allowed) in
    rw (bind-ok (lift _) _ w true (valid_api_key_of_eq env provided k s a)) (
      rw (bind-ok (lift _) _ w body b) (
        rw (bind-ok (lift _) _ w p c) (
          bind-cong (insert_alert env body p) (announce env body p row)
            (λ a'. pure (success 201 a')) w _
            (bind-ok (in_db (insert_tx env body p)) (announce env body p) w row
                (ap (λ o. o.0) first)
              ∙ ap (λ o. announce env body p row o.1) first))))

-- When no outside call fails and the embedding model does not raise, a request with the configured
-- key (not empty, in ASCII) whose body is complete, whose values the driver can send and whose
-- description is None or a text is answered 201 with the row that it stored, and one
-- `new_alert` event is published for it.
pub api_ingest_alert_succeeds :
    (env : Env) (provided : String) (json : Option Json) (body : Dict Value) (p : Payload)
    (n : NewAlert) (texts : List String) (vec : Option String) (w : World)
    → env.api_key ≡ some provided
    → provided ≢ ""
    → is_ascii provided ≡ true
    → as_body json ≡ ok body
    → parse_ingest_payload env body ≡ ok p
    → ingest_values env body p ≡ ok n
    → truthy_texts (str p.title ∷ get "description" body ∷ str p.category ∷ []) ≡ ok texts
    → (embed_text env (join " " texts) w).0 ≡ ok vec
    → w.session.faults ≡ []
    → let row = created_row n w.session in
      let shown = decrypt_alert env.fernet row in
      let (reply, w') = respond (api_ingest_alert env provided json) w in
      (reply ≡ success 201 shown)
      × (w'.session.db.tables.alerts ≡ w.session.db.tables.alerts ++ row ∷ [])
      × Published env.has_redis (new_alert shown) w w'
unfolding to_response embed_text get_embedding_model
api_ingest_alert_succeeds env provided json body p n texts vec w k s a b c v d e calm =
    let row = created_row n w.session in
    let w1 = stored_world row w in
    let (done, published) = announce_ok env body p row texts vec w1 calm d e in
    rw (api_ingest_alert-stored env provided json body p n w k s a b c v calm) (
      rw (bind-ok (announce env body p row) _ w1 _ done) (
        refl,
        ((announce-CoreKept env body p row).at w1).alerts,
        Published-after env.has_redis _ w w1 _ refl refl published,
      ))

-- A body whose description is truthy and no text (a number, say, or a list) is complete, and is
-- stored if the driver can send it; yet the answer is 500, and no event tells the dashboards.
pub api_ingest_alert_lost_answer :
    (env : Env) (provided : String) (json : Option Json) (body : Dict Value) (p : Payload)
    (n : NewAlert) (kind : Kind) (text : String) (w : World)
    → env.api_key ≡ some provided
    → provided ≢ ""
    → is_ascii provided ≡ true
    → as_body json ≡ ok body
    → parse_ingest_payload env body ≡ ok p
    → ingest_values env body p ≡ ok n
    → get "description" body ≡ other kind true text
    → w.session.faults ≡ []
    → let (reply, w') = respond (api_ingest_alert env provided json) w in
      (reply ≡ failure 500 "internal server error")
      × (w'.session.db.tables.alerts ≡ w.session.db.tables.alerts ++ created_row n w.session ∷ [])
      × (w'.sse ≡ w.sse)
      × (w'.channel ≡ w.channel)
unfolding to_response announce truthy_texts
api_ingest_alert_lost_answer env provided json body p n kind text w k s a b c v d calm =
    let w1 = stored_world (created_row n w.session) w in
    rw (api_ingest_alert-stored env provided json body p n w k s a b c v calm)
      (rw d (refl, refl, refl, refl))
