-- ===== src/Ingest/Announced.antt =====
-- What `_insert_alert` does after its first commit leaves the alert, the actions, the audit log and
-- the accounts alone.
use soc_dashboard.Common.{ℕ, String, Bool, ◌≡◌, refl, inl, inr, Option, none, some, arith, Dict}
use soc_dashboard.Values.{Value}
use soc_dashboard.Crypto.{decrypt_alert}
use soc_dashboard.Db.{Alert, Db}
use soc_dashboard.Db.Session.{Session, execute}
use soc_dashboard.Db.Statements.{upsert_embedding}
use soc_dashboard.Db.Atomicity.{with_conn-cases}
use soc_dashboard.World.{Env, World, in_db, attempt, sse_publish}
use soc_dashboard.World.Frame.{IsFrame, Keeps, keeps_rules, Yields, yields_rules}
use soc_dashboard.Sse.{Event}
use soc_dashboard.Embedding.{embed_text, get_embedding_model}
use soc_dashboard.Validation.{Payload}
use soc_dashboard.Ingest.{store_embedding, announce}

-- The tables but for the embeddings.
pub record SameCore (d d' : Db) : Type 0 where
  pub alerts : d'.tables.alerts ≡ d.tables.alerts
  pub analyst_actions : d'.tables.analyst_actions ≡ d.tables.analyst_actions
  pub audit_log : d'.tables.audit_log ≡ d.tables.audit_log
  pub users : d'.tables.users ≡ d.tables.users

execute-upsert-SameCore :
    (is_vector : String → Bool) (key : ℕ) (vec : String) (s : Session)
    → SameCore s.db (execute (upsert_embedding is_vector key vec) s).1.db
unfolding execute upsert_embedding
execute-upsert-SameCore is_vector key vec s = ground arith

pub store_embedding-SameCore :
    (env : Env) (created : Alert) (vec : Option String) (w : World)
    → SameCore w.session.db (store_embedding env created vec w).1.session.db
unfolding store_embedding attempt in_db
store_embedding-SameCore env created none w = record {
  alerts = refl;
  analyst_actions = refl;
  audit_log = refl;
  users = refl;
}
store_embedding-SameCore env created (some vec) w =
    elim (with_conn-cases (execute (upsert_embedding env.is_vector created.id vec)) w.session) [
      | inl back ↦ ground (arith, back.tables)
      | inr done ↦ rw done.db (execute-upsert-SameCore env.is_vector created.id vec _)
    ]

pub embed_text-session :
    (env : Env) (text : String) (w : World) → (embed_text env text w).1.session ≡ w.session
unfolding embed_text get_embedding_model
embed_text-session env text w = refl

abbrev pub CoreKept : World → World → Type 0
CoreKept w w' = SameCore w.session.db w'.session.db

pub CoreKept-frame : IsFrame CoreKept
CoreKept-frame = record { same = λ w. ground arith; chain = λ u v w h k. ground arith }

publish-CoreKept : (env : Env) (event : Event) → Keeps CoreKept (sse_publish env event)
unfolding sse_publish
publish-CoreKept env event = record { at = λ w. ground arith }

embed_text-CoreKept : (env : Env) (text : String) → Keeps CoreKept (embed_text env text)
unfolding embed_text get_embedding_model
embed_text-CoreKept env text = record { at = λ w. ground arith }

store_embedding-CoreKept :
    (env : Env) (created : Alert) (vec : Option String)
    → Keeps CoreKept (store_embedding env created vec)
store_embedding-CoreKept env created vec = record { at = store_embedding-SameCore env created vec }

pub announce-CoreKept :
    (env : Env) (body : Dict Value) (p : Payload) (created : Alert)
    → Keeps CoreKept (announce env body p created)
unfolding announce
announce-CoreKept env body p created =
    search
      (keeps_rules, CoreKept-frame, publish-CoreKept, embed_text-CoreKept, store_embedding-CoreKept)
      depth 8

-- The row that `_insert_alert` returns is the created one, decrypted.
pub announce-Yields :
    (env : Env) (body : Dict Value) (p : Payload) (created : Alert)
    → Yields (λ row. row ≡ decrypt_alert env.fernet created) (announce env body p created)
unfolding announce
announce-Yields env body p created = search yields_rules depth 8
