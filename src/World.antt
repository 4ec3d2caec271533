-- ===== src/World.antt =====
-- The state of the server process with what it talks to, and the code that runs on it. Whatever
-- lies outside the repository (psycopg2's adaptation of values, the Unicode tables, Fernet, the
-- embedding model, pgvector, Redis) is an argument, `Env`.
pub mod Frame
pub mod Failure
pub mod Publishing
pub mod Reads
use soc_dashboard.Common.{
  ℕ, Char, String, Bool, Option, none, some, List, ◌∷◌, [], ◌++◌, if◌then◌else◌,
}
use soc_dashboard.Values.{Exn, http, Result, ok, err, Value, null, str, database_error, redis_error}
use soc_dashboard.Crypto.{Cipher}
use soc_dashboard.Db.{Alert}
use soc_dashboard.Db.Session.{Session, Tx, with_conn, fails, spend}
use soc_dashboard.Sse.{Event, Sse, publish}

-- `TextEmbedding`: the components of a text's vector, formatted, or nothing where it raises.
abbrev pub Model : Type 0
Model = String → Option (List String)

pub record Env : Type 0 where
  -- the Unicode upper case of one character
  pub upper_of : Char → String
  -- the value of a Unicode decimal digit
  pub decimal_of : Char → Option ℕ
  -- `datetime.fromisoformat` accepts this text
  pub is_iso : String → Bool
  -- the instant that PostgreSQL casts a text to, nothing where that fails
  pub timestamp_of : String → Option ℕ
  -- `ORDER BY CASE severity … END, created_at DESC` of the rows of a query with this LIMIT and
  -- OFFSET: rows that tie may stand in another order for another page
  pub sort_rows : ℕ → ℕ → List Alert → List Alert
  -- psycopg2 can send this text
  pub accepts : String → Bool
  -- the text that a value of another type fills a TEXT column with; nothing where that raises
  pub adapt : Value → Option String
  -- FERNET
  pub fernet : Option Cipher
  -- ALERTS_API_KEY
  pub api_key : Option String
  -- `TextEmbedding("BAAI/bge-small-en-v1.5")`, nothing where it raises
  pub load_model : Option Model
  -- the literal casts to vector(384)
  pub is_vector : String → Bool
  -- `_REDIS_CLIENT is not None`
  pub has_redis : Bool
  -- the description of a Werkzeug 401 that is given none
  pub unauthorized_description : String

-- `_EMBEDDING_MODEL`: None, the sentinel "unavailable", or a model.
pub data ModelState : Type 0 where
  unloaded unavailable : ModelState
  loaded : Model → ModelState

pub record World : Type 0 where
  pub session : Session
  pub sse : Sse
  -- what was published on the channel "soc:alerts"
  pub channel : List Event
  pub embedding_model : ModelState

abbrev pub App : Type 0 → Type 0
App A = World → Result A × World

module _ {A : Type 0} where
  abbrev pub pure : A → App A
  pure a w = (ok a, w)

  abbrev pub raise : Exn → App A
  raise e w = (err e, w)

  abbrev pub lift : Result A → App A
  lift r w = (r, w)

infixl 5 ◌>>=◌ ◌>>◌
abbrev pub ◌>>=◌ : {A B : Type 0} → App A → (A → App B) → App B
◌>>=◌ m f w = let (r, w') = m w in elim r [ ok a ↦ f a w' | err e ↦ (err e, w') ]

abbrev pub ◌>>◌ : {A B : Type 0} → App A → App B → App B
m >> k = m >>= λ _. k

-- A `with get_conn() …` block in a handler.
unfoldable pub in_db : {A : Type 0} → Tx A → App A
in_db body w = let (r, s) = with_conn body w.session in (r, record w { session = s })

-- `try: … except Exception: log`
unfoldable pub attempt : App (Unit {0}) → App (Unit {0})
attempt m w = (ok tt, (m w).1)

-- The handlers' answers: a value with its status code, or an error text with its code.
pub data Response (A : Type 0) : Type 0 where
  success : ℕ → A → Response A
  failure : ℕ → String → Response A

-- `_json_error` for an `abort`, `_handle_500` for any other exception.
unfoldable pub error_response : {A : Type 0} → Exn → Response A
error_response (http code description) = failure code description
error_response _ = failure 500 "internal server error"

unfoldable pub to_response : {A : Type 0} → Result (Response A) → Response A
unfolding error_response
to_response (ok reply) = reply
to_response (err e) = error_response e

-- A request: the handler, then the error handlers.
abbrev pub respond : {A : Type 0} → App (Response A) → World → Response A × World
respond handler w = let (r, w') = handler w in (to_response r, w')

-- The text or NULL that psycopg2 sends for a parameter.
unfoldable pub bind_value : Env → Value → Result (Option String)
bind_value env null = ok none
bind_value env (str s) = if env.accepts s then ok (some s) else err database_error
bind_value env v = elim (env.adapt v) [ some s ↦ ok (some s) | none ↦ err database_error ]

unfoldable pub bind_text : Env → String → Result String
bind_text env s = if env.accepts s then ok s else err database_error

-- `_sse_publish`
unfoldable pub sse_publish : Env → Event → App (Unit {0})
sse_publish env event w =
    if env.has_redis
    then (if fails w.session.faults
        then (err redis_error, record w { session = spend w.session })
        else (ok tt, record w { session = spend w.session; channel = w.channel ++ event ∷ [] }))
    else (ok tt, record w { sse = publish event w.sse })
