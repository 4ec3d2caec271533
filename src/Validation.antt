-- ===== src/Validation.antt =====
-- What app.py checks of an ingest call before it touches the database, and the values that it
-- sends: `_valid_api_key`, `_parse_ingest_payload`, the checks of `_kafka_ingest`,
-- `_ingest_values`.
pub mod Accepted
use soc_dashboard.Common.{
  ℕ, String, Bool, true, false, not, ◌&&◌, ◌||◌, none, some, [], ◌∷◌, ◌==◌, text_eq, is_ascii,
  upper, Dict, lookup, if◌then◌else◌,
}
use soc_dashboard.Values.{
  http, type_error, value_error, Result, ok, err, Value, get, or_none, strip_value, ◌>>=◌,
}
use soc_dashboard.Crypto.{encrypt_text, encrypt_field}
use soc_dashboard.Db.Statements.{NewAlert}
use soc_dashboard.World.{Env, bind_value, bind_text}

-- `SEVERITY_RANK`
abbrev pub severity_rank : Dict ℕ
severity_rank = ("CRITICAL", 1) ∷ ("HIGH", 2) ∷ ("MEDIUM", 3) ∷ ("LOW", 4) ∷ []

-- `key in d`
unfoldable pub has_key {ℓ} : {V : Type ℓ} → String → Dict V → Bool
unfolding lookup
has_key key d = elim (lookup key d) [ none ↦ false | some _ ↦ true ]

-- `hmac.compare_digest` of two texts, which it takes in ASCII only
unfoldable pub compare_digest : String → String → Result Bool
compare_digest a b = if is_ascii a && is_ascii b then ok (a == b) else err type_error

-- `_valid_api_key`; the text is the request's X-API-Key, or "".
unfoldable pub valid_api_key : Env → String → Result Bool
valid_api_key env provided = elim env.api_key [
  | none ↦ ok false
  | some key ↦ if key == "" then ok false else compare_digest provided key
]

pub record Payload : Type 0 where
  pub title : String
  pub category : String
  pub severity : String

-- The three stripped fields, which both ways in read by the same three lines.
unfoldable pub read_payload : Env → Dict Value → Result Payload
read_payload env body = do
  title ← strip_value (get "title" body)
  category ← strip_value (get "category" body)
  severity ← strip_value (get "severity" body)
  ok (record { title = title; category = category; severity = upper env.upper_of severity })

-- `_parse_ingest_payload`, once the fields are read
unfoldable pub check_ingest_payload : Payload → Result Payload
check_ingest_payload p =
    if p.title == "" || p.category == ""
    then err (http 400 "title and category are required")
    else if has_key p.severity severity_rank
    then ok p
    else err (http 400 "severity must be CRITICAL, HIGH, MEDIUM or LOW")

unfoldable pub parse_ingest_payload : Env → Dict Value → Result Payload
parse_ingest_payload env body = do p ← read_payload env body; check_ingest_payload p

-- The checks of `_kafka_ingest`
unfoldable pub check_kafka_payload : Payload → Result Payload
check_kafka_payload p =
    if p.title == "" || p.category == "" || not (has_key p.severity severity_rank)
    then err value_error
    else ok p

unfoldable pub parse_kafka_payload : Env → Dict Value → Result Payload
parse_kafka_payload env body = do p ← read_payload env body; check_kafka_payload p

-- `_ingest_values`, as the driver sends them
unfoldable pub ingest_values : Env → Dict Value → Payload → Result NewAlert
ingest_values env body p = do
  title ← bind_text env (encrypt_text env.fernet p.title)
  category ← bind_text env p.category
  severity ← bind_text env p.severity
  source ← bind_value env (or_none (get "source" body))
  source_ip ← bind_value env (encrypt_field env.fernet (or_none (get "source_ip" body)))
  description ← bind_value env (encrypt_field env.fernet (or_none (get "description" body)))
  workflow_run_id ← bind_value env (or_none (get "workflow_run_id" body))
  run_metadata ← bind_value env (or_none (get "run_metadata" body))
  ok (record {
    title = title;
    category = category;
    severity = severity;
    source = source;
    source_ip = source_ip;
    description = description;
    workflow_run_id = workflow_run_id;
    run_metadata = run_metadata;
  })
