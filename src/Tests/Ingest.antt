-- ===== src/Tests/Ingest.antt =====
-- Witnesses for the ingest endpoint, its checks, and field encryption.
use soc_dashboard.Common.{
  ◌≡◌, ◌↔◌, ◌⊎◌, refl, some, none, [], ◌∷◌, ◌++◌, Dict, String, true, lookup, strip, upper,
  is_ascii, join, arith, eq_iff,
}
use soc_dashboard.Values.{
  ok, Value, str, other, number, object, as_body, strip_value, get, or_none, truthy,
}
use soc_dashboard.Crypto.{Cipher, encrypt_text, encrypt_field, decrypt_alert}
use soc_dashboard.Ingest.ReadBack.{IsShownAs, ingested_reads_back}
use soc_dashboard.Db.Statements.{NewAlert, new_row}
use soc_dashboard.World.{Env, success, failure, respond, bind_text, bind_value}
use soc_dashboard.World.Failure.{IsFailure}
use soc_dashboard.World.Publishing.{Published}
use soc_dashboard.Embedding.{truthy_texts, embed_text, get_embedding_model}
use soc_dashboard.Validation.{
  Payload, read_payload, parse_ingest_payload, parse_kafka_payload, check_ingest_payload,
  check_kafka_payload, has_key, ingest_values,
}
use soc_dashboard.Validation.Accepted.{
  IsReadFrom, IsComplete, parse_ingest_payload_iff, parse_kafka_payload_iff,
}
use soc_dashboard.Ingest.{api_ingest_alert, new_alert}
use soc_dashboard.Ingest.Stored.{created_row, Ingested, api_ingest_alert-effect}
use soc_dashboard.Ingest.Success.{api_ingest_alert_succeeds, api_ingest_alert_lost_answer}
use soc_dashboard.Tests.Fixtures.{env, world}

abbrev fields : Dict Value
fields = ("title", str " Beacon ") ∷ ("category", str "malware") ∷ ("severity", str "HIGH") ∷ []

abbrev payload : Payload
payload = record { title = "Beacon"; category = "malware"; severity = "HIGH" }

abbrev row_values : NewAlert
row_values = record {
  title = "Beacon";
  category = "malware";
  severity = "HIGH";
  source = none;
  source_ip = none;
  description = none;
  workflow_run_id = none;
  run_metadata = none;
}

bundle : Unit {0}
unfolding parse_ingest_payload parse_kafka_payload read_payload check_ingest_payload
    check_kafka_payload has_key ingest_values bind_text bind_value strip_value strip upper get
    lookup or_none truthy encrypt_text encrypt_field truthy_texts as_body is_ascii embed_text
    get_embedding_model join
bundle = tt

parse_ingest_payload_iff_example :
    (parse_ingest_payload env fields ≡ ok payload)
    ↔ (IsReadFrom env fields payload × IsComplete payload)
parse_ingest_payload_iff_example = parse_ingest_payload_iff env fields payload

parse_kafka_payload_iff_example :
    (parse_kafka_payload env fields ≡ ok payload)
    ↔ (IsReadFrom env fields payload × IsComplete payload)
parse_kafka_payload_iff_example = parse_kafka_payload_iff env fields payload

-- A cipher that puts one character in front.
abbrev marked : Cipher
marked = record {
  encrypt = λ s. String.◌∷◌ "#" s;
  decrypt = λ s. elim s [ String.[] ↦ none | String.◌∷◌ _ rest ↦ some rest ];
}

abbrev keyed : Env
keyed = record env { fernet = some marked }

abbrev addressed : Dict Value
addressed = ("source_ip", str "10.0.0.1") ∷ ("description", other number true "5") ∷ fields

abbrev sealed_values : NewAlert
sealed_values = record row_values {
  title = "#Beacon";
  source_ip = some "#10.0.0.1";
  description = some "#5";
}

ingested_reads_back_example :
    IsShownAs keyed addressed payload (decrypt_alert (some marked) (new_row sealed_values 3 9))
unfolding bundle
ingested_reads_back_example =
    ingested_reads_back keyed addressed payload sealed_values 3 9 (λ s. refl) refl

api_ingest_alert-effect_example :
    (((respond (api_ingest_alert env "key" (some (object fields))) world).1.session.db.tables
        ≡ world.session.db.tables)
      × IsFailure (respond (api_ingest_alert env "key" (some (object fields))) world).0)
    ⊎ ((i : Ingested env "key"
          (some (object fields))
          world
          (respond (api_ingest_alert env "key" (some (object fields))) world).1)
        × (((respond (api_ingest_alert env "key" (some (object fields))) world).0
              ≡ success 201 (decrypt_alert none (created_row i.stored.values world.session)))
            ⊎ IsFailure (respond (api_ingest_alert env "key" (some (object fields))) world).0))
api_ingest_alert-effect_example = api_ingest_alert-effect env "key" (some (object fields)) world

api_ingest_alert_succeeds_example :
    let (reply, w') = respond (api_ingest_alert env "key" (some (object fields))) world in
    (reply ≡ success 201 (decrypt_alert none (created_row row_values world.session)))
    × (w'.session.db.tables.alerts
        ≡ world.session.db.tables.alerts ++ created_row row_values world.session ∷ [])
    × Published env.has_redis
        (new_alert (decrypt_alert none (created_row row_values world.session)))
        world
        w'
unfolding bundle
api_ingest_alert_succeeds_example =
    api_ingest_alert_succeeds env "key" (some (object fields)) fields payload row_values
      ("Beacon" ∷ "malware" ∷ []) none world refl (λ e. ground (arith, eq_iff "key" "")) refl refl
      refl refl refl refl refl

abbrev numbered : Dict Value
numbered = ("description", other number true "5") ∷ fields

abbrev numbered_values : NewAlert
numbered_values = record row_values { description = some "5" }

api_ingest_alert_lost_answer_example :
    let (reply, w') = respond (api_ingest_alert env "key" (some (object numbered))) world in
    (reply ≡ failure 500 "internal server error")
    × (w'.session.db.tables.alerts
        ≡ world.session.db.tables.alerts ++ created_row numbered_values world.session ∷ [])
    × (w'.sse ≡ world.sse)
    × (w'.channel ≡ world.channel)
unfolding bundle
api_ingest_alert_lost_answer_example =
    api_ingest_alert_lost_answer env "key" (some (object numbered)) numbered payload numbered_values
      number "5" world refl (λ e. ground (arith, eq_iff "key" "")) refl refl refl refl refl refl
