-- ===== src/Tests/Fixtures.antt =====
-- Concrete data for the witnesses: an environment without keys or a model, a table of two alerts.
use soc_dashboard.Common.{
  ℕ, Char, code, String, true, false, Option, none, some, [], ◌∷◌, ◌-◌, leb, ◌&&◌, if◌then◌else◌,
}
use soc_dashboard.Values.{Value, null, str, other, Json, object}
use soc_dashboard.Db.{Alert, Db}
use soc_dashboard.Sse.{Event, Sse}
use soc_dashboard.World.{Env, World, unloaded}
use soc_dashboard.Access.{User}
use soc_dashboard.Listing.Order.{sort_by_insertion}

abbrev pub plain_upper : Char → String
plain_upper c = String.◌∷◌ c ""

abbrev pub decimal : Char → Option ℕ
decimal c = if leb 48 (code c) && leb (code c) 57 then some (code c - 48) else none

abbrev pub adapt_text : Value → Option String
adapt_text null = none
adapt_text (str s) = some s
adapt_text (other _ _ text) = some text

abbrev pub env : Env
env = record {
  upper_of = plain_upper;
  decimal_of = decimal;
  is_iso = λ _. true;
  timestamp_of = λ _. some 5;
  sort_rows = λ limit offset. sort_by_insertion;
  accepts = λ _. true;
  adapt = adapt_text;
  fernet = none;
  api_key = some "key";
  load_model = none;
  is_vector = λ _. false;
  has_redis = false;
  unauthorized_description = "unauthorized";
}

abbrev pub alert_one : Alert
alert_one = record {
  id = 1;
  title = "Login storm";
  category = "brute_force";
  severity = "HIGH";
  source = some "siem";
  source_ip = none;
  description = none;
  created_at = 10;
  status = "open";
  assigned_to = none;
  workflow_run_id = none;
  run_metadata = none;
}

abbrev pub alert_two : Alert
alert_two = record alert_one { id = 2; severity = "LOW"; created_at = 20 }

abbrev pub analyst : User
analyst = record { id = 7; username = "ana"; role = "analyst" }

abbrev pub db : Db
db = record {
  tables = record {
    alerts = alert_two ∷ alert_one ∷ [];
    analyst_actions = [];
    audit_log = [];
    alert_embeddings = [];
    users = (record { id = 7; username = "ana"; password_hash = ""; role = "analyst" }) ∷ [];
  };
  sequences = record { alerts_id = 3; analyst_actions_id = 1; audit_log_id = 1; users_id = 8 };
}

-- One client listens.
abbrev pub listening : Sse
listening = record { queues = λ _. []; subscribers = 0 ∷ []; next_queue = 1 }

abbrev pub world : World
world = record {
  session = record { db = db; faults = []; now = 5_000_000 };
  sse = listening;
  channel = [];
  embedding_model = unloaded;
}

abbrev pub classify_json : Option Json
classify_json = some (object (("analyst", str "ana") ∷ ("action", str "classify_tp") ∷ []))

abbrev pub event : Event
event = record { kind = "new_alert"; alert_id = 1; severity = "HIGH"; status = "open" }
