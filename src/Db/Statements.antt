-- ===== src/Db/Statements.antt =====
-- The statements that the program sends, with the constraints of schema.sql that they can meet.
use soc_dashboard.Common.{
  ℕ, ◌+◌, ◌-◌, ◌/◌, ◌^◌, String, Bool, false, ◌||◌, ◌&&◌, Option, none, some, List, [], ◌∷◌, ◌++◌,
  ltb, ◌==◌, nat_eq, text_eq, contains, if◌then◌else◌,
}
use soc_dashboard.Values.{Result, ok, err, database_error}
use soc_dashboard.Db.{Alert, AnalystAction, AuditEntry, AlertEmbedding, UserRow, Db}

-- CHECK (severity IN (…)), CHECK (status IN (…))
abbrev pub severities : List String
severities = "CRITICAL" ∷ "HIGH" ∷ "MEDIUM" ∷ "LOW" ∷ []

abbrev pub statuses : List String
statuses = "open" ∷ "true_positive" ∷ "false_positive" ∷ "escalated" ∷ []

unfoldable pub check_alert : Alert → Bool
check_alert a = contains severities a.severity && contains statuses a.status

-- SELECT … FROM alerts WHERE id = …
unfoldable pub find_alert : ℕ → List Alert → Option Alert
find_alert key [] = none
find_alert key (a ∷ rest) = if a.id == key then some a else find_alert key rest

unfoldable pub has_alert : ℕ → List Alert → Bool
has_alert key [] = false
has_alert key (a ∷ rest) = a.id == key || has_alert key rest

-- The row of an INSERT INTO alerts, before the sequence and the defaults fill it.
pub record NewAlert : Type 0 where
  pub title : String
  pub category : String
  pub severity : String
  pub source : Option String
  pub source_ip : Option String
  pub description : Option String
  pub workflow_run_id : Option String
  pub run_metadata : Option String

abbrev pub new_row : NewAlert → ℕ → ℕ → Alert
new_row n key now = record {
  id = key;
  title = n.title;
  category = n.category;
  severity = n.severity;
  source = n.source;
  source_ip = n.source_ip;
  description = n.description;
  created_at = now;
  status = "open";
  assigned_to = none;
  workflow_run_id = n.workflow_run_id;
  run_metadata = n.run_metadata;
}

-- INSERT INTO alerts (…) VALUES (…, 'open') RETURNING *
unfoldable pub insert_row : NewAlert → ℕ → Db → Result Alert × Db
insert_row n now d =
    let row = new_row n d.sequences.alerts_id now in
    let drawn = record d.sequences { alerts_id = d.sequences.alerts_id + 1 } in
    if check_alert row
    then (
      ok row,
      record {
        tables = record d.tables { alerts = d.tables.alerts ++ row ∷ [] };
        sequences = drawn;
      },
    )
    else (err database_error, record d { sequences = drawn })

-- SELECT * FROM alerts WHERE id = …; cur.fetchone()
unfoldable pub select_alert : ℕ → ℕ → Db → Result (Option Alert) × Db
select_alert key now d = (ok (find_alert key d.tables.alerts), d)

abbrev pub close_row : String → String → Alert → Alert
close_row status analyst a = record a { status = status; assigned_to = some analyst }

unfoldable pub update_rows : ℕ → (Alert → Alert) → List Alert → List Alert
update_rows key change [] = []
update_rows key change (a ∷ rest) =
    (if a.id == key then change a else a) ∷ update_rows key change rest

-- UPDATE alerts SET status = …, assigned_to = … WHERE id = … RETURNING *
unfoldable pub update_alert : String → String → ℕ → ℕ → Db → Result (Option Alert) × Db
update_alert status analyst key now d =
    let rows = update_rows key (close_row status analyst) d.tables.alerts in
    if contains statuses status
    then (ok (find_alert key rows), record d { tables = record d.tables { alerts = rows } })
    else (err database_error, d)

-- GREATEST(0, EXTRACT(EPOCH FROM (now() - created_at))::int): the cast rounds half up, and a
-- negative age is raised to 0, where the subtraction stops anyway.
unfoldable pub response_seconds : ℕ → ℕ → ℕ
response_seconds now created = (now - created + 500_000) / 1_000_000

-- INSERT INTO analyst_actions …: the foreign key, and the range of INT.
unfoldable pub insert_action : ℕ → String → String → ℕ → ℕ → Db → Result (Unit {0}) × Db
insert_action alert_id analyst action created now d =
    let key = d.sequences.analyst_actions_id in
    let drawn = record d.sequences { analyst_actions_id = key + 1 } in
    let row : AnalystAction = record {
      id = key;
      alert_id = alert_id;
      analyst_name = analyst;
      action = action;
      acted_at = now;
      response_time_seconds = some (response_seconds now created);
    } in
    if has_alert alert_id d.tables.alerts && ltb (response_seconds now created) (2 ^ 31)
    then (
      ok tt,
      record {
        tables = record d.tables { analyst_actions = d.tables.analyst_actions ++ row ∷ [] };
        sequences = drawn;
      },
    )
    else (err database_error, record d { sequences = drawn })

unfoldable pub has_user : ℕ → List UserRow → Bool
has_user key [] = false
has_user key (u ∷ rest) = u.id == key || has_user key rest

-- INSERT INTO audit_log …, with both foreign keys.
unfoldable pub insert_audit :
    ℕ → ℕ → String → String → String → String → Option String → ℕ → Db → Result AuditEntry × Db
insert_audit alert_id user_id username action from to note now d =
    let key = d.sequences.audit_log_id in
    let drawn = record d.sequences { audit_log_id = key + 1 } in
    let row : AuditEntry = record {
      id = key;
      alert_id = alert_id;
      user_id = user_id;
      username = username;
      action = action;
      from_status = from;
      to_status = to;
      note = note;
      created_at = now;
    } in
    if has_alert alert_id d.tables.alerts && has_user user_id d.tables.users
    then (
      ok row,
      record {
        tables = record d.tables { audit_log = d.tables.audit_log ++ row ∷ [] };
        sequences = drawn;
      },
    )
    else (err database_error, record d { sequences = drawn })

unfoldable pub put_embedding : ℕ → String → List AlertEmbedding → List AlertEmbedding
put_embedding key vec [] = (record { alert_id = key; embedding = vec }) ∷ []
put_embedding key vec (e ∷ rest) =
    if e.alert_id == key
    then record e { embedding = vec } ∷ rest
    else e ∷ put_embedding key vec rest

-- INSERT INTO alert_embeddings … ON CONFLICT (alert_id) DO UPDATE …; `is_vector` is the cast to
-- vector(384), which also fails where pgvector is not installed.
unfoldable pub upsert_embedding : (String → Bool) → ℕ → String → ℕ → Db → Result (Unit {0}) × Db
upsert_embedding is_vector key vec now d =
    if is_vector vec && has_alert key d.tables.alerts
    then (
      ok tt,
      record d {
        tables = record d.tables {
          alert_embeddings = put_embedding key vec d.tables.alert_embeddings;
        };
      },
    )
    else (err database_error, d)
