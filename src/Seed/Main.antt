-- ===== src/Seed/Main.antt =====
-- `main` of seed.py: which alerts are closed, and the transaction that stores them.
use soc_dashboard.Common.{
  ℕ, ◌+◌, ◌*◌, ◌^◌, String, true, false, Option, none, some, List, [], ◌∷◌, ◌++◌, length, contains,
  nat_eq, lookup, Dict, ltb, ◌&&◌, if◌then◌else◌,
}
use soc_dashboard.Values.{Result, ok, err, Exn, database_error, lookup_error}
use soc_dashboard.Db.{Alert, AnalystAction, Db}
use soc_dashboard.Db.Session.{Session, Tx, pure, lift, execute, fails, spend, ◌>>=◌, ◌>>◌}
use soc_dashboard.Db.Statements.{check_alert, has_alert}
use soc_dashboard.Seed.Constants.{analysts, action_to_status}
use soc_dashboard.Seed.Random
use soc_dashboard.Seed.Random.{Stream, Draw, randint, choice, repeat, sample}
use soc_dashboard.Seed.Alerts.{Draft, build_alerts}
use soc_dashboard.Seed.Ages.{get_or, refresh}

-- In seconds.
abbrev pub response_range : Dict (ℕ × ℕ)
response_range =
    ("CRITICAL", (120, 600))
    ∷ ("HIGH", (600, 2400))
    ∷ ("MEDIUM", (1800, 9000))
    ∷ ("LOW", (3600, 36000))
    ∷ []

abbrev pub action_pool : List String
action_pool = repeat 11 "classify_tp" ++ repeat 7 "classify_fp" ++ repeat 2 "escalate"

-- TRUNCATE analyst_actions, alerts RESTART IDENTITY CASCADE: the tables that refer to alerts go too.
unfoldable pub truncate : ℕ → Db → Result (Unit {0}) × Db
truncate now d = (
  ok tt,
  record {
    tables = record d.tables {
      alerts = [];
      analyst_actions = [];
      audit_log = [];
      alert_embeddings = [];
    };
    sequences = record d.sequences { alerts_id = 1; analyst_actions_id = 1; audit_log_id = 1 };
  },
)

abbrev pub seeded_row : Draft → String → Option String → ℕ → Alert
seeded_row a status analyst key = record {
  id = key;
  title = a.title;
  category = a.category;
  severity = a.severity;
  source = some a.source;
  source_ip = some a.source_ip;
  description = some a.description;
  created_at = a.created_at;
  status = status;
  assigned_to = analyst;
  workflow_run_id = none;
  run_metadata = none;
}

-- INSERT INTO alerts (…, created_at, status, assigned_to) VALUES … RETURNING id
unfoldable pub insert_seeded : Draft → String → Option String → ℕ → Db → Result ℕ × Db
insert_seeded a status analyst now d =
    let key = d.sequences.alerts_id in
    let row = seeded_row a status analyst key in
    let drawn = record d.sequences { alerts_id = key + 1 } in
    if check_alert row
    then (
      ok key,
      record {
        tables = record d.tables { alerts = d.tables.alerts ++ row ∷ [] };
        sequences = drawn;
      },
    )
    else (err database_error, record d { sequences = drawn })

-- INSERT INTO analyst_actions (…, acted_at, response_time_seconds) VALUES …
unfoldable pub insert_seeded_action : ℕ → String → String → ℕ → ℕ → ℕ → Db → Result (Unit {0}) × Db
insert_seeded_action alert_id analyst action acted_at response_time now d =
    let key = d.sequences.analyst_actions_id in
    let drawn = record d.sequences { analyst_actions_id = key + 1 } in
    let row : AnalystAction = record {
      id = key;
      alert_id = alert_id;
      analyst_name = analyst;
      action = action;
      acted_at = acted_at;
      response_time_seconds = some response_time;
    } in
    if has_alert alert_id d.tables.alerts && ltb response_time (2 ^ 31)
    then (
      ok tt,
      record {
        tables = record d.tables { analyst_actions = d.tables.analyst_actions ++ row ∷ [] };
        sequences = drawn;
      },
    )
    else (err database_error, record d { sequences = drawn })

-- A draw, or a lookup that may raise, inside the transaction: its value and the next position.
abbrev pub drawn_at : {A : Type 0} → Draw A → ℕ → Tx (A × ℕ)
drawn_at draw c = elim (draw c) [ some drawn ↦ pure drawn | none ↦ lift (err lookup_error) ]

-- `ACTION_TO_STATUS[action]`
abbrev pub status_for : Option String → Result String
status_for none = err lookup_error
status_for (some status) = ok status

-- `conn.rollback(); raise`, to the state at the connect: TRUNCATE … RESTART IDENTITY is undone
-- with its sequences.
unfoldable pub undo : {A : Type 0} → Db → Exn → Session → Result A × Session
undo before e s =
    if fails s.faults
    then (err database_error, record (spend s) { db = before })
    else (err e, record (spend s) { db = before })

-- `conn.commit()`, and the except clause around it.
unfoldable pub finish : {A : Type 0} → Db → Result A × Session → Result A × Session
finish before (err e, s) = undo before e s
finish before (ok a, s) =
    if fails s.faults then undo before database_error (spend s) else (ok a, spend s)

module _ (stream : Stream) where
  -- The part of a round that follows the INSERT of a closed alert.
  unfoldable pub seed_action : Draft → String → String → ℕ → ℕ × ℕ → ℕ → Tx ℕ
  seed_action a analyst action alert_id range c = do
    response ← drawn_at (randint stream range.0 range.1) c
    execute (
        insert_seeded_action alert_id analyst action (a.created_at + response.0 * 1_000_000)
          response.0)
    pure response.1

  -- A round of the loop, from a position of the generator to the next.
  unfoldable pub seed_closed : Draft → ℕ → Tx ℕ
  seed_closed a c = do
    action ← drawn_at (choice stream action_pool) c
    status ← lift (status_for (lookup action.0 action_to_status))
    analyst ← drawn_at (choice stream analysts) action.1
    alert_id ← execute (insert_seeded a status (some analyst.0))
    seed_action a analyst.0 action.0 alert_id
        (get_or (300, 3600) (lookup a.severity response_range)) analyst.1

  unfoldable pub seed_open : Draft → ℕ → Tx ℕ
  seed_open a c = do execute (insert_seeded a "open" none); pure c

  unfoldable pub seed_rows : List ℕ → ℕ → List Draft → ℕ → Tx (Unit {0})
  seed_rows closed i [] c = pure tt
  seed_rows closed i (a ∷ rest) c = do
    c' ← elim (contains closed i) [ true ↦ seed_closed a c | false ↦ seed_open a c ]
    seed_rows closed (i + 1) rest c'

  unfoldable pub seed_tx : List ℕ → List Draft → ℕ → Tx (Unit {0})
  seed_tx closed alerts c = do execute truncate; seed_rows closed 0 alerts c

  -- `psycopg2.connect(…)`, and the try block on it.
  unfoldable pub store : List ℕ → List Draft → ℕ → Session → Result (Unit {0}) × Session
  store closed alerts c s =
      if fails s.faults
      then (err database_error, spend s)
      else finish s.db (seed_tx closed alerts c (spend s))

  -- What `main` prepares before it connects: the closed positions, and the alerts.
  unfoldable pub prepare : ℕ → ℕ → ℕ → Draw (List ℕ × List Draft)
  prepare fuel built_at now = Random.◌>>=◌ (build_alerts stream fuel built_at) λ alerts.
      Random.◌>>=◌ (sample stream (length alerts) 30) λ closed.
        Random.◌>>=◌ (refresh stream now closed 0 alerts) λ fresh. Random.pure (closed, fresh)

  -- `main`: `built_at` is the time that `build_alerts` reads; the generator is at its start. It is
  -- nothing where `build_alerts` raises or draws past the fuel.
  unfoldable pub main : ℕ → ℕ → Session → Option (Result (Unit {0}) × Session)
  main fuel built_at s = elim (prepare fuel built_at s.now 0) [
    | none ↦ none
    | some ((closed, alerts), c) ↦ some (store closed alerts c s)
  ]
