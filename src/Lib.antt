-- ===== src/Lib.antt =====
-- The SOC dashboard: a Flask application (app.py) with field encryption (crypto.py), a Kafka
-- consumer (kafka/consumer.py), a command for accounts (manage.py), demo data (seed.py) and a
-- PostgreSQL schema (schema.sql). Alerts come in over REST or Kafka, are stored encrypted, announced
-- to the open dashboards, listed, and closed by analysts.
--
-- Parts and files:
--   Common         Python's texts, lists, dicts and `int` over the native numbers
--   Values         JSON values, Python's truth, exceptions, results
--   Crypto         crypto.py and `decrypt_alert`; RoundTrip: the cipher
--   Db             the tables of schema.sql; Statements: the statements that app.py sends; Session:
--                  a connection and its transaction; Atomicity, Ensures, Settles, Quiet: how a
--                  block ends
--   Sse            `_sse_publish`, `_sse_subscribe`, `_sse_unsubscribe` and the queue that a stream
--                  reads; Delivery, Validity, Dropped
--   World          the state of the server process, its outside world, and the error handlers
--   Embedding      `_get_embedding_model`, `_embed_text`
--   Validation     the API key and the checks of an ingest body; Accepted
--   Ingest         `_insert_alert`, `_kafka_ingest`, `api_ingest_alert`; Built and
--                  ReadBack: the columns of a new row; Stored, Success
--   Access, Requests, Changes, Triage
--                  `require_role`; what a request says; the transactions; `api_classify` and
--                  `api_add_note`; Triage/Effect, Triage/Once, Triage/Notes; Changes/Race and
--                  Changes/Overlap: two classify calls at a time
--   Pagination, Filters, Listing
--                  `_parse_pagination`, `alert_filters`, `_list_alerts` and its two endpoints;
--                  Listing/Order and Listing/Ties: what ORDER BY leaves open; Listing/Page and
--                  Listing/Pages: one page and all of them
--   Sla            `compute_sla`
--   Navigator      `api_navigator_layer`
--   Consumer       `KafkaAlertConsumer`; Loop
--   Manage         `create_user` of manage.py; Accounts
--   Retention      `purge_old_alerts`; Integrity
--   Approval       `api_approve_workflow`; Released
--   Audit          `api_alert_audit`, `audit_log_page`; History, Pages
--   Stats          `api_stats`; Groups, Report
--   Sessions       `load_user`, `login`, `logout`; SignIn, Created
--   Seed           seed.py: Constants, Random, Alerts (`build_alerts`), Ages, Main (`main`); the
--                  other children hold the proofs
--   System         sequences of calls as a step relation, and the invariants of the database: Sound
--                  and Runs, History and Accord
--   Tests          the theorems at concrete data
--
-- A handler is a function from a world to an answer or an exception with the world after it; the
-- error handlers make a response of it (`respond`). A block `with get_conn()` is `in_db`, whose
-- body runs on a session: every connect, statement, commit and Redis publish takes one entry of the
-- list `faults`, and fails where that says so. A failed block restores the tables; sequences stay
-- advanced, as in PostgreSQL. One request runs at a time, but for Changes/Race, where the halves of
-- two transactions take turns. Loops are structural recursion; the consumer's polls are a list, which
-- ends where the stop event is found set. One loop needs fuel, the one of `rand_public_ip`: any fuel
-- above the number of reserved octets that are drawn in a row is enough. Python's generator is a
-- stream of raw numbers, of which a draw below n takes the next one modulo n.
--
-- What lies outside the repository is an argument, the record `Env`: Fernet, psycopg2's conversions,
-- the Unicode tables, the embedding model, pgvector's cast, PostgreSQL's time cast and sort, the
-- ISO 8601 parser. The queries of the statistics have a record of their own, `Aggregates`, and bcrypt
-- is an argument. Flask-Login's `login_required` stands around the views and is not modelled.
-- Timestamps are microseconds. A JSON value that is neither null nor a text is kept by its kind,
-- its truth and its text.
--
-- Not modelled: similar alerts, the streaming response around the queues, HTML, CSRF tokens and rate
-- limits, the ISO texts that `serialize` makes, a request body that is nested too deep for Python's
-- parser, running out of memory, logging, and the Go service.
pub mod Common
pub mod Values
pub mod Crypto
pub mod Db
pub mod Sse
pub mod World
pub mod Embedding
pub mod Validation
pub mod Access
pub mod Requests
pub mod Changes
pub mod Triage
pub mod Sla
pub mod Manage
pub mod Retention
pub mod Approval
pub mod Audit
pub mod Sessions
pub mod Stats
pub mod Seed
pub mod System
pub mod Tests
pub mod Ingest
pub mod Consumer
pub mod Pagination
pub mod Filters
pub mod Listing
pub mod Navigator
