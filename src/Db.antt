-- ===== src/Db.antt =====
-- The tables of schema.sql. A timestamp is a number of microseconds; SERIAL columns draw from the
-- sequences, which a rollback leaves advanced.
pub mod Statements
pub mod Session
pub mod Atomicity
pub mod Ensures
pub mod Quiet
pub mod Settles
use soc_dashboard.Common.{ℕ, String, Option, List}

pub record Alert : Type 0 where
  pub id : ℕ
  pub title : String
  pub category : String
  pub severity : String
  pub source : Option String
  pub source_ip : Option String
  pub description : Option String
  pub created_at : ℕ
  pub status : String
  pub assigned_to : Option String
  pub workflow_run_id : Option String
  pub run_metadata : Option String

pub record AnalystAction : Type 0 where
  pub id : ℕ
  pub alert_id : ℕ
  pub analyst_name : String
  pub action : String
  pub acted_at : ℕ
  pub response_time_seconds : Option ℕ

pub record AuditEntry : Type 0 where
  pub id : ℕ
  pub alert_id : ℕ
  pub user_id : ℕ
  pub username : String
  pub action : String
  pub from_status : String
  pub to_status : String
  pub note : Option String
  pub created_at : ℕ

pub record UserRow : Type 0 where
  pub id : ℕ
  pub username : String
  pub password_hash : String
  pub role : String

pub record AlertEmbedding : Type 0 where
  pub alert_id : ℕ
  pub embedding : String

pub record Tables : Type 0 where
  pub alerts : List Alert
  pub analyst_actions : List AnalystAction
  pub audit_log : List AuditEntry
  pub alert_embeddings : List AlertEmbedding
  pub users : List UserRow

pub record Sequences : Type 0 where
  pub alerts_id : ℕ
  pub analyst_actions_id : ℕ
  pub audit_log_id : ℕ
  pub users_id : ℕ

pub record Db : Type 0 where
  pub tables : Tables
  pub sequences : Sequences
