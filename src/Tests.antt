-- ===== src/Tests.antt =====
-- The theorems at concrete data: two alerts, one analyst, and an outside world that works.
mod Fixtures
mod Triage
mod Ingest
mod Reads
mod Events
mod Accounts
mod System
mod Seed
mod Stats
mod Sessions
mod Audit
mod Approval
