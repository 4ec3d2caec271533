-- ===== src/Seed.antt =====
-- seed.py: the demo alerts and the transaction that replaces the stored ones by them.
pub mod Constants
pub mod Random
pub mod Alerts
pub mod Ages
pub mod Main
pub mod Yields
pub mod Addresses
pub mod Counts
pub mod Samples
pub mod Positions
pub mod Known
pub mod Drafts
pub mod Distribution
pub mod Ranges
pub mod Rows
pub mod Refreshed
pub mod Loaded
pub mod Transaction
pub mod Replaced
pub mod Targets
