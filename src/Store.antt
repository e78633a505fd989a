-- ===== src/Store.antt =====
-- The database, as the repositories of apps/adapters/db/repositories read and write it.
pub mod Rows
pub mod RowLaws
pub mod Stats
pub mod StatsLaws
pub mod Campaigns
pub mod Completion
pub mod Status
pub mod Unique
mod Tests
