-- ===== src/Campaign.antt =====
-- The campaign aggregate of apps/core/domain/campaign.py.
pub mod Types
pub mod Lifecycle
pub mod Steps
pub mod Invariant
pub mod Transitions
mod Tests
