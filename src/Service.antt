-- ===== src/Service.antt =====
-- The campaign service: apps/core/services/campaign_service.py, over the campaign table, the event table
-- (apps/adapters/db/repositories/event_repo.py) and the queue. Events has the event store, Calls the methods.
pub mod Events
pub mod Calls
pub mod Laws
pub mod Activation
mod Tests
