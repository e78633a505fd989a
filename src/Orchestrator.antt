-- ===== src/Orchestrator.antt =====
-- The orchestrator: apps/workers/orchestrator/campaign_orchestrator.py. Recipients has whom the messages of a
-- campaign go to and what they say, Job the handler of a campaign job.
pub mod Recipients
pub mod Job
pub mod Batches
pub mod Dispatch
pub mod Campaign
pub mod Repeated
mod Tests
pub mod Activated
