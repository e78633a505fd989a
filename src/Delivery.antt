-- ===== src/Delivery.antt =====
-- The delivery service, apps/core/services/delivery_service.py, and the workers that call it.
pub mod World
pub mod Send
pub mod Handlers
pub mod Outcome
pub mod Attempt
pub mod Jobs
pub mod Saved
pub mod Requests
pub mod Guarantees
pub mod Frame
pub mod Redelivery
pub mod Reports
pub mod Events
pub mod Once
pub mod AtMostOnce
pub mod Reported
pub mod Branches
pub mod Codeless
pub mod SmsWorker
pub mod Unreached
pub mod Intake
pub mod IntakeLaws
pub mod Samples
mod IntakeTests
mod Tests
