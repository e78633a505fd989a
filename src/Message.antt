-- ===== src/Message.antt =====
-- The message aggregate of apps/core/domain/message.py.
pub mod Types
pub mod Content
pub mod Lifecycle
pub mod Fallback
pub mod Steps
pub mod Invariant
pub mod Progress
pub mod FallbackLaws
mod Tests
