-- ===== src/Template.antt =====
-- Templates: apps/core/domain/template.py. Types has the data classes, Placeholders the scanning of a
-- content for `{{name}}` and the replacement, Lifecycle the constructor and the approval states, Render the
-- rendering; the other children have the proofs, but Store, for apps/adapters/db/repositories/template_repo.py,
-- and Routes, for apps/api/routes/v1/templates.py.
pub mod Types
pub mod Placeholders
pub mod Lifecycle
pub mod Render
pub mod Invariant
pub mod Approval
pub mod Replacing
pub mod Rendering
pub mod Store
pub mod Routes
mod Tests
