-- ===== src/Forms.antt =====
-- Failures as a form shows them (apps/control-center/src/components/formErrors.ts and
-- storefront/fieldErrors.ts).
mod Defs
mod DraftDefs
pub mod Failures
pub mod DraftFailures
mod Tests
unfoldable pub use Defs.*
unfoldable pub use DraftDefs.*
