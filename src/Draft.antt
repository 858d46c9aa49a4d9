-- ===== src/Draft.antt =====
-- The storefront draft composer's model (apps/control-center/src/storefront/composition.ts) and the
-- dialog that edits one of its sections (components/SectionEditDialog.tsx).
mod Defs
pub mod Edits
pub mod SectionForm
pub mod Sections
mod Tests
mod SectionTests
unfoldable pub use Defs.*
