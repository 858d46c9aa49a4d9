-- ===== src/Pages.antt =====
-- What the storefront's pages and islands make of the backend's answers
-- (apps/storefront/lib/server/{storefront-data,page-data}.ts and lib/ordering/public-api.ts).
mod Defs
pub mod Featured
pub mod Answers
mod Tests
unfoldable pub use Defs.*
