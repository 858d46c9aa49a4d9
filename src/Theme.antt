-- ===== src/Theme.antt =====
-- The tenant's accent under a palette
-- (packages/storefront-renderer/src/accent.ts and theme/accent-text.ts).
mod Doubles
mod Accents
mod Defs
pub mod Derivation
mod FixedPoint
mod Tests
unfoldable pub use Doubles.*
unfoldable pub use Accents.*
unfoldable pub use Defs.*
