-- ===== src/Money.antt =====
-- Money entry and display (apps/control-center/src/menu/money.ts,
-- packages/storefront-renderer/src/money.ts).
mod Defs
mod Syntax
mod Amount
pub mod Parsing
pub mod Soundness
pub mod RoundTrip
mod Tests
unfoldable pub use Defs.*
