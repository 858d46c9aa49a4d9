-- ===== src/Cart.antt =====
-- The guest cart of the storefront (apps/storefront/lib/cart.ts).
mod Defs
pub mod Totals
pub mod Validate
pub mod Validity
pub mod RoundTrip
pub mod Lines
mod Adding
pub mod Choice
pub mod Quantities
pub mod Sessions
pub mod Counting
pub mod Storage
mod Tests
unfoldable pub use Defs.*
