-- ===== src/Proxy.antt =====
-- The development forwarder of the storefront (apps/storefront/lib/server/dev-api-proxy.ts).
mod Defs
pub mod Confinement
mod Tests
unfoldable pub use Defs.*
