-- ===== src/Transport.antt =====
-- The tenant transport of the storefront server and the backend's origin
-- (apps/storefront/lib/server/{tenant-fetch,api-origin}.ts).
mod Defs
pub mod Headers
pub mod Exchanges
pub mod Origin
mod Tests
unfoldable pub use Defs.*
