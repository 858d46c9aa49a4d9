-- ===== src/Access.antt =====
-- What members are offered and where a sign-in leads (permissions.ts of the menu, hours, orders and
-- storefront workspaces and apps/control-center/src/auth/{redirect,landing}.ts).
mod Defs
pub mod Offers
pub mod Redirects
mod Tests
unfoldable pub use Defs.*
