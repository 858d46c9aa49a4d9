-- ===== src/Workspace.antt =====
-- What the control center's mutations send and do to the query cache
-- (apps/control-center/src/{menu,hours,orders,media,storefront}/*Data.ts and their keys.ts).
mod Cache
mod Mutations
mod Boards
mod Commands
pub mod Sending
pub mod Isolation
mod Outdated
pub mod Freshness
mod Tests
unfoldable pub use Cache.*
unfoldable pub use Mutations.*
unfoldable pub use Boards.*
unfoldable pub use Commands.*
