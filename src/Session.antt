-- ===== src/Session.antt =====
-- The session cache (apps/control-center/src/auth/{session,csrf,useLogout}.ts and the session part of
-- apps/control-center/src/api/failures.ts).
mod Defs
pub mod Steps
pub mod Races
pub mod Privileged
pub mod PairClient
mod Tests
unfoldable pub use Defs.*
