-- ===== src/Hours.antt =====
-- Wall times of the opening hours (apps/control-center/src/hours/time.ts and
-- packages/storefront-renderer/src/sections/hours-format.ts).
mod Defs
mod Dates
pub mod Times
pub mod Weekdays
pub mod Gaps
mod Tests
mod DateTests
unfoldable pub use Defs.*
unfoldable pub use Dates.*
