-- ===== src/Checkout.antt =====
-- The storefront's ordering surface (apps/storefront/components/ordering).
pub mod Defs
pub mod Submit
pub mod Steps
pub mod Keys
pub mod Placing
pub mod Retry
pub mod Tracker
pub mod Picker
pub mod Selection
pub mod Composition
mod Tests
mod PickerTests
