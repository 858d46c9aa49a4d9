-- ===== src/Menu.antt =====
-- The menu workspace's item form and selection rules
-- (apps/control-center/src/menu/{itemForm,modifierRules}.ts).
mod Defs
pub mod Updates
pub mod Changes
pub mod Refusals
pub mod Tags
mod Tests
unfoldable pub use Defs.*
