-- ===== src/Board.antt =====
-- The order board of the control center (apps/control-center/src/orders).
pub mod Orders
pub mod Page
pub mod Alerts
pub mod Confirming
mod Tests
