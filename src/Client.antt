-- ===== src/Client.antt =====
-- The API client's methods (packages/api-client/src).
pub mod Defs
mod Accounts
mod Businesses
pub mod Catalog
pub mod Modifiers
pub mod Hours
pub mod Media
pub mod Orders
mod Platform
mod Administration
mod Public
pub mod Calls
pub mod Guards
pub mod Scopes
pub mod Outcomes
mod Tests
pub mod Storefront
