-- ===== src/Api.antt =====
-- Results of API calls and their failures (packages/api-client/src/{result,errors}.ts,
-- apps/control-center/src/api/{failure,failures}.ts).
mod Defs
pub mod Envelopes
mod Tests
unfoldable pub use Defs.*
