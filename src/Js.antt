-- ===== src/Js.antt =====
-- What the program uses of JavaScript's values: numbers and parsed JSON.
mod Numbers
mod Values
mod Codecs
mod Rounding
mod Arrays
unfoldable pub use Numbers.*
pub use Values.*
pub use Codecs.*
pub use Rounding.*
pub use Arrays.*
