-- ===== src/MapObject.antt =====
-- The map of src/object/object.hpp, class `MapObject`: entries in insertion order, and one
-- open-addressing index from key hashes to entry positions. A reference to a key object is its
-- tag and value, which is all that the map reads of it. The write barrier `gcShade` and the
-- fields `frozen` and `moduleName` have no part in these operations.
mod Keys
mod Slots
mod Ops
pub mod Probe
pub mod Seat
pub mod Grow
pub mod Valid
pub mod Spec
pub mod Find
pub mod Append
pub mod Insert
pub mod Rebuild
pub mod Remove
pub mod History
mod Tests
unfoldable pub use Keys.*
unfoldable pub use Slots.*
unfoldable pub use Ops.*
