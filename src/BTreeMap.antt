-- ===== src/BTreeMap.antt =====
-- `std::collections::BTreeMap<String, _>`: the entries, and their laws.
pub mod Order
mod Defs
mod Laws
pub use Order.{compare_trans, compare_flip}
unfoldable pub use Defs.{BTreeMap, get, insert, remove, IsAscending}
pub use Laws.*
