-- ===== src/Base/Map.antt =====
-- Maps with unique keys in ascending order: `std::map`, `std::set` (a map to the unit type) and, as
-- no theorem depends on the order of iteration, `std::unordered_map` and `std::unordered_set`.
mod Defs
mod Sorted
mod Total
unfoldable pub use Defs.*
pub use Sorted.*
unfoldable pub use Total.*
