-- ===== src/HashMap.antt =====
-- std::collections::HashMap as the program uses it: an association list, whose order stands for
-- the table's unspecified iteration order. `insert` replaces the value of a present key.
mod Defs
pub mod Laws
pub mod Distinct
pub mod Measure
unfoldable pub use Defs.{HashMap, get, contains_key, insert, remove, retain, sum_values}
