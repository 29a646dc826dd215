-- ===== src/Dict.antt =====
-- Go's `map[K]V`, as an association list with one entry for each key. Keys are texts, int64 or
-- uint64 numbers. `m[k] = v` replaces the entry in place, so `len(m)` is the length of the list.
mod Laws
pub mod Keys
pub mod Size
unfoldable pub use Laws.*
