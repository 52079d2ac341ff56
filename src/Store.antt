-- ===== src/Store.antt =====
-- Maps as the hub keeps them in contract storage: association lists whose entries stand in the order
-- in which the hub iterates over them.
mod Keys
mod Maps
mod Entries
mod Ordered
pub use Keys.*
unfoldable pub use Maps.{save, remove}
pub use Maps.{
  lookup, Unique, sum_over, measure, lookup-save, lookup-remove, lookup-remove_ne,
  lookup-remove_self, Unique-save, Unique-remove, sum-save, sum-remove,
}
pub use Entries.*
pub use Ordered.{Above, Above-weaken, IsAscending, save-IsAscending, remove-IsAscending}
