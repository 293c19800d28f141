-- ===== src/BpTree/Remove.antt =====
-- bptree.cpp: `remove` and `remove_pos`. The letters are those of the source's comments.
pub mod Leaves
pub mod Inner
pub mod Down
pub mod Empty
pub mod Entry
pub mod Pair
pub mod Siblings
pub mod Cut
pub mod Roomy
pub mod Way
pub mod Index
pub mod Borrow
pub mod BorrowRight
pub mod Refill
