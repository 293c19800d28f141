-- ===== src/BpTree/Split.antt =====
-- bptree.cpp: `split` keeps the shape of the tree.
pub mod Marks
pub mod Halves
pub mod Above
pub mod Whole
pub mod Room
pub mod Next
