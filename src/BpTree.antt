-- ===== src/BpTree.antt =====
-- data_structure/bptree.cpp: a B+ tree in a file, its nodes named by their byte offsets.
pub mod Node
pub mod Search
pub mod Shape
pub mod Descent
pub mod Lookup
pub mod Relabel
pub mod Filing
pub mod Split
pub mod Growth
pub mod Insertion
pub mod Separators
pub mod Refinement
pub mod Demo
pub mod Arrays
pub mod Insert
pub mod Remove
mod Tests
