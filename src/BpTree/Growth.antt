-- ===== src/BpTree/Growth.antt =====
-- bptree.cpp: the part of `insert` that splits a full root. It does what two steps would: a node with
-- one child is put above the root, and that child is split.
pub mod Hoist
pub mod Root
