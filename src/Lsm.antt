-- ===== src/Lsm.antt =====
-- src/LSM-Tree: the merge queue, the in-memory buffer, the runs and levels, and the tree.
pub mod Merge
pub mod Buffer
pub mod Run
pub mod Tree
