-- ===== src/NoFtl.antt =====
-- src/LSMTree-NoFTL: the LSM tree that writes its runs through the parallel coordinator. Its buffer and
-- its merge queue are those of src/LSM-Tree, line for line.
pub mod Run
pub mod Full
pub mod Tree
pub mod Flush
