-- ===== src/Cache.antt =====
-- The two page caches of the store tier: src/LRU and src/FIFO. `Nodes` is the linked list that both
-- keep, `Lru` and `Fifo` are the classes, and the children of those hold the proofs.
pub mod Nodes
pub mod Lru
pub mod Fifo
