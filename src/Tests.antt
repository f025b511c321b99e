-- ===== src/Tests.antt =====
-- Concrete runs of the theorems.
mod Caches
mod Toy
mod Device
mod StoreTier
mod SkipLists
mod Lsm
mod LinearHash
mod ExHash
mod LazyHash
mod Parallel
mod NoFtl
