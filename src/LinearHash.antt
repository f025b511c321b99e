-- ===== src/LinearHash.antt =====
-- src/MultiHash/LinearHash: a hash table of buckets, each kept in memory until it fills a page. `Bucket`
-- and `Table` are the classes of LiHash.cpp; the workloads of `LHashPort` are not modelled.
pub mod Bucket
pub mod Contents
pub mod Table
