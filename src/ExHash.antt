-- ===== src/ExHash.antt =====
-- src/MultiHash/ExtendibleHash: extendible hashing. `Bucket` is ExBucket.cpp, `Directory` is the class of
-- ExHash.cpp; the workloads of `EXHashing1` are not modelled.
pub mod Bucket
pub mod Values
pub mod Directory
