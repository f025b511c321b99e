-- ===== src/Lib.antt =====
-- REXIO: key-value indexes on an open-channel SSD. The indexes (a two-tier skip-list index, hash tables,
-- LSM trees) keep pages of key-value pairs, and a common backend writes, reads and erases the pages
-- through liblightnvm.
--
-- Files:
-- Base: numbers, tests and lists. Outcome: how a C++ call ends.
-- Cache: the page caches. Cache/Lru is LRU/lru.cpp, Cache/Fifo is FIFO/FIFO.cpp; a `std::list` is
--   a list of nodes with addresses, and the hash map leads from page numbers to addresses.
-- Backend: Backend/SSDWrite/writer.cpp (Backend/Writer), Backend/SSDRead/reader.cpp
--   (Backend/Reader) and the ring of sectors and the erases of Backend/IODisk/WriteDisk.cpp
--   (Backend/Eraser). The global variables are the record `Ssd`, threaded through the monad `Io`.
-- Store: Ti-OCSSD/StoreTier/syncstore.cpp, the lower tier of the two-tier index: a buffered page, the
--   log of deleted offsets, and reads through the LRU cache.
-- SkipList: the skip lists of Ti-OCSSD/MemoryTier/Node.cpp and MemTier.cpp. Nodes stand in a store
--   under addresses, and a list of addresses in the order of the keys is what the pointers stand for.
-- MemTier: Ti-OCSSD/MemoryTier/MemTier.cpp, the hash table of skip lists, over SkipList and Store.
-- Lsm: the merge queue, the buffer, the runs and the levels (merge.cpp, buffer.cpp, run.cpp and
--   level.cpp of LSM-Tree/UtilityImplement), and the flush, the put and the reads of single keys of
--   LSM-Tree/LsmTree.cpp. A priority queue is a list, the greatest entry first; a set is a list in the
--   order of the keys.
-- LinearHash: MultiHash/LinearHash/LiHash.cpp. A bucket is a record of its entries in memory, its page
--   and its size; the table is the list of buckets with the two moduli and the flags of the split
--   buckets. An index behind the end of the vector or of the flags is undefined behaviour.
-- ExHash: MultiHash/ExtendibleHash/ExBucket.cpp and ExHash.cpp. The directory is a list of addresses,
--   and the buckets, which several places share, stand in a store. A shift of an `int` by 31 or more,
--   or by less than 0, is undefined. `split` and `insert` call each other on fuel, one unit for a call
--   of `insert`; an insertion into a bucket with room needs one, an insertion with one split two.
-- LazyHash: MultiHash/LazySplitHash/LSHash.cpp, buckets of entries in memory, and the reader
--   `LSBucketFromPage`. `Insert` and `Split` call each other on fuel; each nested split has at least
--   one entry less in the table, so the number of entries is enough. `1 << bits` is exact below
--   2 ^ 30 buckets, and the threshold counts tenths.
-- Parallel: the write mode and the read mode of Backend/SSDWrite/parallel_writer.cpp. The threads of a
--   batch stand in the order in which they are made; they write to different pages. The fuel of the
--   loops is the number of entries and of buffers: each round takes one at least.
-- NoFtl: LSMTree-NoFTL, the LSM tree whose runs are written through Parallel. Its buffer and its merge
--   queue are those of LSM-Tree, line for line, and are used from Lsm.
-- Tests: concrete runs.
-- The paths are below the folder `src` of the repository.
--
-- liblightnvm is third-party code and stands in the record `Nvm` as a parameter, with what it
-- documents of a device that works in `Reliable`. Words of 64 bits are unbounded where the code only
-- counts with them; the 32 bits of an offset, the 32 bits of the keys of the LRU map, the 16 bits of
-- the FIFO capacity and the bytes of a stored word are written out. The loops over the sectors of a
-- chunk run on fuel: their step is at least one sector, so the number of sectors is enough. A walk along
-- a level of a skip list has as much fuel as nodes were allocated, and meets each at most once. The
-- level of a new node grows to 32 at most.
--
-- `rand` and the memory of a new list's `number` are arguments. `assert`, `exit` and undefined
-- behaviour are results of their own, and so is a loop that runs out of fuel.
--
-- Not modelled: the range reads of the LSM trees and of their runs, which are declared and have no
-- body, the retrieval of the lazy-split hash, whose result nothing sets, the updates of the older
-- layout in Backend/IODisk/WriteDisk.cpp, the process and message-queue driver (main.cpp,
-- Ti-OCSSD/TiOCS.cpp), which only starts benchmarks, and the examples of liblightnvm.
pub mod Base
pub mod Outcome
pub mod Cache
pub mod Backend
pub mod Store
pub mod SkipList
pub mod MemTier
pub mod Lsm
pub mod LinearHash
pub mod ExHash
pub mod LazyHash
pub mod Parallel
pub mod NoFtl
pub mod Tests
