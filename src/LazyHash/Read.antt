-- ===== src/LazyHash/Read.antt =====
-- src/Backend/SSDRead/reader.cpp `LSBucketFromPage` and the reads and updates of
-- src/MultiHash/LazySplitHash/LSHash.cpp.
use rexio.Base.{
  ℕ, zero, suc, ◌%◌, ◌==◌, if◌then◌else◌, not, Bool, true, none, some, List, [], ◌∷◌, length,
  get_elem?, take, drop,
}
use rexio.Outcome.{Outcome, ok, fail, undefined}
use rexio.Backend.Nvm.{Nvm}
use rexio.Backend.Codec.{of_bytes}
use rexio.Backend.Entry.{uint64_max}
use rexio.Backend.State.{Io, ◌>>=◌, ◌>>◌, return, require, calculate_page_capacity}
use rexio.Backend.Reader.{page_data_read}
use rexio.LazyHash.{LsEntry, LsBucket, LsHash, place, get_bits}

-- Three words of an entry, the last cut to the 8 bits of the flag.
unfoldable pub ls_decode_entry : List ℕ → LsEntry
unfolding of_bytes
ls_decode_entry bs = record {
  key1 = of_bytes (take 8 bs);
  val = of_bytes (take 8 (drop 8 bs));
  flag = of_bytes (take 8 (drop 16 bs)) % 256;
}

unfoldable pub ls_decode : ℕ → List ℕ → List LsEntry
unfolding ls_decode_entry
ls_decode zero bs = []
ls_decode (suc count) bs = ls_decode_entry bs ∷ ls_decode count (drop 24 bs)

module _ (nvm : Nvm) where
  unfoldable pub ls_bucket_from_page : ℕ → ℕ → Io nvm (List LsEntry)
  unfolding page_data_read ls_decode calculate_page_capacity
  ls_bucket_from_page page_num size = do
    require (not (page_num == uint64_max))
    bytes ← page_data_read nvm page_num
    return (ls_decode (if size == 0 then calculate_page_capacity nvm 24 else size) bytes)

  unfoldable pub b_data_read : LsBucket → Io nvm (List LsEntry)
  unfolding ls_bucket_from_page
  b_data_read b = ls_bucket_from_page b.page_num 0

-- `Update`, whose call on the bucket does nothing and returns 0; true for the result 0.
unfoldable pub ls_update : ℕ → ℕ → LsHash → Outcome Bool
unfolding place get_bits
ls_update key value t =
    let n = length t.bucket_list in
    elim (get_elem? t.bucket_list (place key (get_bits n) n)) [
      | none ↦ fail undefined
      | some b ↦ ok true
    ]
