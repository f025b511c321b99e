-- ===== src/LinearHash/Table.antt =====
-- src/MultiHash/LinearHash/LiHash.cpp `LinearHashTable`. `SplitFlag` is an array of 65535 flags, and a
-- read or write behind its end, or behind the end of the vector of buckets, is undefined. Products
-- of `h1` and `h2` are not reduced modulo 2 ^ 64: a table that large does not fit the memory.
pub mod Places
pub mod Insert
pub mod Share
pub mod Move
pub mod Split
pub mod Found
pub mod Page
pub mod Delete
use rexio.Base.{
  ℕ, zero, suc, ◌+◌, ◌-◌, ◌*◌, ◌%◌, ltb, leb, ◌==◌, if◌then◌else◌, Bool, true, false, not, ◌&&◌,
  ◌||◌, none, some, List, [], ◌∷◌, ◌++◌, length, get_elem?, set, replicate,
}
use rexio.Outcome.{Outcome, ok, fail, exit, unfinished}
use rexio.Backend.Nvm.{Nvm}
use rexio.Backend.Entry.{Entry}
use rexio.Backend.State.{
  Io, ◌>>=◌, ◌>>◌, return, demand, modulo, exit_with, write_at, calculate_page_capacity,
}
use rexio.LinearHash.Bucket.{
  LBucket, new_bucket, is_full, bucket_erase_all, bucket_insert, bucket_erase, bucket_retrival,
  value_delet, value_update, get_bucket_read,
}

pub record LinearHashTable : Type 0 where
  pub bucket_table : List LBucket
  pub h1 : ℕ
  pub h2 : ℕ
  pub split_flag : ℕ → Bool

-- A method that changes `BucketTable[i]` in place.
unfoldable pub put_bucket : ℕ → LBucket → LinearHashTable → LinearHashTable
put_bucket i b t = record t { bucket_table = set t.bucket_table i b }

module _ (nvm : Nvm) where
  unfoldable pub new_table : ℕ → Outcome LinearHashTable
  unfolding new_bucket calculate_page_capacity
  new_table initialsize =
      let table : LinearHashTable = record {
        bucket_table = replicate initialsize (new_bucket (calculate_page_capacity nvm 16));
        h1 = initialsize;
        h2 = 2 * initialsize;
        split_flag = λ _. false;
      } in
      if ltb initialsize 65536 then ok table else fail unfinished

  -- `SplitFlag[i]`
  unfoldable pub flag_at : ℕ → LinearHashTable → Io nvm Bool
  flag_at i t = demand (if ltb i 65535 then some (t.split_flag i) else none)

  -- `key % h1`, or `key % h2` if that bucket is split
  unfoldable pub bucket_of : ℕ → LinearHashTable → Io nvm ℕ
  unfolding flag_at
  bucket_of key t = do
    bucketno ← modulo key t.h1
    split ← flag_at bucketno t
    if split then modulo key t.h2 else return bucketno

  unfoldable pub table_double : LinearHashTable → LinearHashTable
  unfolding new_bucket calculate_page_capacity
  table_double t = record t {
    bucket_table = t.bucket_table ++ replicate t.h1 (new_bucket (calculate_page_capacity nvm 16));
  }

  -- One round of the loop of `split` over the old entries.
  unfoldable pub move_entry : Entry → LinearHashTable → Io nvm LinearHashTable
  unfolding table_double bucket_insert put_bucket
  move_entry e t = do
    bucketno ← modulo e.key t.h2
    let t' = if leb (length t.bucket_table) bucketno then table_double t else t
    b ← demand (get_elem? t'.bucket_table bucketno)
    b' ← bucket_insert nvm e.key e.val b
    return (put_bucket bucketno b' t')

  unfoldable pub move_entries : List Entry → LinearHashTable → Io nvm LinearHashTable
  unfolding move_entry
  move_entries [] t = return t
  move_entries (e ∷ es) t = do t' ← move_entry e t; move_entries es t'

  -- Whether the flags from `i` on, `n` of them, are set: the loop stops at the first that is not.
  unfoldable pub all_split : ℕ → ℕ → LinearHashTable → Io nvm Bool
  unfolding flag_at
  all_split zero i t = return true
  all_split (suc n) i t = do
    flag ← flag_at i t
    elim flag [ true ↦ all_split n (i + 1) t | false ↦ return false ]

  unfoldable pub split : ℕ → LinearHashTable → Io nvm LinearHashTable
  unfolding get_bucket_read bucket_erase flag_at put_bucket write_at move_entries all_split
  split split_bucket t = do
    b ← demand (get_elem? t.bucket_table split_bucket)
    old_bucket ← get_bucket_read nvm b
    b' ← bucket_erase nvm b
    _ ← flag_at split_bucket t
    t' ← move_entries old_bucket (record (put_bucket split_bucket b' t) {
      split_flag = write_at t.split_flag split_bucket true;
    })
    flag ← all_split t'.h1 0 t'
    elim flag [
      | true ↦ return (record t' { h1 = 2 * t'.h1; h2 = 2 * t'.h2; split_flag = λ _. false })
      | false ↦ return t'
    ]

  -- The end of `Insert`: the entry goes to the bucket with this number.
  unfoldable pub insert_at : ℕ → ℕ → ℕ → LinearHashTable → Io nvm LinearHashTable
  unfolding bucket_insert put_bucket
  insert_at bucketno key value t = do
    b ← demand (get_elem? t.bucket_table bucketno)
    b' ← bucket_insert nvm key value b
    return (put_bucket bucketno b' t)

  unfoldable pub table_insert : ℕ → ℕ → LinearHashTable → Io nvm LinearHashTable
  unfolding bucket_of is_full split insert_at
  table_insert key value t = do
    bucketno ← bucket_of key t
    b ← demand (get_elem? t.bucket_table bucketno)
    elim (is_full b) [
      | true ↦ do
        t' ← split bucketno t
        bucketno' ← modulo key t'.h2
        insert_at bucketno' key value t'
      | false ↦ insert_at bucketno key value t
    ]

  -- True for the result 0, false for -1.
  unfoldable pub table_search : ℕ → LinearHashTable → Io nvm Bool
  unfolding bucket_of bucket_retrival
  table_search key t = do
    bucketno ← bucket_of key t
    b ← demand (get_elem? t.bucket_table bucketno)
    entry ← bucket_retrival nvm key b
    return (not (((entry.key == 0) && (entry.val == 0)) || not (entry.key == key)))

  unfoldable pub judge : ℕ → LinearHashTable → Io nvm Bool
  unfolding calculate_page_capacity
  judge bucketno t = do
    let b2 = if ltb bucketno t.h1 then bucketno + t.h1 else bucketno - t.h1
    b ← demand (get_elem? t.bucket_table bucketno)
    b' ← demand (get_elem? t.bucket_table b2)
    return (leb (b.size + b'.size) (calculate_page_capacity nvm 16))

  -- `for(auto a:data) BucketTable[b1].Insert(a.key,a.val);`
  unfoldable pub insert_all : ℕ → List Entry → LinearHashTable → Io nvm LinearHashTable
  unfolding insert_at
  insert_all b1 [] t = return t
  insert_all b1 (a ∷ others) t = do t' ← insert_at b1 a.key a.val t; insert_all b1 others t'

  -- A split bucket and its pair become one again: `b2` gives its entries in memory to `b1`.
  unfoldable pub unsplit : ℕ → LinearHashTable → Io nvm LinearHashTable
  unfolding put_bucket bucket_erase_all write_at insert_all
  unsplit bucketno t = do
    let low = ltb bucketno t.h1
    let b1 = if low then bucketno else bucketno - t.h1
    let b2 = if low then bucketno + t.h1 else bucketno
    b ← demand (get_elem? t.bucket_table b2)
    insert_all b1 b.bucket (record (put_bucket b2 (bucket_erase_all b) t) {
      split_flag = write_at t.split_flag b1 false;
    })

  unfoldable pub table_delete : ℕ → LinearHashTable → Io nvm LinearHashTable
  unfolding bucket_of value_delet put_bucket flag_at judge unsplit
  table_delete key t = do
    bucketno ← bucket_of key t
    b ← demand (get_elem? t.bucket_table bucketno)
    (_, b') ← value_delet nvm key b
    let t' = put_bucket bucketno b' t
    flag ← flag_at bucketno t'
    elim flag [
      | false ↦ return t'
      | true ↦ do small ← judge bucketno t'; if small then unsplit bucketno t' else return t'
    ]

  -- A key that is missing in memory ends the program with `exit(0)`.
  unfoldable pub table_update : ℕ → ℕ → LinearHashTable → Io nvm LinearHashTable
  unfolding bucket_of value_update put_bucket
  table_update key val t = do
    bucketno ← bucket_of key t
    b ← demand (get_elem? t.bucket_table bucketno)
    (done, b') ← value_update nvm key val b
    if done then return (put_bucket bucketno b' t) else exit_with 0
