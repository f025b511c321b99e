-- ===== src/LinearHash/Bucket.antt =====
-- src/MultiHash/LinearHash/LiHash.cpp `LBucket`. The macro `OverflowPage` is not defined. A `size_t`
-- wraps at 2 ^ 64.
use rexio.Base.{
  ℕ, ◌+◌, ◌-◌, ◌%◌, ◌^◌, leb, ◌==◌, if◌then◌else◌, Bool, true, false, none, some, List, [], ◌∷◌,
  ◌++◌,
}
use rexio.Backend.Nvm.{Nvm}
use rexio.Backend.Entry.{Entry, uint64_max, find, assign, erase, sort}
use rexio.Backend.State.{Io, ◌>>=◌, ◌>>◌, return, require, exit_with, calculate_page_capacity}
use rexio.Backend.Reader.{page_read}
use rexio.Backend.Writer.{single_bucket_write_lh}

pub record LBucket : Type 0 where
  pub bucket : List Entry
  pub page_num : ℕ
  pub bucket_max : ℕ
  pub size : ℕ

unfoldable pub new_bucket : ℕ → LBucket
new_bucket maxsize = record { bucket = []; page_num = uint64_max; bucket_max = maxsize; size = 0 }

-- `size--`
abbrev pub decrease : ℕ → ℕ
decrease n = (n + (2 ^ 64 - 1)) % 2 ^ 64

-- `LHEntry{0, 0}`, which stands for a missing entry
abbrev pub no_entry : Entry
no_entry = record { key = 0; val = 0 }

-- `find`, and `no_entry` behind the end
unfoldable pub found_in : ℕ → List Entry → Entry
unfolding find
found_in key es = elim (find key es) [ none ↦ no_entry | some e ↦ e ]

unfoldable pub is_full : LBucket → Bool
is_full b = leb b.bucket_max b.size

-- `BucketErase(flag)`, whose flag is not read
unfoldable pub bucket_erase_all : LBucket → LBucket
bucket_erase_all b = record b { bucket = []; size = 0; page_num = uint64_max }

module _ (nvm : Nvm) where
  unfoldable pub bucket_write : LBucket → Io nvm LBucket
  unfolding sort single_bucket_write_lh
  bucket_write b = do
    page ← single_bucket_write_lh nvm (sort b.bucket) b.page_num
    return (record b { bucket = []; page_num = page })

  unfoldable pub bucket_insert : ℕ → ℕ → LBucket → Io nvm LBucket
  unfolding bucket_write calculate_page_capacity
  bucket_insert key1 val b =
      let e : Entry = record { key = key1; val = val } in
      let size' = (b.size + 1) % 2 ^ 64 in
      let b' : LBucket = record b { bucket = b.bucket ++ e ∷ []; size = size' } in
      if size' == calculate_page_capacity nvm 16 then bucket_write b' else return b'

  -- `BucketErase()`
  unfoldable pub bucket_erase : LBucket → Io nvm LBucket
  bucket_erase b = elim b.bucket [
    | [] ↦ return (record b { size = 0 })
    | _ ∷ _ ↦ do require false; return b
  ]

  unfoldable pub bucket_retrival : ℕ → LBucket → Io nvm Entry
  unfolding found_in page_read
  bucket_retrival key b = elim b.bucket [
    | [] ↦ elim (b.page_num == uint64_max) [
      | true ↦ return no_entry
      | false ↦ do es ← page_read nvm b.page_num; return (found_in key es)
    ]
    | x ∷ xs ↦ return (found_in key (x ∷ xs))
  ]

  -- The result is the code that the method returns, and the bucket.
  unfoldable pub value_delet : ℕ → LBucket → Io nvm (ℕ × LBucket)
  unfolding find erase page_read
  value_delet key b = elim b.bucket [
    | x ∷ xs ↦ elim (find key (x ∷ xs)) [
      | none ↦ return (1, b)
      | some _ ↦ return (0, record b { bucket = erase key (x ∷ xs); size = decrease b.size })
    ]
    | [] ↦ do
      es ← page_read nvm b.page_num
      let size' = (b.size + b.bucket_max) % 2 ^ 64
      elim (find key es) [
        | none ↦ return (1, record b { bucket = es; size = size' })
        | some _ ↦ return (0, record b { bucket = erase key es; size = decrease size' })
      ]
  ]

  -- True for the result 0, false for -1. A page is written back whether the key is in it or not.
  unfoldable pub value_update : ℕ → ℕ → LBucket → Io nvm (Bool × LBucket)
  unfolding find assign page_read bucket_write
  value_update key1 val b = elim b.bucket [
    | x ∷ xs ↦ elim (find key1 (x ∷ xs)) [
      | none ↦ return (false, b)
      | some _ ↦ return (true, record b { bucket = assign key1 val (x ∷ xs) })
    ]
    | [] ↦ do
      es ← page_read nvm b.page_num
      b' ← bucket_write (record b { bucket = assign key1 val es })
      return (true, b')
  ]

  -- `GetBucketRead`
  unfoldable pub get_bucket_read : LBucket → Io nvm (List Entry)
  unfolding page_read calculate_page_capacity
  get_bucket_read b = do
    require (b.size == calculate_page_capacity nvm 16)
    elim b.bucket [
      | x ∷ xs ↦ return (x ∷ xs)
      | [] ↦ if b.page_num == uint64_max then return [] else page_read nvm b.page_num
    ]

  unfoldable pub set_bucket_no : ℕ → LBucket → Io nvm LBucket
  set_bucket_no bucketno b =
      if b.page_num == uint64_max then return (record b { page_num = bucketno }) else exit_with 104
