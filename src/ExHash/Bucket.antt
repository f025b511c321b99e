-- ===== src/ExHash/Bucket.antt =====
-- src/MultiHash/ExtendibleHash/ExBucket.cpp: a bucket, in memory until it fills a page. The sizes are
-- `int` there and unbounded here.
use rexio.Base.{ℕ, ◌+◌, ◌-◌, leb, ◌==◌, not, if◌then◌else◌, Bool, none, some, List, [], ◌∷◌, ◌++◌}
use rexio.Backend.Nvm.{Nvm}
use rexio.Backend.Entry.{Entry, uint64_max, find, assign, erase, sort}
use rexio.Backend.State.{Io, ◌>>=◌, ◌>>◌, return, require}
use rexio.Backend.Reader.{ebucket_read}
use rexio.Backend.Writer.{single_bucket_write_ex}

pub record ExBucket : Type 0 where
  pub depth : ℕ
  pub size : ℕ
  pub maxsize : ℕ
  pub page_num : ℕ
  pub values : List Entry

unfoldable pub new_ex_bucket : ℕ → ℕ → ExBucket
new_ex_bucket depth msize = record {
  depth = depth;
  size = 0;
  maxsize = msize;
  page_num = uint64_max;
  values = [];
}

unfoldable pub ex_is_full : ExBucket → Bool
ex_is_full b = leb b.maxsize b.size

unfoldable pub ex_is_empty : ExBucket → Bool
ex_is_empty b = b.size == 0

unfoldable pub increase_depth : ExBucket → ExBucket
increase_depth b = record b { depth = b.depth + 1 }

-- A depth of 0 would become -1; `merge` asks for a depth above 1 first.
unfoldable pub decrease_depth : ExBucket → ExBucket
decrease_depth b = record b { depth = b.depth - 1 }

unfoldable pub allclear : ExBucket → ExBucket
allclear b = record b { values = []; size = 0 }

module _ (nvm : Nvm) where
  unfoldable pub page_write : ExBucket → Io nvm ExBucket
  unfolding sort single_bucket_write_ex
  page_write b = do
    page ← single_bucket_write_ex nvm (sort b.values) b.page_num
    return (record b { values = []; page_num = page })

  unfoldable pub ex_insert : ℕ → ℕ → ExBucket → Io nvm ExBucket
  unfolding find assign ex_is_full page_write
  ex_insert key value b = elim (find key b.values) [
    | some _ ↦ return (record b { values = assign key value b.values })
    | none ↦
        let e : Entry = record { key = key; val = value } in
        let b' : ExBucket = record b { values = b.values ++ e ∷ []; size = b.size + 1 } in
        if ex_is_full b' then page_write b' else return b'
  ]

  -- A page that is read stays in memory, and its entries are counted again.
  unfoldable pub ex_remove : ℕ → ExBucket → Io nvm ExBucket
  unfolding find erase ebucket_read
  ex_remove key b = elim b.values [
    | x ∷ xs ↦ elim (find key (x ∷ xs)) [
      | some _ ↦ return (record b { values = erase key (x ∷ xs); size = b.size - 1 })
      | none ↦ return b
    ]
    | [] ↦ do
      es ← ebucket_read nvm b.page_num
      elim (find key es) [
        | some _ ↦ return (record b { values = erase key es; size = b.size + b.maxsize - 1 })
        | none ↦ return (record b { values = es; size = b.size + b.maxsize })
      ]
  ]

  unfoldable pub ex_update : ℕ → ℕ → ExBucket → Io nvm ExBucket
  unfolding find assign ebucket_read page_write
  ex_update key value b = elim b.values [
    | x ∷ xs ↦ return (record b { values = assign key value (x ∷ xs) })
    | [] ↦ do
      es ← ebucket_read nvm b.page_num
      elim (find key es) [
        | some _ ↦ page_write (record b { values = assign key value es; size = b.size + b.maxsize })
        | none ↦ return (record b { values = es; size = b.size + b.maxsize })
      ]
  ]

  unfoldable pub ex_search : ℕ → ExBucket → Io nvm Entry
  unfolding find ebucket_read
  ex_search key b = elim b.values [
    | x ∷ xs ↦ elim (find key (x ∷ xs)) [
      | some e ↦ return e
      | none ↦ return (record { key = 0; val = 0 })
    ]
    | [] ↦ do
      require (not (b.page_num == uint64_max))
      es ← ebucket_read nvm b.page_num
      elim (find key es) [ some e ↦ return e | none ↦ return (record { key = key; val = 0 }) ]
  ]

  unfoldable pub get_data : ExBucket → Io nvm (List Entry)
  unfolding ebucket_read
  get_data b = elim b.values [
    | x ∷ xs ↦ return (x ∷ xs)
    | [] ↦ if b.page_num == uint64_max then return [] else ebucket_read nvm b.page_num
  ]
