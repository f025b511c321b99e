-- ===== src/ExHash/Directory.antt =====
-- src/MultiHash/ExtendibleHash/ExHash.cpp: the directory, a vector of pointers to buckets that several
-- entries may share. The buckets stand in a store under addresses, and `new` takes the next one. A
-- shift of an `int` by 31 or more, an index behind the end of the vector and a pointer to a deleted
-- bucket are undefined.
pub mod Pointers
pub mod Places
pub mod Divide
pub mod Insert
pub mod Fill
pub mod Halves
pub mod Full
pub mod Merge
use rexio.Base.{
  ℕ, zero, suc, ◌+◌, ◌-◌, ◌/◌, ◌%◌, ◌^◌, ltb, leb, ◌==◌, if◌then◌else◌, Bool, true, false, ◌&&◌,
  Option, none, some, List, [], ◌∷◌, ◌++◌, length, get_elem?, set, take,
}
use rexio.Outcome.{Outcome, ok, fail, undefined, unfinished}
use rexio.Backend.Nvm.{Nvm}
use rexio.Backend.Entry.{Entry}
use rexio.Backend.State.{Io, ◌>>=◌, ◌>>◌, return, demand, write_at}
use rexio.ExHash.Bucket.{
  ExBucket, new_ex_bucket, ex_is_full, ex_is_empty, increase_depth, decrease_depth, allclear,
  ex_insert, ex_remove, ex_update, ex_search, get_data,
}

pub record Directory : Type 0 where
  pub global_depth : ℕ
  pub bucket_size : ℕ
  pub buckets : List ℕ
  pub store : ℕ → Option ExBucket
  pub next : ℕ

-- `*p = b`
unfoldable pub set_bucket : ℕ → ExBucket → Directory → Directory
unfolding write_at
set_bucket p b d = record d { store = write_at d.store p (some b) }

-- The constructor: `n` new buckets.
unfoldable pub new_buckets : ℕ → ℕ → Directory → Directory
unfolding set_bucket new_ex_bucket
new_buckets zero depth d = d
new_buckets (suc n) depth d =
    new_buckets n depth (record (set_bucket d.next (new_ex_bucket depth d.bucket_size) d) {
      buckets = d.buckets ++ d.next ∷ [];
      next = d.next + 1;
    })

unfoldable pub new_directory : ℕ → ℕ → Outcome Directory
unfolding new_buckets
new_directory depth bucket_size =
    let start : Directory = record {
      global_depth = depth;
      bucket_size = bucket_size;
      buckets = [];
      store = λ _. none;
      next = 0;
    } in
    if ltb depth 31 then ok (new_buckets (2 ^ depth) depth start) else fail undefined

-- `bucket_no ^ bit` for a power of two: the bit is turned round.
unfoldable pub turn_bit : ℕ → ℕ → ℕ
turn_bit bucket_no bit = if bucket_no / bit % 2 == 0 then bucket_no + bit else bucket_no - bit

-- `delete(buckets[bucket_no])`
unfoldable pub delete_bucket : ℕ → Directory → Directory
unfolding write_at
delete_bucket p d = record d { store = write_at d.store p none }

module _ (nvm : Nvm) where
  -- `1 << depth`, of an `int`
  unfoldable pub shift : ℕ → Io nvm ℕ
  shift depth = demand (if ltb depth 31 then some (2 ^ depth) else none)

  -- `bucket_no ^ (1 << (depth - 1))`; a shift by -1 is undefined.
  unfoldable pub pair_index : ℕ → ℕ → Io nvm ℕ
  unfolding shift turn_bit
  pair_index bucket_no zero = λ _. fail undefined
  pair_index bucket_no (suc depth) = do bit ← shift depth; return (turn_bit bucket_no bit)

  -- `n & ((1 << global_depth) - 1)`
  unfoldable pub hash : ℕ → Directory → Io nvm ℕ
  hash n d = demand (if ltb d.global_depth 31 then some (n % 2 ^ d.global_depth) else none)

  -- `buckets[bucket_no]` and what it points to
  unfoldable pub bucket_at : ℕ → Directory → Io nvm (ℕ × ExBucket)
  bucket_at bucket_no d = do
    p ← demand (get_elem? d.buckets bucket_no)
    b ← demand (d.store p)
    return (p, b)

  -- The loop of `grow`: `buckets.push_back(buckets[i])` from `i` on, `n` times.
  unfoldable pub push_copies : ℕ → ℕ → List ℕ → Io nvm (List ℕ)
  push_copies zero i bs = return bs
  push_copies (suc n) i bs = do p ← demand (get_elem? bs i); push_copies n (i + 1) (bs ++ p ∷ [])

  unfoldable pub grow : Directory → Io nvm Directory
  unfolding push_copies shift
  grow d = do
    size ← shift d.global_depth
    bs ← push_copies size 0 d.buckets
    return (record d { buckets = bs; global_depth = d.global_depth + 1 })

  -- Whether some bucket has the depth of the directory.
  unfoldable pub any_deepest : List ℕ → Directory → Io nvm Bool
  any_deepest [] d = return false
  any_deepest (p ∷ ps) d = do
    b ← demand (d.store p)
    if b.depth == d.global_depth then return true else any_deepest ps d

  -- `shrink`, which no caller uses. A pop from an empty vector is undefined.
  unfoldable pub shrink : Directory → Io nvm Directory
  unfolding any_deepest shift
  shrink d = do
    flag ← any_deepest d.buckets d
    elim flag [
      | true ↦ return d
      | false ↦ elim d.global_depth [
        | zero ↦ λ _. fail undefined
        | suc depth ↦ do
          count ← shift depth
          demand (
              if leb count (length d.buckets)
              then some (record d {
                global_depth = depth;
                buckets = take (length d.buckets - count) d.buckets;
              })
              else none)
      ]
    ]

  -- `buckets[i] = p`
  unfoldable pub assign_at : ℕ → ℕ → List ℕ → Io nvm (List ℕ)
  assign_at i p bs = demand (if ltb i (length bs) then some (set bs i p) else none)

  -- `for (i = from - step; i >= 0; i -= step) buckets[i] = p`, on fuel
  unfoldable pub assign_down : ℕ → ℕ → ℕ → ℕ → List ℕ → Io nvm (List ℕ)
  unfolding assign_at
  assign_down zero from step p bs = λ _. fail unfinished
  assign_down (suc fuel) from step p bs = elim (ltb from step) [
    | true ↦ return bs
    | false ↦ do bs' ← assign_at (from - step) p bs; assign_down fuel (from - step) step p bs'
  ]

  -- `for (i = from + step; i < limit; i += step) buckets[i] = p`, on fuel
  unfoldable pub assign_up : ℕ → ℕ → ℕ → ℕ → ℕ → List ℕ → Io nvm (List ℕ)
  unfolding assign_at
  assign_up zero from step limit p bs = λ _. fail unfinished
  assign_up (suc fuel) from step limit p bs = elim (ltb (from + step) limit) [
    | false ↦ return bs
    | true ↦ do bs' ← assign_at (from + step) p bs; assign_up fuel (from + step) step limit p bs'
  ]

  -- Both loops of `split` and of `merge`. A step is at least 1, which bounds the rounds.
  unfoldable pub repoint : ℕ → ℕ → ℕ → ℕ → Directory → Io nvm Directory
  unfolding assign_down assign_up
  repoint from step dir_size p d = do
    bs ← assign_down (from + 1) from step p d.buckets
    bs' ← assign_up (dir_size + 1) from step dir_size p bs
    return (record d { buckets = bs' })

  -- `split` up to the loop that inserts the old entries again, which are the result.
  unfoldable pub split_directory : ℕ → Directory → Io nvm (List Entry × Directory)
  unfolding bucket_at increase_depth grow pair_index assign_at set_bucket new_ex_bucket get_data
      allclear repoint
  split_directory bucket_no d = do
    (p, b) ← bucket_at bucket_no d
    let local_depth = b.depth + 1
    let d₁ = set_bucket p (increase_depth b) d
    d₂ ← (if ltb d₁.global_depth local_depth then grow d₁ else return d₁)
    pair ← pair_index bucket_no local_depth
    bs ← assign_at pair d₂.next d₂.buckets
    let d₃ = record (set_bucket d₂.next (new_ex_bucket local_depth d₂.bucket_size) d₂) {
      buckets = bs;
      next = d₂.next + 1;
    }
    (p', b') ← bucket_at bucket_no d₃
    temp ← get_data nvm b'
    index_diff ← shift local_depth
    dir_size ← shift d₂.global_depth
    d₄ ← repoint pair index_diff dir_size d₂.next (set_bucket p' (allclear b') d₃)
    return (temp, d₄)

  unfoldable pub insert_entries :
      (ℕ → ℕ → Directory → Io nvm Directory) → List Entry → Directory → Io nvm Directory
  insert_entries insert [] d = return d
  insert_entries insert (e ∷ es) d = do d' ← insert e.key e.val d; insert_entries insert es d'

  -- `split` and `insert` call each other, on fuel: it runs out if no split separates the keys.
  unfoldable pub dir_insert : ℕ → ℕ → ℕ → Directory → Io nvm Directory
  unfolding hash bucket_at ex_is_full split_directory insert_entries ex_insert set_bucket
  dir_insert zero key value d = λ _. fail unfinished
  dir_insert (suc fuel) key value d = do
    bucket_no ← hash key d
    (p, b) ← bucket_at bucket_no d
    elim (ex_is_full b) [
      | true ↦ do
        (temp, d') ← split_directory bucket_no d
        d'' ← insert_entries (dir_insert fuel) temp d'
        dir_insert fuel key value d''
      | false ↦ do b' ← ex_insert nvm key value b; return (set_bucket p b' d)
    ]

  unfoldable pub merge : ℕ → Directory → Io nvm Directory
  unfolding bucket_at pair_index decrease_depth set_bucket delete_bucket assign_at repoint
  merge bucket_no d = do
    (p, b) ← bucket_at bucket_no d
    let local_depth = b.depth
    pair ← pair_index bucket_no local_depth
    index_diff ← shift local_depth
    dir_size ← shift d.global_depth
    (q, c) ← bucket_at pair d
    elim (c.depth == local_depth) [
      | false ↦ return d
      | true ↦ do
        bs ← assign_at bucket_no q d.buckets
        repoint bucket_no index_diff dir_size q
            (record (delete_bucket p (set_bucket q (decrease_depth c) d)) { buckets = bs })
    ]

  unfoldable pub dir_remove : ℕ → Directory → Io nvm Directory
  unfolding hash bucket_at ex_remove set_bucket ex_is_empty merge
  dir_remove key d = do
    bucket_no ← hash key d
    (p, b) ← bucket_at bucket_no d
    b' ← ex_remove nvm key b
    let d' = set_bucket p b' d
    if ex_is_empty b' && ltb 1 b'.depth then merge bucket_no d' else return d'

  unfoldable pub dir_update : ℕ → ℕ → Directory → Io nvm Directory
  unfolding hash bucket_at ex_update set_bucket
  dir_update key value d = do
    bucket_no ← hash key d
    (p, b) ← bucket_at bucket_no d
    b' ← ex_update nvm key value b
    return (set_bucket p b' d)

  -- `search` drops the entry that it finds, which is the result here.
  unfoldable pub dir_search : ℕ → Directory → Io nvm Entry
  unfolding hash bucket_at ex_search
  dir_search key d = do bucket_no ← hash key d; (_, b) ← bucket_at bucket_no d; ex_search nvm key b
