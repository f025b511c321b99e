-- ===== src/ExHash/Directory/Insert.antt =====
-- src/MultiHash/ExtendibleHash/ExHash.cpp `insert` and `search`, where the bucket of the key has room.
use rexio.Base.{ℕ, suc, ◌+◌, ◌%◌, ◌^◌, ◌<◌, ◌≡◌, ◌≢◌, refl, sym, ◌∙◌, false, some, arith}
use rexio.Base.Powers.{pow-pos}
use native.Mathlib.Decide.{ℕ_discrete}
use rexio.Outcome.{ok}
use rexio.Backend.Nvm.{Nvm}
use rexio.Backend.Entry.{Entry, find}
use rexio.Backend.State.{Ssd, ◌>>=◌, write_at}
use rexio.ExHash.Bucket.{ExBucket, ex_is_full, ex_insert, ex_search}
use rexio.ExHash.Directory.{Directory, set_bucket, hash, bucket_at, dir_insert, dir_search}
use rexio.ExHash.Directory.Places.{pointer, Place, IsValid}
use rexio.ExHash.Directory.Divide.{bucket_at_lem}
use rexio.ExHash.Values.{Stores, ex_insert_room, search_values, ex_search-Stores}

-- The place of a key.
abbrev pub place : Directory → ℕ → ℕ
place d key = key % 2 ^ d.global_depth

module _ (n : ℕ) (b b' : ExBucket) (d : Directory) (valid : IsValid d)
    (inside : n < 2 ^ d.global_depth) (here : Place d n b) (same : b'.depth ≡ b.depth) where
  -- The places of the bucket lead to its new value, the others where they led.
  pub own_Place :
      (i : ℕ)
      → i < 2 ^ d.global_depth
      → pointer d i ≡ pointer d n
      → Place (set_bucket (pointer d n) b' d) i b'
  unfolding set_bucket write_at
  own_Place i low own =
      let known = (valid.placed i low).1.known in
      record {
        held = ground arith;
        shallow = omega (arith, same, here.shallow);
        known = known;
        shared = λ j h. rw same (ground (arith, here.shared j h, here.shared i low));
      }

  pub other_Place :
      (i : ℕ) (c : ExBucket)
      → Place d i c
      → pointer d i ≢ pointer d n
      → Place (set_bucket (pointer d n) b' d) i c
  unfolding set_bucket write_at
  other_Place i c k other = record {
    held = ground (arith, k.held);
    shallow = k.shallow;
    known = k.known;
    shared = k.shared;
  }

  pub set_bucket-IsValid : IsValid (set_bucket (pointer d n) b' d)
  unfolding set_bucket
  set_bucket-IsValid = record {
    sized = valid.sized;
    placed = λ i low.
        let (c, k) = valid.placed i low in
        elim (ℕ_discrete (pointer d i) (pointer d n)) [
          | yes own ↦ (b', own_Place i low own)
          | no other ↦ (c, other_Place i c k other)
        ];
  }

module _ (nvm : Nvm) (d : Directory) (valid : IsValid d) (narrow : d.global_depth < 31) where
  pub place-lt : (key : ℕ) → place d key < 2 ^ d.global_depth
  place-lt key = let pos = pow-pos d.global_depth in grind arith

  pub hash_lem : (key : ℕ) (s : Ssd nvm) → hash nvm key d s ≡ ok (place d key, s)
  unfolding hash
  hash_lem key s = ground arith

  pub located :
      (key : ℕ) (b : ExBucket) (s : Ssd nvm)
      → Place d (place d key) b
      → bucket_at nvm (place d key) d s ≡ ok ((pointer d (place d key), b), s)
  located key b s here =
      bucket_at_lem nvm (place d key) d b s (omega (arith, valid.sized, place-lt key)) here.held

  pub dir_search_lem :
      (key : ℕ) (b : ExBucket) (s : Ssd nvm)
      → Place d (place d key) b
      → dir_search nvm key d s ≡ ex_search nvm key b s
  unfolding dir_search
  dir_search_lem key b s here = rw (dir_search, ◌>>=◌, hash_lem key s, located key b s here)

  pub dir_insert_open :
      (fuel key value : ℕ) (b b' : ExBucket) (s s' : Ssd nvm)
      → Place d (place d key) b
      → b.size < b.maxsize
      → ex_insert nvm key value b s ≡ ok (b', s')
      → dir_insert nvm (suc fuel) key value d s ≡ ok (set_bucket (pointer d (place d key)) b' d, s')
  unfolding dir_insert ex_is_full
  dir_insert_open fuel key value b b' s s' here room done =
      let open_ : ex_is_full b ≡ false = ground arith in
      rw (dir_insert, ◌>>=◌, hash_lem key s, located key b s here, open_, done)

module _ (nvm : Nvm) (d : Directory) (valid : IsValid d) (narrow : d.global_depth < 31)
    (fuel key value : ℕ) (b : ExBucket) (s : Ssd nvm) (here : Place d (place d key) b)
    (room : b.size + 1 < b.maxsize) where
  abbrev p : ℕ
  p = pointer d (place d key)

  inside : (q : ℕ) → place d q < 2 ^ d.global_depth
  inside q = place-lt nvm d valid narrow q

  put : (b' : ExBucket) × (ex_insert nvm key value b s ≡ ok (b', s)) × Stores key value b b'
  put = ex_insert_room nvm key value b s room

  abbrev after : Directory
  after = set_bucket p put.0 d

  after-IsValid : IsValid after
  after-IsValid =
      set_bucket-IsValid (place d key) b put.0 d valid (inside key) here put.2.depth_kept

  same_place : (q : ℕ) → place after q ≡ place d q
  unfolding set_bucket
  same_place q = refl

  after-narrow : after.global_depth < 31
  unfolding set_bucket
  after-narrow = narrow

  after_own :
      (q : ℕ) → pointer d (place d q) ≡ p → dir_search nvm q after s ≡ ex_search nvm q put.0 s
  after_own q own = dir_search_lem nvm after after-IsValid after-narrow q put.0 s (
      rw (same_place q) (
        own_Place (place d key) b put.0 d valid (inside key) here put.2.depth_kept (place d q)
          (inside q) own))

  after_other :
      (q : ℕ) → pointer d (place d q) ≢ p → dir_search nvm q after s ≡ dir_search nvm q d s
  after_other q other =
      let (c, k) = valid.placed (place d q) (inside q) in
      dir_search_lem nvm after after-IsValid after-narrow q c s (
        rw (same_place q) (
          other_Place (place d key) b put.0 d valid (inside key) here put.2.depth_kept (place d q) c
            k other))
      ∙ sym (dir_search_lem nvm d valid narrow q c s k)

  -- On a consistent directory below depth 31, an insertion into a bucket that stays below its size
  -- needs one call and no device: a search for the key then hands out the pair, a search for another
  -- key that the bucket held in memory hands out what it did, a search in another bucket ends as
  -- before, and the directory is consistent again.
  pub search-dir_insert :
      (d' : Directory) × (dir_insert nvm (suc fuel) key value d s ≡ ok (d', s))
      × IsValid d'
      × (dir_search nvm key d' s ≡ ok (record { key = key; val = value }, s))
      × ((q : ℕ) (e : Entry)
          → q ≢ key
          → pointer d (place d q) ≡ pointer d (place d key)
          → find q b.values ≡ some e
          → dir_search nvm q d' s ≡ ok (e, s))
      × ((q : ℕ)
          → pointer d (place d q) ≢ pointer d (place d key)
          → dir_search nvm q d' s ≡ dir_search nvm q d s)
  search-dir_insert = (
    after,
    dir_insert_open nvm d valid narrow fuel key value b put.0 s s here (omega arith) put.1,
    after-IsValid,
    after_own key refl ∙ ex_search-Stores nvm key value b put.0 s put.2,
    λ q e other own found.
        after_own q own
        ∙ search_values nvm q put.0 e s put.0.values refl (put.2.others q other ∙ found),
    after_other,
  )
