-- ===== src/ExHash/Directory/Full.antt =====
-- src/MultiHash/ExtendibleHash/ExHash.cpp `insert`, where the bucket of the key is full: the split, the
-- loop that inserts the old entries again, and the insertion of the new one.
use rexio.Base.{
  ℕ, suc, ◌^◌, ◌≤◌, ◌<◌, ◌≡◌, ◌≢◌, refl, sym, ap, ◌∙◌, true, some, List, [], ◌∷◌, ◌++◌, arith,
}
use rexio.Outcome.{ok}
use rexio.Backend.Nvm.{Nvm}
use rexio.Backend.Entry.{Entry, find}
use rexio.Backend.State.{Ssd, ◌>>=◌}
use rexio.ExHash.Bucket.{ExBucket, ex_is_full, increase_depth, ex_search, get_data}
use rexio.ExHash.Directory.{Directory, dir_insert, dir_search, split_directory, insert_entries}
use rexio.ExHash.Directory.Places.{pointer, Place, IsValid, Divided, old_step, step, pair}
use rexio.ExHash.Directory.Divide.{bucket_at_lem, split_directory_lem}
use rexio.ExHash.Values.{search_values}
use rexio.ExHash.Directory.Insert.{place, place-lt, hash_lem, located}
use rexio.ExHash.Directory.Halves.{AllAgree, share, load-Divided, Room-Divided, leads_away}
use rexio.ExHash.Directory.Fill.{
  leads, load, leads-same, load-same, load-append, Holds, onto, Filled, insert_one,
  insert_entries-Filled,
}

module _ (nvm : Nvm) (d : Directory) (valid : IsValid d) (narrow : d.global_depth < 31) where
  search_held :
      (q : ℕ) (c : ExBucket) (s : Ssd nvm)
      → d.store (leads d q) ≡ some c
      → dir_search nvm q d s ≡ ex_search nvm q c s
  unfolding dir_search
  search_held q c s held =
      let at =
        bucket_at_lem nvm (place d q) d c s
          (omega (arith, valid.sized, place-lt nvm d valid narrow q)) held in
      rw (dir_search, ◌>>=◌, hash_lem nvm d valid narrow q s, at) refl

  search-Holds :
      (es : List Entry) (q : ℕ) (e : Entry) (s : Ssd nvm)
      → Holds d es
      → find q es ≡ some e
      → dir_search nvm q d s ≡ ok (e, s)
  search-Holds es q e s holds found =
      let (c, held, there) = holds q e found in
      search_held q c s held ∙ search_values nvm q c e s c.values refl there

module _ (nvm : Nvm) (d : Directory) (valid : IsValid d) (narrow : d.global_depth < 31)
    (fuel key value : ℕ) (b : ExBucket) (s s' : Ssd nvm) (es : List Entry) (d₁ d₂ d₃ : Directory)
    (here : Place d (place d key) b) (full : b.maxsize ≤ b.size)
    (split : split_directory nvm (place d key) d s ≡ ok ((es, d₁), s'))
    (filled : insert_entries nvm (dir_insert nvm fuel) es d₁ s' ≡ ok (d₂, s'))
    (last : dir_insert nvm fuel key value d₂ s' ≡ ok (d₃, s')) where
  dir_insert_full : dir_insert nvm (suc fuel) key value d s ≡ ok (d₃, s')
  unfolding dir_insert ex_is_full
  dir_insert_full =
      let closed : ex_is_full b ≡ true = ground arith in
      rw
        (
          dir_insert,
          ◌>>=◌,
          hash_lem nvm d valid narrow key s,
          located nvm d valid narrow key b s here,
          closed,
          split,
          filled,
          last,
        )
        refl

module _ (nvm : Nvm) (d : Directory) (valid : IsValid d) (narrow : d.global_depth < 30) (fuel : ℕ)
    (new : Entry) (b : ExBucket) (s s' : Ssd nvm) (es : List Entry)
    (here : Place d (place d new.key) b) (full : b.maxsize ≤ b.size)
    (kept : get_data nvm (increase_depth b) s ≡ ok (es, s'))
    (agree : AllAgree (place d new.key) (old_step (place d new.key) b) (es ++ new ∷ []))
    (fits : share (place d new.key) (step (place d new.key) b) (es ++ new ∷ []) < b.maxsize)
    (fits_pair : share (pair (place d new.key) b) (step (place d new.key) b) (es ++ new ∷ [])
      < d.bucket_size) where
  abbrev n : ℕ
  n = place d new.key

  inside : n < 2 ^ d.global_depth
  inside = place-lt nvm d valid (omega (arith, narrow)) new.key

  divided :
      (d' : Directory) × (split_directory nvm n d s ≡ ok ((es, d'), s'))
      × IsValid d'
      × Divided n b d d'
  divided = split_directory_lem nvm n b d s s' es valid narrow inside here kept

  abbrev d₁ : Directory
  d₁ = divided.0

  d₁-IsValid : IsValid d₁
  d₁-IsValid = divided.2

  a : Divided n b d d₁
  a = divided.3

  d₁-narrow : d₁.global_depth < 31
  d₁-narrow = ground (arith, a.deep, narrow)

  refilled :
      (d₂ : Directory) × (insert_entries nvm (dir_insert nvm (suc fuel)) es d₁ s' ≡ ok (d₂, s'))
      × Filled es (new ∷ []) (onto es []) d₁ d₂
  unfolding find
  refilled =
      insert_entries-Filled nvm fuel (new ∷ []) s' es [] d₁ d₁-IsValid d₁-narrow
        (Room-Divided n b d d₁ here a (es ++ new ∷ []) agree fits fits_pair)
        (λ q e h. absurd (cc h))

  abbrev d₂ : Directory
  d₂ = refilled.0

  d₂-narrow : d₂.global_depth < 31
  d₂-narrow = omega (arith, refilled.2.same_depth, d₁-narrow)

  inserted :
      (d₃ : Directory) × (dir_insert nvm (suc fuel) new.key new.val d₂ s' ≡ ok (d₃, s'))
      × Filled (new ∷ []) [] (new ∷ onto es []) d₂ d₃
  inserted =
      insert_one nvm d₂ refilled.2.valid d₂-narrow fuel new [] (onto es []) refilled.2.room
        refilled.2.holds s'

  abbrev d₃ : Directory
  d₃ = inserted.0

  d₃-IsValid : IsValid d₃
  d₃-IsValid = inserted.2.valid

  d₃-narrow : d₃.global_depth < 31
  d₃-narrow = omega (arith, inserted.2.same_depth, d₂-narrow)

  same_depth : d₃.global_depth ≡ d₁.global_depth
  same_depth = inserted.2.same_depth ∙ refilled.2.same_depth

  same_buckets : d₃.buckets ≡ d₁.buckets
  same_buckets = inserted.2.same_buckets ∙ refilled.2.same_buckets

  -- No entry goes to another bucket.
  no_load : (p : ℕ) → p ≢ d.next → p ≢ pointer d n → load d₁ p (es ++ new ∷ []) ≡ 0
  no_load p first second =
      let l = load-Divided n b d d₁ here a p (es ++ new ∷ []) agree in
      ground (arith, l, first, second)

  store_away : (p : ℕ) → p ≢ d.next → p ≢ pointer d n → d₃.store p ≡ d.store p
  store_away p first second =
      let none_ = no_load p first second in
      let same = a.store_after p in
      let sum = load-append d₁ p es (new ∷ []) in
      let last = load-same d₁ d₂ refilled.2.same_depth refilled.2.same_buckets p (new ∷ []) in
      inserted.2.away p (omega (arith, none_, sum, last))
      ∙ refilled.2.away p (omega (arith, none_, sum))
      ∙ ground (arith, same, first, second)

  away :
      (q : ℕ) → pointer d (place d q) ≢ pointer d n → dir_search nvm q d₃ s' ≡ dir_search nvm q d s'
  away q other =
      let (c, k) = valid.placed (place d q) (place-lt nvm d valid (omega (arith, narrow)) q) in
      let lead = leads-same d₁ d₃ same_depth same_buckets q ∙ leads_away n b d d₁ here a q other in
      let store = store_away (leads d q) (λ e. absurd (omega (arith, k.known, e))) other in
      search_held nvm d₃ d₃-IsValid d₃-narrow q c s' (ap d₃.store lead ∙ store ∙ k.held)
      ∙ sym (search_held nvm d valid (omega (arith, narrow)) q c s' k.held)

  -- On a consistent directory below depth 30 the bucket of the new key is full, its entries are read,
  -- from memory or from its page, and agree with the new key in the bits of the bucket, and in one bit
  -- more each half of them, the new one counted, stays below the size of its bucket. Then the
  -- insertion with fuel 2 succeeds with one split and the directory is consistent again; a search for
  -- the new key hands out the new value, a search for a key of the read entries the last one that has
  -- it, both without the device, and a search for a key of another bucket ends as before.
  pub search-dir_insert_full :
      (d' : Directory) × (dir_insert nvm (suc (suc fuel)) new.key new.val d s ≡ ok (d', s'))
      × IsValid d'
      × ((q : ℕ) (e : Entry)
          → find q (new ∷ onto es []) ≡ some e
          → dir_search nvm q d' s' ≡ ok (e, s'))
      × ((q : ℕ)
          → pointer d (place d q) ≢ pointer d (place d new.key)
          → dir_search nvm q d' s' ≡ dir_search nvm q d s')
  search-dir_insert_full = (
    d₃,
    dir_insert_full nvm d valid (omega (arith, narrow)) (suc fuel) new.key new.val b s s' es d₁ d₂
        d₃ here full divided.1 refilled.1 inserted.1,
    inserted.2.valid,
    λ q e.
        search-Holds nvm d₃ inserted.2.valid d₃-narrow (new ∷ onto es []) q e s' inserted.2.holds,
    away,
  )
