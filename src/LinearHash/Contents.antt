-- ===== src/LinearHash/Contents.antt =====
-- src/MultiHash/LinearHash/LiHash.cpp: buckets that are held in memory, what is found in them, and what
-- an insertion makes of them.
use rexio.Base.{
  ℕ, ◌+◌, ◌%◌, ◌^◌, ◌<◌, ◌≡◌, ◌≢◌, refl, ap, ◌==◌, false, List, [], ◌∷◌, ◌++◌, length,
  length-append, arith,
}
use rexio.Outcome.{ok}
use rexio.Backend.Nvm.{Nvm}
use rexio.Backend.Entry.{Entry, uint64_max, find}
use rexio.Backend.State.{Ssd, calculate_page_capacity}
use rexio.LinearHash.Bucket.{LBucket, found_in, bucket_insert, bucket_retrival}

module _ (nvm : Nvm) where
  -- A bucket that has room in memory. One without entries has no page, which would be read instead.
  pub record InMemory (b : LBucket) : Type 0 where
    pub sized : b.size ≡ length b.bucket
    pub bounded : b.size < calculate_page_capacity nvm 16
    pub most : b.bucket_max ≡ calculate_page_capacity nvm 16
    pub fresh : b.bucket ≡ [] → b.page_num ≡ uint64_max

  -- The bucket with one entry more.
  abbrev pub extended : ℕ → ℕ → LBucket → LBucket
  extended k v b = record b {
    bucket = b.bucket ++ (record { key = k; val = v }) ∷ [];
    size = b.size + 1;
  }

  pub found_in-append :
      (q : ℕ) (e : Entry) (es : List Entry) → e.key ≢ q → found_in q (es ++ e ∷ []) ≡ found_in q es
  unfolding found_in find
  found_in-append q e [] h = ground arith
  found_in-append q e (x ∷ es) h = ground (arith, found_in-append q e es h)

  -- The first entry with the key, which a new one at the end is if there is no other.
  pub found_in_self : (e : Entry) (es : List Entry) → (found_in e.key (es ++ e ∷ [])).key ≡ e.key
  unfolding found_in find
  found_in_self e [] = ground arith
  found_in_self e (x ∷ es) = ground (arith, found_in_self e es)

  module _ (q : ℕ) (b : LBucket) (s : Ssd nvm) (h : InMemory b) where
    retrival_of :
        (es : List Entry) → b.bucket ≡ es → bucket_retrival nvm q b s ≡ ok (found_in q b.bucket, s)
    unfolding bucket_retrival found_in find
    retrival_of [] e = rw (bucket_retrival, e, h.fresh e)
    retrival_of (x ∷ xs) e = rw (bucket_retrival, e)

    pub bucket_retrival-InMemory : bucket_retrival nvm q b s ≡ ok (found_in q b.bucket, s)
    bucket_retrival-InMemory = retrival_of b.bucket refl

  pub extended-InMemory :
      (k v : ℕ) (b : LBucket)
      → InMemory b
      → b.size + 1 < calculate_page_capacity nvm 16
      → InMemory (extended k v b)
  extended-InMemory k v b h room = record {
    sized = omega (arith, h.sized, length-append b.bucket (record { key = k; val = v } ∷ []));
    bounded = room;
    most = h.most;
    fresh = λ e.
        absurd
          (omega (arith, ap length e, length-append b.bucket (record { key = k; val = v } ∷ [])));
  }

  -- An insertion that does not fill a page only adds the entry.
  pub bucket_insert_room :
      (k v : ℕ) (b : LBucket) (s : Ssd nvm)
      → b.size + 1 < 2 ^ 64
      → b.size + 1 ≢ calculate_page_capacity nvm 16
      → bucket_insert nvm k v b s ≡ ok (extended k v b, s)
  unfolding bucket_insert
  bucket_insert_room k v b s word room =
      let same : (b.size + 1) % 2 ^ 64 ≡ b.size + 1 = omega arith in
      let differs : (b.size + 1 == calculate_page_capacity nvm 16) ≡ false = ground arith in
      rw (bucket_insert, same, differs)
