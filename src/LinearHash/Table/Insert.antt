-- ===== src/LinearHash/Table/Insert.antt =====
-- src/MultiHash/LinearHash/LiHash.cpp `Insert` and `Search`, where the bucket of the key has room.
use rexio.Base.{
  ℕ, ◌+◌, ◌^◌, ◌<◌, ◌≡◌, ◌≢◌, refl, sym, ap, ◌∙◌, ◌==◌, Bool, true, false, not, ◌&&◌, ◌||◌, some,
  get_elem?, length-set, get_elem?-set_self, get_elem?-set_ne, arith,
}
use native.Mathlib.Decide.{ℕ_discrete}
use rexio.Outcome.{ok}
use rexio.Backend.Nvm.{Nvm}
use rexio.Backend.Entry.{Entry}
use rexio.Backend.State.{Ssd, ◌>>=◌, calculate_page_capacity}
use rexio.LinearHash.Bucket.{LBucket, found_in, is_full, bucket_insert, bucket_retrival}
use rexio.LinearHash.Contents.{
  InMemory, extended, found_in-append, found_in_self, bucket_retrival-InMemory, extended-InMemory,
  bucket_insert_room,
}
use rexio.LinearHash.Table.{LinearHashTable, put_bucket, insert_at, table_insert, table_search}
use rexio.LinearHash.Table.Places.{IsValid, home, bucket_of_lem, home-lt}

-- The test at the end of `Search`.
abbrev pub is_hit : ℕ → Entry → Bool
is_hit key entry = not (((entry.key == 0) && (entry.val == 0)) || not (entry.key == key))

pub put_bucket-IsValid :
    (i : ℕ) (b : LBucket) (t : LinearHashTable) → IsValid t → IsValid (put_bucket i b t)
unfolding put_bucket
put_bucket-IsValid i b t valid = record {
  pos = valid.pos;
  twice = valid.twice;
  flags = valid.flags;
  based = omega (arith, valid.based, length-set t.bucket_table i b);
  paired = λ j h split. omega (arith, valid.paired j h split, length-set t.bucket_table i b);
}

module _ (nvm : Nvm) (t : LinearHashTable) (valid : IsValid t) where
  pub table_search_bucket :
      (q : ℕ) (b : LBucket) (e : Entry) (s s' : Ssd nvm)
      → get_elem? t.bucket_table (home t q) ≡ some b
      → bucket_retrival nvm q b s ≡ ok (e, s')
      → table_search nvm q t s ≡ ok (is_hit q e, s')
  unfolding table_search
  table_search_bucket q b e s s' there found =
      rw (table_search, ◌>>=◌, bucket_of_lem nvm t valid q s, there, found)

  pub insert_at_bucket :
      (i k v : ℕ) (b b' : LBucket) (s s' : Ssd nvm)
      → get_elem? t.bucket_table i ≡ some b
      → bucket_insert nvm k v b s ≡ ok (b', s')
      → insert_at nvm i k v t s ≡ ok (put_bucket i b' t, s')
  unfolding insert_at
  insert_at_bucket i k v b b' s s' there done = rw (insert_at, ◌>>=◌, there, done)

  pub table_insert_open :
      (k v : ℕ) (b b' : LBucket) (s s' : Ssd nvm)
      → get_elem? t.bucket_table (home t k) ≡ some b
      → b.size < b.bucket_max
      → bucket_insert nvm k v b s ≡ ok (b', s')
      → table_insert nvm k v t s ≡ ok (put_bucket (home t k) b' t, s')
  unfolding table_insert is_full
  table_insert_open k v b b' s s' there room done =
      let free : is_full b ≡ false = ground arith in
      rw (table_insert, ◌>>=◌, bucket_of_lem nvm t valid k s, there, free, there, done)

module _ (nvm : Nvm) (t : LinearHashTable) (valid : IsValid t) where
  module _ (k v : ℕ) (b : LBucket) (s : Ssd nvm)
      (there : get_elem? t.bucket_table (home t k) ≡ some b) (held : InMemory nvm b)
      (word : calculate_page_capacity nvm 16 < 2 ^ 64)
      (room : b.size + 1 < calculate_page_capacity nvm 16) where
    abbrev grown : LinearHashTable
    grown = put_bucket (home t k) (extended nvm k v b) t

    grown-bucket : get_elem? grown.bucket_table (home t k) ≡ some (extended nvm k v b)
    unfolding put_bucket
    grown-bucket = get_elem?-set_self t.bucket_table (home t k) _ (home-lt nvm t valid k)

    grown-home : (q : ℕ) → home grown q ≡ home t q
    unfolding put_bucket
    grown-home q = refl

    grown_other :
        (q : ℕ)
        → home t q ≢ home t k
        → get_elem? grown.bucket_table (home t q) ≡ get_elem? t.bucket_table (home t q)
    unfolding put_bucket
    grown_other q h = get_elem?-set_ne t.bucket_table _ (λ e. h (sym e))

    grown-IsValid : IsValid grown
    grown-IsValid = put_bucket-IsValid (home t k) _ t valid

    grown-InMemory : InMemory nvm (extended nvm k v b)
    grown-InMemory = extended-InMemory nvm k v b held room

    grown_search :
        (q : ℕ)
        → home t q ≡ home t k
        → table_search nvm q grown s ≡ ok (is_hit q (found_in q (extended nvm k v b).bucket), s)
    grown_search q same =
        table_search_bucket nvm grown grown-IsValid q (extended nvm k v b) _ s s
          (rw (grown-home q, same) grown-bucket)
          (bucket_retrival-InMemory nvm q (extended nvm k v b) s grown-InMemory)

    grown_found : k ≢ 0 → table_search nvm k grown s ≡ ok (true, s)
    grown_found pos =
        let e : Entry = record { key = k; val = v } in
        let self = found_in_self nvm e b.bucket in
        grown_search k refl ∙ ap (λ h. ok (h, s)) (ground (arith, self))

    grown_others : (q : ℕ) → q ≢ k → table_search nvm q grown s ≡ table_search nvm q t s
    unfolding table_search
    grown_others q other = elim (ℕ_discrete (home t q) (home t k)) [
      | yes same ↦
          grown_search q same
          ∙ ap (λ e. ok (is_hit q e, s)) (found_in-append nvm q _ b.bucket (λ e. other (sym e)))
          ∙ sym (
              table_search_bucket nvm t valid q b _ s s (rw same there)
                (bucket_retrival-InMemory nvm q b s held))
      | no differs ↦ rw (
        table_search,
        ◌>>=◌,
        bucket_of_lem nvm grown grown-IsValid q s,
        bucket_of_lem nvm t valid q s,
        grown-home q,
        grown_other q differs,
      )
    ]

    -- In a table whose numbers fit each other, an insertion into a bucket that stays below a page of
    -- entries under a key that is not 0 needs no device: a search for the key then succeeds, a search
    -- for any other key ends as before, and the table stays such a table.
    pub search-insert_room :
        k ≢ 0
        → (t' : LinearHashTable) × (table_insert nvm k v t s ≡ ok (t', s))
          × IsValid t'
          × (table_search nvm k t' s ≡ ok (true, s))
          × ((q : ℕ) → q ≢ k → table_search nvm q t' s ≡ table_search nvm q t s)
    search-insert_room nonzero = (
      grown,
      table_insert_open nvm t valid k v b (extended nvm k v b) s s there
          (omega (arith, held.bounded, held.most))
          (bucket_insert_room nvm k v b s (omega arith) (λ e. omega (arith, e))),
      grown-IsValid,
      grown_found nonzero,
      grown_others,
    )
