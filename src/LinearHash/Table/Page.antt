-- ===== src/LinearHash/Table/Page.antt =====
-- src/MultiHash/LinearHash/LiHash.cpp `Insert`, where the entry fills a page, and `Search` behind it:
-- the bucket is written to the next free page of the device and read back from it.
use rexio.Base.{
  ℕ, zero, suc, ◌+◌, ◌/◌, ◌%◌, ◌^◌, ◌<◌, ◌≡◌, ◌≢◌, refl, ap, ◌∙◌, leb, ◌==◌, true, false, some,
  List, [], ◌∷◌, ◌++◌, length, length-append, get_elem?, get_elem?-set_self, arith, if◌then◌else◌,
  none,
}
use rexio.Outcome.{ok}
use rexio.Backend.Nvm.{Nvm, Reliable}
use rexio.Backend.Entry.{Entry, AllWords, IsWords, uint64_max, find, insert_sorted, sort}
use rexio.Backend.State.{Ssd, ◌>>=◌, ◌>>◌, >>=-ok, return, write_at, calculate_page_capacity}
use rexio.Backend.Reader.{page_read}
use rexio.Backend.Eraser.{wrap_pointer, pointer_renew}
use rexio.Backend.Writer.{program_page, program_next, single_bucket_write_lh}
use rexio.Backend.Pages.{Accepts, programmed, counted, program_page_lem, page_read-programmed}
use rexio.LinearHash.Bucket.{LBucket, found_in, bucket_write, bucket_insert, bucket_retrival}
use rexio.LinearHash.Contents.{InMemory, extended}
use rexio.LinearHash.Table.{LinearHashTable, put_bucket, table_insert, table_search}
use rexio.LinearHash.Table.Places.{IsValid, home, home-lt}
use rexio.LinearHash.Table.Insert.{put_bucket-IsValid, table_insert_open, table_search_bucket}

-- Sorting keeps the entries, whatever order it gives to equal keys.
found_in-insert_sorted :
    (k : ℕ) (e : Entry) (es : List Entry)
    → (found_in k es).key ≡ k
    → (found_in k (insert_sorted e es)).key ≡ k
unfolding found_in find insert_sorted
found_in-insert_sorted k e [] h = ground arith
found_in-insert_sorted k e (x ∷ es) h = ground (arith, found_in-insert_sorted k e es)

found_in_inserted :
    (e : Entry) (es : List Entry) → (found_in e.key (insert_sorted e es)).key ≡ e.key
unfolding found_in find insert_sorted
found_in_inserted e [] = ground arith
found_in_inserted e (x ∷ es) = ground (arith, found_in_inserted e es)

found_in-sort :
    (n : ℕ) (e : Entry) (es : List Entry)
    → get_elem? es n ≡ some e
    → (found_in e.key (sort es)).key ≡ e.key
unfolding sort
found_in-sort n e [] h = absurd (cc h)
found_in-sort zero e (x ∷ es) h =
    let same : x.key ≡ e.key = ap (λ o. elim o [ none ↦ 0 | some x ↦ x.key ]) h in
    rw (← same) (found_in_inserted x (sort es))
found_in-sort (suc n) e (x ∷ es) h =
    found_in-insert_sorted e.key x (sort es) (found_in-sort n e es h)

length-insert_sorted : (e : Entry) (es : List Entry) → length (insert_sorted e es) ≡ suc (length es)
unfolding insert_sorted
length-insert_sorted e [] = refl
length-insert_sorted e (x ∷ es) = ground (arith, length-insert_sorted e es)

length-sort : (es : List Entry) → length (sort es) ≡ length es
unfolding sort
length-sort [] = refl
length-sort (e ∷ es) = omega (arith, length-insert_sorted e (sort es), length-sort es)

AllWords-insert_sorted :
    (e : Entry) (es : List Entry) → IsWords e → AllWords es → AllWords (insert_sorted e es)
unfolding insert_sorted
AllWords-insert_sorted e [] h hs = (h, tt)
AllWords-insert_sorted e (x ∷ es) h hs = ground (arith, AllWords-insert_sorted e es h hs.1)

AllWords-sort : (es : List Entry) → AllWords es → AllWords (sort es)
unfolding sort
AllWords-sort [] hs = tt
AllWords-sort (e ∷ es) hs = AllWords-insert_sorted e (sort es) hs.0 (AllWords-sort es hs.1)

module _ (nvm : Nvm) where
  -- The pointer of free sectors in the middle of its ring.
  abbrev pub advanced : ℕ → Ssd nvm → Ssd nvm
  advanced sectors c = record c {
    chunkusage =
        write_at c.chunkusage (c.sectorpointer / 4096)
          (c.chunkusage (c.sectorpointer / 4096) + sectors);
    gpt =
        write_at c.gpt (c.sectorpointer / 4096)
          (write_at (c.gpt (c.sectorpointer / 4096)) ((c.sectorpointer % 4096) / 4) true);
    sectorpointer = c.sectorpointer + sectors;
  }

  pub pointer_renew_inside :
      (sectors : ℕ) (c : Ssd nvm)
      → c.sectorpointer + sectors < 923648
      → pointer_renew nvm sectors c ≡ ok (tt, advanced sectors c)
  unfolding pointer_renew wrap_pointer
  pointer_renew_inside sectors c h =
      let open_ : leb 923648 (c.sectorpointer + sectors) ≡ false = ground arith in
      rw (pointer_renew, ◌>>=◌, ◌>>◌, wrap_pointer, open_)

  abbrev pub write_counted : Ssd nvm → Ssd nvm
  write_counted s = record s {
    counters = record s.counters { writecount = s.counters.writecount + 1 };
  }

  -- The backend behind the write of a bucket that has no page yet.
  abbrev pub stored : List Entry → Ssd nvm → Ssd nvm
  stored es s = advanced nvm.ws_min (programmed nvm es s.sectorpointer (write_counted s))

  program_next_inside :
      (reliable : Reliable nvm) (width : nvm.nsectr ≡ 4096) (es : List Entry) (c : Ssd nvm)
      (accepted : Accepts nvm es c.sectorpointer c)
      → c.sectorpointer + nvm.ws_min < 923648
      → program_next nvm es c
        ≡ ok ((c.sectorpointer, true), advanced nvm.ws_min (programmed nvm es c.sectorpointer c))
  unfolding program_next
  program_next_inside reliable width es c accepted ring =
      >>=-ok (program_page nvm es c.sectorpointer)
        (λ done.
          (if done then pointer_renew nvm nvm.ws_min else return tt)
          >> return (c.sectorpointer, done))
        (program_page_lem nvm reliable width es c.sectorpointer c accepted)
      ∙ rw (◌>>=◌, ◌>>◌, pointer_renew_inside nvm.ws_min (programmed nvm es c.sectorpointer c) ring)

  module _ (reliable : Reliable nvm) (width : nvm.nsectr ≡ 4096) (es : List Entry) (s : Ssd nvm)
      (accepted : Accepts nvm es s.sectorpointer s)
      (ring : s.sectorpointer + nvm.ws_min < 923648) where
    single_bucket_write_lh_new :
        single_bucket_write_lh nvm es uint64_max s ≡ ok (s.sectorpointer, stored es s)
    unfolding single_bucket_write_lh
    single_bucket_write_lh_new = rw (
      single_bucket_write_lh,
      ◌>>=◌,
      ◌>>◌,
      program_next_inside reliable width es (write_counted s) accepted ring,
    )

module _ (nvm : Nvm) (reliable : Reliable nvm) (width : nvm.nsectr ≡ 4096) (t : LinearHashTable)
    (valid : IsValid t) (k v : ℕ) (b : LBucket) (s : Ssd nvm)
    (there : get_elem? t.bucket_table (home t k) ≡ some b) (held : InMemory nvm b)
    (pageless : b.page_num ≡ uint64_max) (word : calculate_page_capacity nvm 16 < 2 ^ 64)
    (fills : b.size + 1 ≡ calculate_page_capacity nvm 16)
    (words : AllWords (extended nvm k v b).bucket)
    (accepted : Accepts nvm (sort (extended nvm k v b).bucket) s.sectorpointer s)
    (ring : s.sectorpointer + nvm.ws_min < 923648) where
  abbrev all : List Entry
  all = (extended nvm k v b).bucket

  abbrev after : Ssd nvm
  after = stored nvm (sort all) s

  abbrev written : LBucket
  written = record b { bucket = []; page_num = s.sectorpointer; size = b.size + 1 }

  bucket_insert_fills : bucket_insert nvm k v b s ≡ ok (written, after)
  unfolding bucket_insert bucket_write
  bucket_insert_fills =
      let same : (b.size + 1) % 2 ^ 64 ≡ b.size + 1 = omega arith in
      let meets : (b.size + 1 == calculate_page_capacity nvm 16) ≡ true = ground arith in
      rw (
        bucket_insert,
        same,
        meets,
        bucket_write,
        ◌>>=◌,
        pageless,
        single_bucket_write_lh_new nvm reliable width (sort all) s accepted ring,
        same,
      )

  length-all : length (sort all) ≡ calculate_page_capacity nvm 16
  length-all = omega (
    arith,
    length-sort all,
    length-append b.bucket (record { key = k; val = v } ∷ []),
    held.sized,
  )

  page_read_written : page_read nvm s.sectorpointer after ≡ ok (sort all, counted nvm after)
  page_read_written =
      page_read-programmed nvm reliable width (sort all) s.sectorpointer (write_counted nvm s)
        accepted length-all (AllWords-sort all words) after refl

  abbrev result : LinearHashTable
  result = put_bucket (home t k) written t

  result-bucket : get_elem? result.bucket_table (home t k) ≡ some written
  unfolding put_bucket
  result-bucket = get_elem?-set_self t.bucket_table (home t k) written (home-lt nvm t valid k)

  result-home : (q : ℕ) → home result q ≡ home t q
  unfolding put_bucket
  result-home q = refl

  retrival_written :
      (q : ℕ) → bucket_retrival nvm q written after ≡ ok (found_in q (sort all), counted nvm after)
  unfolding bucket_retrival
  retrival_written q =
      let page : (s.sectorpointer == uint64_max) ≡ false = ground arith in
      rw (bucket_retrival, page, ◌>>=◌, page_read_written)

  -- In a table whose numbers fit each other, let an entry fill its bucket, which has no page yet, and
  -- let a reliable device take the write of the bucket, short of the end of the ring of sectors: the
  -- table stays such a table, and a search for a key of the bucket, if it is not 0 and belongs there,
  -- reads the page and succeeds.
  pub search-insert_full :
      (t' : LinearHashTable) × (s' : Ssd nvm) × (table_insert nvm k v t s ≡ ok (t', s'))
      × IsValid t'
      × ((n : ℕ) (e : Entry)
          → get_elem? (b.bucket ++ (record { key = k; val = v }) ∷ []) n ≡ some e
          → home t e.key ≡ home t k
          → e.key ≢ 0
          → table_search nvm e.key t' s' ≡ ok (true, counted nvm s'))
  search-insert_full = (
    result,
    after,
    table_insert_open nvm t valid k v b written s after there
        (omega (arith, held.bounded, held.most)) bucket_insert_fills,
    put_bucket-IsValid (home t k) written t valid,
    λ n e inside same nonzero.
        let hit = found_in-sort n e all inside in
        table_search_bucket nvm result (put_bucket-IsValid (home t k) written t valid) e.key written
          (found_in e.key (sort all)) after (counted nvm after)
          (rw (result-home e.key, same) result-bucket) (retrival_written e.key)
        ∙ ap (λ h. ok (h, counted nvm after)) (ground (arith, hit)),
  )
