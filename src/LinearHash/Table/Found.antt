-- ===== src/LinearHash/Table/Found.antt =====
-- src/MultiHash/LinearHash/LiHash.cpp `split` and `Search`: the entries of a split bucket are found.
use rexio.Base.{
  ℕ, zero, suc, ◌+◌, ◌*◌, ◌%◌, ◌^◌, ◌≤◌, ◌<◌, ◌≡◌, ◌≢◌, ◌⊎◌, inl, inr, refl, sym, ap, ◌∙◌, ◌==◌,
  ==_refl, if◌then◌else◌, Bool, true, false, none, some, List, [], ◌∷◌, ◌++◌, length, length-append,
  get_elem?, get_elem?-get_or, Bool-cases, arith,
}
use rexio.Outcome.{ok}
use rexio.Backend.Nvm.{Nvm}
use rexio.Backend.Entry.{Entry, uint64_max, find}
use rexio.Backend.State.{Ssd, calculate_page_capacity}
use rexio.Backend.Reader.{page_read}
use rexio.LinearHash.Bucket.{LBucket, found_in}
use rexio.LinearHash.Contents.{InMemory, bucket_retrival-InMemory}
use rexio.LinearHash.Table.{LinearHashTable, split, table_search}
use rexio.LinearHash.Table.Places.{IsValid, home}
use rexio.LinearHash.Table.Insert.{table_search_bucket}
use rexio.LinearHash.Table.Share.{share, taken}
use rexio.LinearHash.Table.Move.{content}
use rexio.LinearHash.Table.Split.{emptied, last, HasRoom, HasSplit, split_lem}

found_in_behind :
    (k : ℕ) (xs ys : List Entry) → (found_in k ys).key ≡ k → (found_in k (xs ++ ys)).key ≡ k
unfolding found_in find
found_in_behind k [] ys h = h
found_in_behind k (x ∷ xs) ys h = ground (arith, found_in_behind k xs ys h)

key_same : (x e : Entry) → some x ≡ some e → x.key ≡ e.key
key_same x e h = ap (λ o. elim o [ none ↦ 0 | some x ↦ x.key ]) h

found_in-share :
    (m n : ℕ) (e : Entry) (es : List Entry)
    → get_elem? es n ≡ some e
    → (found_in e.key (share m (e.key % m) es)).key ≡ e.key
unfolding found_in find share
found_in-share m n e [] h = absurd (cc h)
found_in-share m zero e (x ∷ es) h = ground (arith, key_same x e h)
found_in-share m (suc n) e (x ∷ es) h = ground (arith, found_in-share m n e es h)

share_pos :
    (m n : ℕ) (e : Entry) (es : List Entry)
    → get_elem? es n ≡ some e
    → 0 < length (share m (e.key % m) es)
unfolding share
share_pos m n e [] h = absurd (cc h)
share_pos m zero e (x ∷ es) h = ground (arith, key_same x e h)
share_pos m (suc n) e (x ∷ es) h = ground (arith, share_pos m n e es h)

-- The upper halves of the buckets are there, or the split makes them.
abbrev pub Pairs : List Entry → LinearHashTable → Type 0
Pairs es t =
    (t.h2 ≤ length t.bucket_table)
    ⊎ ((length t.bucket_table ≡ t.h1) × (j : ℕ) × (t.h1 ≤ j) × (0 < length (share t.h2 j es)))

module _ (nvm : Nvm) (i : ℕ) (b : LBucket) (es : List Entry) (t t' : LinearHashTable)
    (valid : IsValid t) (below : i < t.h1) (a : HasSplit nvm i b es t t') where
  paired : Pairs es t → t.h2 ≤ length t'.bucket_table
  paired (inl h) = ground (arith, a.grown)
  paired (inr (based, j, above, some_)) = ground (arith, a.grown, a.reached j some_, valid.twice)

  h1_by : (c : Bool) → last i t ≡ c → t'.h1 ≡ (if c then 2 * t.h1 else t.h1)
  h1_by c h = a.h1_after ∙ ap (λ c. if c then 2 * t.h1 else t.h1) h

  h2_by : (c : Bool) → last i t ≡ c → t'.h2 ≡ (if c then 2 * t.h2 else t.h2)
  h2_by c h = a.h2_after ∙ ap (λ c. if c then 2 * t.h2 else t.h2) h

  flags_by :
      (c : Bool) (j : ℕ)
      → last i t ≡ c
      → t'.split_flag j ≡ (if c then false else (if j == i then true else t.split_flag j))
  flags_by c j h =
      a.flags_after j ∙ ap (λ c. if c then false else (if j == i then true else t.split_flag j)) h

  split-IsValid : Pairs es t → t.h1 ≤ 32767 → IsValid t'
  split-IsValid pairs small =
      let room = paired pairs in
      elim (Bool-cases (last i t)) [
        | inl h ↦
            let h1 = h1_by true h in
            let h2 = h2_by true h in
            record {
              pos = omega (arith, h1, valid.pos);
              twice = omega (arith, h1, h2, valid.twice);
              flags = omega (arith, h1);
              based = omega (arith, h1, room, valid.twice);
              paired = λ j low set. absurd (cc (set, flags_by true j h));
            }
        | inr h ↦
            let h1 = h1_by false h in
            let h2 = h2_by false h in
            record {
              pos = omega (arith, h1, valid.pos);
              twice = omega (arith, h1, h2, valid.twice);
              flags = omega (arith, h1);
              based = omega (arith, h1, room, valid.twice, valid.pos);
              paired = λ j low set. omega (arith, room, h2);
            }
      ]

  split-home : (q : ℕ) → q % t.h1 ≡ i → home t' q ≡ q % t.h2
  split-home q placed = elim (Bool-cases (last i t)) [
    | inl h ↦ rw (flags_by true (q % t'.h1) h) (ap (λ n. q % n) (h1_by true h ∙ sym valid.twice))
    | inr h ↦
        let low : q % t'.h1 ≡ i = ap (λ n. q % n) (h1_by false h) ∙ placed in
        rw (low, flags_by false i h, ==_refl i) (ap (λ n. q % n) (h2_by false h))
  ]

  module _ (most : b.bucket_max ≡ calculate_page_capacity nvm 16) (n : ℕ) (e : Entry)
      (in_page : get_elem? es n ≡ some e)
      (held : e.key % t.h2 ≢ i → InMemory nvm (content nvm t (e.key % t.h2)))
      (room : (if e.key % t.h2 == i then 0 else (content nvm t (e.key % t.h2)).size)
          + length (share t.h2 (e.key % t.h2) es)
        < calculate_page_capacity nvm 16) where
    abbrev old : LBucket
    old = if e.key % t.h2 == i then emptied b else content nvm t (e.key % t.h2)

    old-facts :
        (old.size ≡ length old.bucket)
        × (old.bucket_max ≡ calculate_page_capacity nvm 16)
        × (old.size ≡ (if e.key % t.h2 == i then 0 else (content nvm t (e.key % t.h2)).size))
    old-facts = elim (Bool-cases (e.key % t.h2 == i)) [
      | inl h ↦ rw h (refl, most, refl)
      | inr h ↦
          let differs : e.key % t.h2 ≢ i = ground arith in
          rw h ((held differs).sized, (held differs).most, refl)
    ]

    split-InMemory : InMemory nvm (taken (share t.h2 (e.key % t.h2) es) old)
    split-InMemory =
        let long = length-append old.bucket (share t.h2 (e.key % t.h2) es) in
        let pos = share_pos t.h2 n e es in_page in
        record {
          sized = omega (arith, old-facts.0, long);
          bounded = omega (arith, old-facts.2, room);
          most = old-facts.1;
          fresh = λ h. absurd (omega (arith, ap length h, long, pos));
        }

    split-search :
        Pairs es t
        → t.h1 ≤ 32767
        → e.key % t.h1 ≡ i
        → e.key ≢ 0
        → (s : Ssd nvm) → table_search nvm e.key t' s ≡ ok (true, s)
    split-search pairs small placed nonzero s =
        let c = content nvm t' (e.key % t.h2) in
        let inside = a.reached (e.key % t.h2) (share_pos t.h2 n e es in_page) in
        let holds : InMemory nvm c = rw (a.contents (e.key % t.h2)) split-InMemory in
        let hit : (found_in e.key c.bucket).key ≡ e.key =
          rw (a.contents (e.key % t.h2))
            (found_in_behind e.key old.bucket _ (found_in-share t.h2 n e es in_page)) in
        table_search_bucket nvm t' (split-IsValid pairs small) e.key c (found_in e.key c.bucket) s s
          (rw (split-home e.key placed) (get_elem?-get_or t'.bucket_table (e.key % t.h2) _ inside))
          (bucket_retrival-InMemory nvm e.key c s holds)
        ∙ ap (λ h. ok (h, s)) (ground (arith, hit))

-- In a table whose numbers fit each other, let a full bucket be split whose entries fill no bucket
-- on their way, and let every bucket below `h2` be there then. The table stays such a table, and a
-- search for a key of the page, if it is not 0 and belongs to the bucket, succeeds without the
-- device, provided that a bucket it moved to was held in memory.
pub search-split :
    (nvm : Nvm) (i : ℕ) (b : LBucket) (es : List Entry) (t : LinearHashTable) (s s' : Ssd nvm)
    → IsValid t
    → get_elem? t.bucket_table i ≡ some b
    → i < t.h1
    → b.bucket ≡ []
    → b.page_num ≢ uint64_max
    → b.size ≡ calculate_page_capacity nvm 16
    → b.bucket_max ≡ calculate_page_capacity nvm 16
    → page_read nvm b.page_num s ≡ ok (es, s')
    → calculate_page_capacity nvm 16 < 2 ^ 64
    → HasRoom nvm i es t
    → Pairs es t
    → t.h1 ≤ 32767
    → (n : ℕ) (e : Entry) → get_elem? es n ≡ some e
    → e.key % t.h1 ≡ i
    → e.key ≢ 0
    → (e.key % t.h2 ≢ i → InMemory nvm (content nvm t (e.key % t.h2)))
    → (t' : LinearHashTable) × (split nvm i t s ≡ ok (t', s'))
      × IsValid t'
      × (table_search nvm e.key t' s' ≡ ok (true, s'))
search-split nvm i b es t s s' valid there below stored paged full most read word room pairs small n
      e in_page placed nonzero held =
    let (t', run, a) =
      split_lem nvm i b es t s s' valid there below stored paged full read word room in
    (
      t',
      run,
      split-IsValid nvm i b es t t' valid below a pairs small,
      split-search nvm i b es t t' valid below a most n e in_page held
          (room (e.key % t.h2) (share_pos t.h2 n e es in_page)) pairs small placed nonzero s',
    )
