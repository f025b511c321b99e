-- ===== src/ExHash/Values.antt =====
-- src/MultiHash/ExtendibleHash/ExBucket.cpp: the entries of a bucket in memory behind `Insert`.
use rexio.Base.{
  ℕ, ◌+◌, ◌<◌, ◌≤◌, ◌≡◌, ◌≢◌, inl, inr, refl, ◌==◌, if◌then◌else◌, false, none, some, List, [], ◌∷◌,
  ◌++◌, Bool-cases, Option-cases, arith,
}
use rexio.Outcome.{ok}
use rexio.Backend.Nvm.{Nvm}
use rexio.Backend.Entry.{Entry, find, assign}
use rexio.Backend.State.{Ssd}
use rexio.ExHash.Bucket.{ExBucket, ex_is_full, ex_insert, ex_search}

find-assign :
    (key value : ℕ) (es : List Entry) (e : Entry)
    → find key es ≡ some e
    → find key (assign key value es) ≡ some (record { key = key; val = value })
unfolding find assign
find-assign key value [] e h = absurd (cc h)
find-assign key value (x ∷ es) e h = elim (Bool-cases (x.key == key)) [
  | inl same ↦
      let e : x.key ≡ key = ground (arith, same) in
      rw (same, same) (λ i. some (record { key = e i; val = value }))
  | inr other ↦ rw (other, other) (find-assign key value es e (ground (arith, other)))
]

find-assign_ne :
    (q key value : ℕ) (es : List Entry) → q ≢ key → find q (assign key value es) ≡ find q es
unfolding find assign
find-assign_ne q key value [] h = refl
find-assign_ne q key value (x ∷ es) h = ground (arith, find-assign_ne q key value es h)

find-append :
    (q : ℕ) (e : Entry) (es : List Entry)
    → find q (es ++ e ∷ [])
      ≡ (elim (find q es) [ none ↦ (if e.key == q then some e else none) | some x ↦ some x ])
unfolding find
find-append q e [] = refl
find-append q e (x ∷ es) = ground (arith, find-append q e es)

-- `b'` is `b` with the value under the key.
pub record Stores (key value : ℕ) (b b' : ExBucket) : Type 0 where
  pub depth_kept : b'.depth ≡ b.depth
  pub stored : find key b'.values ≡ some (record { key = key; val = value })
  pub others : (q : ℕ) → q ≢ key → find q b'.values ≡ find q b.values
  pub grown_by : b'.size ≤ b.size + 1
  pub same_maxsize : b'.maxsize ≡ b.maxsize

module _ (nvm : Nvm) where
  pub ex_insert_room :
      (key value : ℕ) (b : ExBucket) (s : Ssd nvm)
      → b.size + 1 < b.maxsize
      → (b' : ExBucket) × (ex_insert nvm key value b s ≡ ok (b', s)) × Stores key value b b'
  unfolding ex_insert ex_is_full
  ex_insert_room key value b s room = elim (Option-cases (find key b.values)) [
    | inl absent ↦
        let e : Entry = record { key = key; val = value } in
        let b' : ExBucket = record b { values = b.values ++ e ∷ []; size = b.size + 1 } in
        let open_ : ex_is_full b' ≡ false = ground arith in
        (
          b',
          rw (ex_insert, absent, open_),
          record {
            depth_kept = refl;
            stored = rw (find-append key e b.values, absent) (ground arith);
            others = λ q h. ground (arith, find-append q e b.values);
            grown_by = omega arith;
            same_maxsize = refl;
          },
        )
    | inr (x, there) ↦ (
      record b { values = assign key value b.values },
      rw (ex_insert, there),
      record {
        depth_kept = refl;
        stored = find-assign key value b.values x there;
        others = λ q h. find-assign_ne q key value b.values h;
        grown_by = omega arith;
        same_maxsize = refl;
      },
    )
  ]

  pub search_values :
      (q : ℕ) (b : ExBucket) (e : Entry) (s : Ssd nvm) (es : List Entry)
      → b.values ≡ es
      → find q es ≡ some e
      → ex_search nvm q b s ≡ ok (e, s)
  unfolding ex_search find
  search_values q b e s [] same found = absurd (cc found)
  search_values q b e s (x ∷ xs) same found = rw (ex_search, same, found)

  pub ex_search-Stores :
      (key value : ℕ) (b b' : ExBucket) (s : Ssd nvm)
      → Stores key value b b'
      → ex_search nvm key b' s ≡ ok (record { key = key; val = value }, s)
  ex_search-Stores key value b b' s k = search_values key b' _ s b'.values refl k.stored
