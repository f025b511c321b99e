-- ===== src/Cache/Lru/Order.antt =====
-- src/LRU/lru.cpp: the map and the list agree, nothing faults, and the order is the order of use.
use rexio.Base.{
  ℕ, ◌≤◌, ◌<◌, ◌≡◌, refl, sym, ap, ◌==◌, inl, inr, none, some, ◌∷◌, length, arith, Option-cases,
  Bool-cases, true, false,
}
use rexio.Outcome.{ok}
use rexio.Cache.Nodes.{ReadNode, Cell, update, pop_back}
use rexio.Cache.Nodes.Laws.{
  at, Falls, Distinct, find_key, erase_key, find_addr-find_key, erase_addr-erase_key,
  find_key-erase_key, find_key-key, length-erase_key, Falls-erase_key, Distinct-erase_key, Ends,
  nonempty-Ends, Falls-pop_back, Distinct-pop_back,
}
use rexio.Cache.Nodes.View.{
  view, payload?, lookup, promote, store, view-find_key, view-erase_key, store-fits, store-full,
  store-cached,
}
use rexio.Cache.Lru.{to_int, LruCache, get, put, push_front, make_room, erase}

pub record IsValid {ℓ} {D : Type ℓ} (c : LruCache D) : Type ℓ where
  pub falls : Falls c.next c.cache
  pub distinct : Distinct to_int c.cache
  pub mapped : (k : ℕ) → c.hash_map k ≡ at (find_key to_int k c.cache)
  pub bounded : length c.cache ≤ c.capacity

module _ {ℓ} {D : Type ℓ} where
  pub push_front-IsValid :
      (c : LruCache D) (page : ℕ) (n : ReadNode D)
      → to_int n.page_id ≡ to_int page
      → Falls c.next c.cache
      → Distinct to_int c.cache
      → find_key to_int (to_int page) c.cache ≡ none
      → ((k : ℕ) → update c.hash_map (to_int page) none k ≡ at (find_key to_int k c.cache))
      → length c.cache < c.capacity
      → IsValid (push_front c page n)
  unfolding push_front update find_key
  push_front-IsValid c page n same falls distinct absent mapped room = record {
    falls = (omega arith, falls);
    distinct = (ground arith, distinct);
    mapped = λ k. ground (arith, mapped k);
    bounded = omega arith;
  }

  -- A use of a cached page: its old node leaves the list, and a new one enters at the front.
  touch-IsValid :
      (c : LruCache D) (page : ℕ) (n : ReadNode D) (e : Cell D)
      → IsValid c
      → to_int n.page_id ≡ to_int page
      → find_key to_int (to_int page) c.cache ≡ some e
      → IsValid (push_front (record c { cache = erase_key to_int (to_int page) c.cache }) page n)
  unfolding update
  touch-IsValid c page n e v same hit =
      let k = to_int page in
      push_front-IsValid (record c { cache = erase_key to_int k c.cache }) page n same
        (Falls-erase_key to_int k c.next c.cache v.falls)
        (Distinct-erase_key to_int k c.cache v.distinct)
        (ground (arith, find_key-erase_key to_int k k c.cache v.distinct))
        (λ q. ground (arith, v.mapped q, find_key-erase_key to_int k q c.cache v.distinct))
        (omega (arith, v.bounded, length-erase_key to_int k c.cache e hit))

  -- `get` never faults on a valid cache, returns what is stored under the page, moves that page to
  -- the front, changes nothing else, and keeps the cache valid.
  pub get_lem :
      (c : LruCache D) (page : ℕ)
      → IsValid c
      → (c' : LruCache D) × (get c page
          ≡ ok (c', payload? (lookup to_int (to_int page) (view c.cache))))
        × IsValid c'
        × (view c'.cache ≡ promote to_int (to_int page) (view c.cache))
        × (c'.capacity ≡ c.capacity)
  unfolding get promote push_front erase
  get_lem c page v = elim (Option-cases (find_key to_int (to_int page) c.cache)) [
    | inl miss ↦ (
      c,
      ground (arith, v.mapped (to_int page), view-find_key to_int (to_int page) c.cache),
      v,
      ground (arith, view-find_key to_int (to_int page) c.cache),
      refl,
    )
    | inr (e, hit) ↦
        let k = to_int page in
        let reads = view-find_key to_int k c.cache in
        let found = find_addr-find_key to_int k c.next c.cache e v.falls hit in
        let erased = erase_addr-erase_key to_int k c.next c.cache e v.falls hit in
        (
          push_front (record c { cache = erase_key to_int k c.cache }) page e.node,
          rw (v.mapped k, hit, get, found, erased, reads, hit),
          touch-IsValid c page e.node e v (find_key-key to_int k c.cache e hit) hit,
          rw (promote, reads, hit, view-erase_key to_int k c.cache),
          refl,
        )
  ]

  -- What the list keeps when a page that is not cached has to come in.
  abbrev Admits : LruCache D → ℕ → ReadNode D → LruCache D → Type ℓ
  Admits c page n c' =
      (make_room c ≡ ok c')
      × IsValid (push_front c' page n)
      × (n ∷ view c'.cache ≡ store to_int c.capacity n (view c.cache))
      × (c'.capacity ≡ c.capacity)

  module _ (c : LruCache D) (page : ℕ) (n : ReadNode D) (v : IsValid c) (pos : 0 < c.capacity)
      (same : to_int n.page_id ≡ to_int page)
      (miss : find_key to_int (to_int page) c.cache ≡ none) where
    make_room-fits : (length c.cache == c.capacity) ≡ false → Admits c page n c
    unfolding make_room update
    make_room-fits room = (
      rw room,
      push_front-IsValid c page n same v.falls v.distinct miss (λ q. ground (arith, v.mapped q))
          (ground (arith, v.bounded)),
      sym (store-fits to_int c.capacity n c.cache (ground (arith, v.bounded)) (rw same miss)),
      refl,
    )

    make_room-full :
        (e : Cell D)
        → Ends to_int c.cache e
        → (length c.cache == c.capacity) ≡ true
        → (c' : LruCache D) × Admits c page n c'
    unfolding make_room update
    make_room-full e b full = (
      record c {
        hash_map = update c.hash_map (to_int e.node.page_id) none;
        cache = pop_back c.cache;
      },
      (
        rw (full, b.last),
        push_front-IsValid _ page n same (Falls-pop_back to_int c.next c.cache v.falls)
            (Distinct-pop_back to_int c.cache v.distinct) (ground (arith, b.rest (to_int page)))
            (λ q. ground (arith, v.mapped q, b.rest q)) (ground (arith, b.shorter)),
        sym (store-full to_int c.capacity n c.cache pos (ground arith) (rw same miss)),
        refl,
      ),
    )

    make_room_lem : (c' : LruCache D) × Admits c page n c'
    make_room_lem = elim (Bool-cases (length c.cache == c.capacity)) [
      | inr room ↦ (c, make_room-fits room)
      | inl full ↦
          let (e, b) = nonempty-Ends to_int c.cache v.distinct (ground arith) in
          make_room-full e b full
    ]

    put-miss :
        (c' : LruCache D) × (put c page n ≡ ok c')
        × IsValid c'
        × (view c'.cache ≡ store to_int c.capacity n (view c.cache))
        × (c'.capacity ≡ c.capacity)
    unfolding put push_front
    put-miss =
        let (c', (run, valid, reads, cap)) = make_room_lem in
        (push_front c' page n, rw (put, v.mapped (to_int page), miss, run), valid, reads, cap)

  -- `put` never faults on a valid cache that can hold a page: the page goes to the front, and of
  -- the others the first `capacity - 1` stay, so what leaves a full cache is the page used longest
  -- ago. The cache stays valid.
  pub put_lem :
      (c : LruCache D) (page : ℕ) (n : ReadNode D)
      → IsValid c
      → 0 < c.capacity
      → n.page_id ≡ page
      → (c' : LruCache D) × (put c page n ≡ ok c')
        × IsValid c'
        × (view c'.cache ≡ store to_int c.capacity n (view c.cache))
        × (c'.capacity ≡ c.capacity)
  unfolding put push_front erase
  put_lem c page n v pos same =
      let k = to_int page in
      let same_key = ap to_int same in
      elim (Option-cases (find_key to_int k c.cache)) [
        | inl miss ↦ put-miss c page n v pos same_key miss
        | inr (e, hit) ↦
            let found = find_addr-find_key to_int k c.next c.cache e v.falls hit in
            let erased = erase_addr-erase_key to_int k c.next c.cache e v.falls hit in
            (
              push_front (record c { cache = erase_key to_int k c.cache }) page n,
              rw (put, v.mapped k, hit, found, erased),
              touch-IsValid c page n e v same_key hit,
              rw (← same_key)
                  (sym (store-cached to_int c.capacity n c.cache e v.bounded (rw same_key hit))),
              refl,
            )
      ]
