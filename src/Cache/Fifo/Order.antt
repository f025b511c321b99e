-- ===== src/Cache/Fifo/Order.antt =====
-- src/FIFO/FIFO.cpp: the map and the list agree, nothing faults, and the order is that of arrival.
use rexio.Base.{
  ℕ, ◌≤◌, ◌<◌, ◌+◌, ◌≡◌, refl, sym, ◌==◌, inl, inr, none, some, List, ◌∷◌, length, arith,
  Option-cases, Bool-cases, true, false,
}
use rexio.Outcome.{ok}
use rexio.Cache.Nodes.{ReadNode, Cell, update, pop_back}
use rexio.Cache.Nodes.Laws.{
  at, Falls, Distinct, find_key, find_addr-find_key, Ends, nonempty-Ends, Falls-pop_back,
  Distinct-pop_back,
}
use rexio.Cache.Nodes.View.{view, payload?, lookup, store, view-find_key, store-fits, store-full}
use rexio.Cache.Fifo.{FifoCache, get, put, make_room, clear, new}

-- The map is keyed by the page number itself.
abbrev pub page : ℕ → ℕ
page p = p

pub record IsValid {ℓ} {D : Type ℓ} (c : FifoCache D) : Type ℓ where
  pub falls : Falls c.next c.rcache
  pub distinct : Distinct page c.rcache
  pub mapped : (k : ℕ) → c.hash_map k ≡ at (find_key page k c.rcache)
  pub bounded : length c.rcache ≤ c.capacity

module _ {ℓ} {D : Type ℓ} where
  pub clear-IsValid : (c : FifoCache D) (cap : ℕ) → IsValid (clear c cap)
  unfolding clear find_key
  clear-IsValid c cap = record {
    falls = tt;
    distinct = tt;
    mapped = λ k. refl;
    bounded = omega arith;
  }

  pub new-IsValid : (cap : ℕ) → IsValid (new {D = D} cap)
  unfolding new find_key
  new-IsValid cap = record { falls = tt; distinct = tt; mapped = λ k. refl; bounded = omega arith }

  -- `get` never faults on a valid cache, returns what is stored under the page, and changes
  -- nothing: a read does not renew a page.
  pub fifo_get_lem :
      (c : FifoCache D) (p : ℕ)
      → IsValid c
      → get c p ≡ ok (c, payload? (lookup page p (view c.rcache)))
  unfolding get
  fifo_get_lem c p v = elim (Option-cases (find_key page p c.rcache)) [
    | inl miss ↦ ground (arith, v.mapped p, view-find_key page p c.rcache)
    | inr (e, hit) ↦ ground (
      arith,
      v.mapped p,
      view-find_key page p c.rcache,
      find_addr-find_key page p c.next c.rcache e v.falls hit,
    )
  ]

  -- The last steps of `put`, for a cache with room.
  push : FifoCache D → ReadNode D → FifoCache D
  push c n = record c {
    rcache = record { addr = c.next; node = n } ∷ c.rcache;
    hash_map = update c.hash_map n.page_id (some c.next);
    next = c.next + 1;
  }

  push-IsValid :
      (c : FifoCache D) (n : ReadNode D)
      → Falls c.next c.rcache
      → Distinct page c.rcache
      → find_key page n.page_id c.rcache ≡ none
      → ((k : ℕ) → c.hash_map k ≡ at (find_key page k c.rcache))
      → length c.rcache < c.capacity
      → IsValid (push c n)
  unfolding push update find_key
  push-IsValid c n falls distinct absent mapped room = record {
    falls = (omega arith, falls);
    distinct = (ground arith, distinct);
    mapped = λ k. ground (arith, mapped k);
    bounded = omega arith;
  }

  -- What the list keeps when a page that is not cached has to come in.
  abbrev Admits : FifoCache D → ReadNode D → FifoCache D → Type ℓ
  Admits c n c' =
      (make_room c ≡ ok c')
      × IsValid (push c' n)
      × (n ∷ view c'.rcache ≡ store page c.capacity n (view c.rcache))
      × (c'.capacity ≡ c.capacity)

  module _ (c : FifoCache D) (n : ReadNode D) (v : IsValid c) (pos : 0 < c.capacity)
      (miss : find_key page n.page_id c.rcache ≡ none) where
    make_room-fits : (length c.rcache == c.capacity) ≡ false → Admits c n c
    unfolding make_room
    make_room-fits room = (
      rw room,
      push-IsValid c n v.falls v.distinct miss v.mapped (ground (arith, v.bounded)),
      sym (store-fits page c.capacity n c.rcache (ground (arith, v.bounded)) miss),
      refl,
    )

    make_room-full :
        (e : Cell D)
        → Ends page c.rcache e
        → (length c.rcache == c.capacity) ≡ true
        → (c' : FifoCache D) × Admits c n c'
    unfolding make_room update
    make_room-full e b full = (
      record c { hash_map = update c.hash_map e.node.page_id none; rcache = pop_back c.rcache },
      (
        rw (full, b.last),
        push-IsValid _ n (Falls-pop_back page c.next c.rcache v.falls)
            (Distinct-pop_back page c.rcache v.distinct) (ground (arith, b.rest n.page_id))
            (λ q. ground (arith, v.mapped q, b.rest q)) (ground (arith, b.shorter)),
        sym (store-full page c.capacity n c.rcache pos (ground arith) miss),
        refl,
      ),
    )

    make_room_lem : (c' : FifoCache D) × Admits c n c'
    make_room_lem = elim (Bool-cases (length c.rcache == c.capacity)) [
      | inr room ↦ (c, make_room-fits room)
      | inl full ↦
          let (e, b) = nonempty-Ends page c.rcache v.distinct (ground arith) in
          make_room-full e b full
    ]

  put-miss :
      (c : FifoCache D) (n : ReadNode D)
      → IsValid c
      → 0 < c.capacity
      → lookup page n.page_id (view c.rcache) ≡ none
      → (c' : FifoCache D) × (put c n.page_id n ≡ ok c')
        × IsValid c'
        × (view c'.rcache ≡ store page c.capacity n (view c.rcache))
        × (c'.capacity ≡ c.capacity)
  unfolding put push
  put-miss c n v pos absent =
      let miss : find_key page n.page_id c.rcache ≡ none =
        ground (arith, view-find_key page n.page_id c.rcache, absent) in
      let (c', (run, valid, reads, cap)) = make_room_lem c n v pos miss in
      (push c' n, rw (put, v.mapped n.page_id, miss, run), valid, reads, cap)

  put-hit :
      (c : FifoCache D) (n r : ReadNode D) (p : ℕ)
      → IsValid c
      → lookup page p (view c.rcache) ≡ some r
      → put c p n ≡ ok c
  unfolding put
  put-hit c n r p v there = ground (arith, v.mapped p, view-find_key page p c.rcache)

  -- An arrival on a plain list: a page that is there already stays where it is, with its contents.
  unfoldable pub arrive : ℕ → ReadNode D → List (ReadNode D) → List (ReadNode D)
  arrive cap n l = elim (lookup page n.page_id l) [ none ↦ store page cap n l | some _ ↦ l ]

  -- `put` never faults on a valid cache with room for a page. A cached page changes nothing; another
  -- goes to the front, and of the others the first `capacity - 1` stay, so what leaves a full cache
  -- is the page that came first. The cache stays valid.
  pub fifo_put_lem :
      (c : FifoCache D) (n : ReadNode D)
      → IsValid c
      → 0 < c.capacity
      → (c' : FifoCache D) × (put c n.page_id n ≡ ok c')
        × IsValid c'
        × (view c'.rcache ≡ arrive c.capacity n (view c.rcache))
        × (c'.capacity ≡ c.capacity)
  unfolding arrive
  fifo_put_lem c n v pos = elim (Option-cases (lookup page n.page_id (view c.rcache))) [
    | inl absent ↦
        let (c', run, valid, reads, cap) = put-miss c n v pos absent in
        (c', run, valid, rw (arrive, absent) reads, cap)
    | inr (r, there) ↦ (c, put-hit c n r n.page_id v there, v, rw (arrive, there), refl)
  ]
