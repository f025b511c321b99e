-- ===== src/MemTier/Values.antt =====
-- src/Ti-OCSSD/MemoryTier/MemTier.cpp: what is inserted is found.
use rexio.Base.{
  ℕ, zero, suc, ◌+◌, ◌≤◌, ◌<◌, ◌≡◌, refl, ap, ◌∙◌, ltb, ◌==◌, true, false, none, some, [], ◌∷◌,
  arith, List, length, get_elem?, get_elem?-set_self,
}
use rexio.Outcome.{ok, fail, undefined, ◌>>=◌}
use rexio.SkipList.{TskiplistNode, TncSkiplist, max_level1, search_node, random_level}
use rexio.SkipList.Order.{last_lt, drop_lt}
use rexio.SkipList.Walk.{IsValid, front, search_node_lem}
use rexio.SkipList.Link.{insert_order}
use rexio.SkipList.Descend.{descend_update_lem}
use rexio.SkipList.Create.{insert_lem}
use rexio.SkipList.Level.{random_level_lem, descend_update-full}
use rexio.Backend.Nvm.{Nvm}
use rexio.Backend.State.{Ssd, calculate_page_capacity}
use rexio.Store.{StoreTier, sync_read}
use rexio.Store.Buffer as Buffer
use rexio.MemTier.{
  TncTree, bucket, low_bits, local_of, set_local, insert_node, insert_present, search, read_value,
  delete, delete_value,
}

get_elem?-lt {ℓ} :
    {A : Type ℓ} (xs : List A) (i : ℕ) (x : A) → get_elem? xs i ≡ some x → i < length xs
get_elem?-lt [] i x h = ground arith
get_elem?-lt (y ∷ xs) zero x h = omega arith
get_elem?-lt (y ∷ xs) (suc i) x h = omega (arith, get_elem?-lt xs i x h)

-- The last node below `k` has a key below `k`.
last_lt-key :
    (sl : TncSkiplist) (k i p : ℕ) (l : List ℕ)
    → (sl.nodes p).key < k
    → (sl.nodes (last_lt sl k i p l)).key < k
unfolding last_lt
last_lt-key sl k i p [] h = h
last_lt-key sl k i p (a ∷ l) h = ground (arith, last_lt-key sl k i a l, last_lt-key sl k i p l h)

-- No key is below 0.
last_lt-zero : (sl : TncSkiplist) (i p : ℕ) (l : List ℕ) → last_lt sl 0 i p l ≡ p
unfolding last_lt
last_lt-zero sl i p [] = refl
last_lt-zero sl i p (a ∷ l) = ground arith

-- A live node whose offset reads as its key's entry gives the value of that.
read_value-live :
    (nvm : Nvm) (key value : ℕ) (t : Ssd nvm) (s : StoreTier) (node : TskiplistNode) (o : ℕ)
    → node.flag ≡ 1
    → node.offset ≡ o
    → sync_read nvm o t s ≡ ok (record { key = key; val = value }, (s, t))
    → read_value nvm key node t s ≡ ok (value, (s, t))
unfolding read_value
read_value-live nvm key value t s node o live at_offset reads =
    let same : (key == key) ≡ true = ground arith in
    rw (read_value, live, at_offset, reads, ◌>>=◌, same)

module _ (nvm : Nvm) (tree : TncTree) (sl : TncSkiplist) (key : ℕ) (narrow : tree.globaldepth < 31)
    (here : get_elem? tree.global (low_bits tree key) ≡ some sl) where
  local_of-here : local_of tree key ≡ ok sl
  unfolding local_of bucket
  local_of-here =
      let shifts : ltb tree.globaldepth 31 ≡ true = ground (arith, narrow) in rw (shifts, here) refl

  local_of-set_local : (sl' : TncSkiplist) → local_of (set_local tree key sl') key ≡ ok sl'
  unfolding local_of set_local bucket
  local_of-set_local sl' =
      let shifts : ltb tree.globaldepth 31 ≡ true = ground (arith, narrow) in
      let placed =
        get_elem?-set_self tree.global (low_bits tree key) sl'
          (get_elem?-lt tree.global (low_bits tree key) sl here) in
      rw (shifts, placed) refl

  module _ (order : List ℕ) (valid : IsValid sl order) (rand_max : ℕ) (rands : ℕ → ℕ) (t : Ssd nvm)
      (s : StoreTier) (value : ℕ) where
    other : 0 < key → ((sl.nodes (last_lt sl key 0 sl.head order)).key == key) ≡ false
    other pos =
        let under = last_lt-key sl key 0 sl.head order (omega (arith, valid.head_key)) in
        ground (arith, under)

    -- In a table below depth 31, a pair with a key above 0 that is inserted while the buffered page has
    -- room, into a valid list below level 32, is found by the search; the list and the store tier
    -- stay valid.
    pub search-insert_node :
        sl.level < max_level1
        → 0 < key
        → Buffer.IsValid nvm s
        → calculate_page_capacity nvm 16 ≤ 1030
        → s.indexs < calculate_page_capacity nvm 16
        → (tree' : TncTree) × (s' : StoreTier) × (sl' : TncSkiplist) × (insert_node nvm rand_max
              rands key value t s tree
            ≡ ok (tree', s'))
          × (search nvm key t s' tree' ≡ ok (value, (s', t)))
          × (local_of tree' key ≡ ok sl')
          × IsValid sl' (insert_order sl key sl.next order)
          × Buffer.IsValid nvm s'
    unfolding insert_node search read_value
    search-insert_node low pos store fits room =
        let (_, update, sl', descends, last, inserts, valid', found, _, live, at_offset) =
          insert_lem sl key (s.offset + 1) (random_level rand_max rands) order valid low
            (random_level_lem rand_max rands).0 (random_level_lem rand_max rands).1 in
        let (s', stored, store', reads, _) =
          Buffer.sync_read-sync_write nvm t s key value store fits room in
        (
          set_local tree key sl',
          s',
          sl',
          rw (
            insert_node,
            local_of-here,
            ◌>>=◌,
            descends,
            ap (λ (n : ℕ). (sl.nodes n).key == key) last,
            other pos,
            stored,
            inserts,
          ),
          rw (search, local_of-set_local sl', ◌>>=◌, found)
              (read_value-live nvm key value t s' (sl'.nodes sl.next) (s.offset + 1) live at_offset
                reads),
          local_of-set_local sl',
          valid',
          store',
        )

    -- In a table below depth 31, an insertion under key 0 ends at the head, which has this key, and
    -- stores nothing.
    pub insert_node-zero :
        key ≡ 0
        → sl.level < max_level1
        → insert_node nvm rand_max rands key value t s tree ≡ ok (set_local tree key sl, s)
    unfolding insert_node insert_present
    insert_node-zero same low =
        let (_, _, descends, last, _, _) =
          descend_update_lem sl key sl.level sl.head order (λ _. none) valid.bounded
            (record {
              chain = valid.chain;
              rises = valid.rises;
              tall = omega (arith, valid.head_levels);
            }) in
        let head_node =
          last ∙ ap (λ k. last_lt sl k 0 sl.head order) same ∙ last_lt-zero sl 0 sl.head order in
        let found : ((sl.nodes sl.head).key == key) ≡ true = ground (arith, valid.head_key) in
        rw (
          insert_node,
          local_of-here,
          ◌>>=◌,
          descends,
          ap (λ (n : ℕ). (sl.nodes n).key == key) head_node,
          found,
          ◌>>=◌,
          head_node,
          insert_present,
          valid.head_flag,
        )

    -- In a table below depth 31, an insertion into a valid list that has reached level 32 reads behind
    -- the pointers of the head.
    pub insert_node-full :
        sl.level ≡ max_level1 → insert_node nvm rand_max rands key value t s tree ≡ fail undefined
    unfolding insert_node
    insert_node-full full =
        rw (
          insert_node,
          local_of-here,
          ◌>>=◌,
          descend_update-full sl key order (λ _. none) valid full,
        )

    -- In a table below depth 31, the deletion of a key above all keys of its list follows the null that
    -- the search returns.
    pub delete-missing : drop_lt sl key order ≡ [] → delete nvm key t s tree ≡ fail undefined
    unfolding delete delete_value
    delete-missing gone =
        let lost : search_node sl key ≡ ok none =
          search_node_lem sl order key valid ∙ ap (λ l. ok (front l)) gone in
        rw (delete, local_of-here, ◌>>=◌, delete_value, lost)
