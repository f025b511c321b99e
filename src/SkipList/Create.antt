-- ===== src/SkipList/Create.antt =====
-- src/Ti-OCSSD/MemoryTier/MemTier.cpp `InsertNode`: the whole insertion.
use rexio.Base.{
  ℕ, suc, ◌+◌, ◌≤◌, ◌<◌, ◌≡◌, ◌≢◌, refl, sym, ap, ◌∙◌, ltb, if◌then◌else◌, Bool-cases, inl, inr,
  Option, none, some, List, [], ◌∷◌, arith,
}
use mathlib.Core.Path.{subst}
use rexio.Outcome.{ok}
use rexio.SkipList.{
  TskiplistNode, TncSkiplist, max_level1, descend_update, insert_new, search_node, set_node,
  tskiplist_node_creat,
}
use rexio.SkipList.Order.{All-map, last_lt, drop_lt, Chain}
use rexio.SkipList.Walk.{front, search_node_lem, IsValid, AllNe, AllCapped}
use rexio.SkipList.Link.{insert_order, Linked, link_lem}
use rexio.SkipList.Last.{last_lt-AllNe, last_lt-tall}
use rexio.SkipList.Insert.{Inserted, insert-Chain}
use rexio.SkipList.Keep.{
  All-insert_order, length-insert_order, Distinct-insert_order, Rises-insert_order,
}
use rexio.SkipList.Descend.{descend_update_lem}

module _ (sl : TncSkiplist) (k offset1 v : ℕ) (order : List ℕ) (valid : IsValid sl order) where
  -- The skip list with the new node, not linked yet.
  abbrev created : TncSkiplist
  created = set_node sl.next (tskiplist_node_creat k offset1 v) (record sl {
    next = sl.next + 1;
    number = sl.number + 1;
    level = if ltb sl.level v then v else sl.level;
  })

  -- Where the new node enters level `j`.
  abbrev entry : ℕ → ℕ
  entry j = last_lt sl k j sl.head order

  fresh : AllNe sl.next order
  fresh = All-map _ _ order (λ a low e. omega (arith, low, e)) valid.allocated

  head_other : sl.head ≢ sl.next
  head_other e = omega (arith, valid.head_allocated, e)

  created-old : (q : ℕ) → q ≢ sl.next → created.nodes q ≡ sl.nodes q
  unfolding set_node
  created-old q other = ground arith

  created-new : created.nodes sl.next ≡ tskiplist_node_creat k offset1 v
  unfolding set_node
  created-new = ground arith

  created-flag : (created.nodes sl.next).flag ≡ 1
  unfolding tskiplist_node_creat
  created-flag = ap (λ (n : TskiplistNode). n.flag) created-new

  created-offset : (created.nodes sl.next).offset ≡ offset1
  unfolding tskiplist_node_creat
  created-offset = ap (λ (n : TskiplistNode). n.offset) created-new

  entry-other : (j : ℕ) → entry j ≢ sl.next
  entry-other j = last_lt-AllNe sl k sl.next j sl.head order head_other fresh

  Linked-Inserted :
      (sl' : TncSkiplist)
      → Linked entry sl.next 0 v created sl'
      → Inserted sl sl' k sl.next v sl.head order
  unfolding tskiplist_node_creat
  Linked-Inserted sl' linked = record {
    forward_old = λ q j other. ground (arith, linked.forwards q j, created-old q other);
    forward_new =
        λ j low. ground (arith, linked.forwards sl.next j, created-old (entry j) (entry-other j));
    key_old = λ q other. ground (arith, linked.keys q, created-old q other);
    key_new = ground (arith, linked.keys sl.next, created-new);
    levels_old = λ q other. ground (arith, linked.max_levels q, created-old q other);
    levels_new = ground (arith, linked.max_levels sl.next, created-new);
  }

  capped-last :
      (j p : ℕ) (l : List ℕ) → AllCapped sl sl.level l → sl.level ≤ j → last_lt sl k j p l ≡ p
  unfolding last_lt
  capped-last j p [] all h = refl
  capped-last j p (a ∷ l) all h = ground (arith, all.0, capped-last j p l all.1)

  module _ (pos : 0 < v) (bound : v ≤ max_level1) where
    created-IsValid :
        (sl' : TncSkiplist)
        → Linked entry sl.next 0 v created sl'
        → IsValid sl' (insert_order sl k sl.next order)
    unfolding set_node
    created-IsValid sl' linked =
        let ins = Linked-Inserted sl' linked in
        let same_next : sl'.next ≡ sl.next + 1 = linked.next_kept in
        let same_head : sl'.head ≡ sl.head = linked.head_kept in
        let low_level : v ≤ sl'.level = ground (arith, linked.level_kept) in
        let old_level : sl.level ≤ sl'.level = ground (arith, linked.level_kept) in
        let old_head = ins.levels_old sl.head head_other in
        record {
          chain =
              subst (λ h. Chain sl' h (insert_order sl k sl.next order)) (sym same_head)
                (insert-Chain sl sl' k sl.next v sl.head order ins
                  (omega (arith, valid.head_levels)) valid.chain sl.head order head_other
                  (valid.off_head, valid.distinct) fresh valid.off_head valid.rises (λ _. sl.head)
                  (λ i. refl) (λ i h. refl) refl valid.chain);
          rises =
              Rises-insert_order sl sl' k sl.next v sl.head order ins order pos fresh valid.rises;
          bounded = omega (
            arith,
            length-insert_order sl sl' k sl.next v sl.head order ins order,
            valid.bounded,
            same_next,
          );
          head_levels = rw same_head (old_head ∙ valid.head_levels);
          head_key = rw same_head (ins.key_old sl.head head_other ∙ valid.head_key);
          head_flag = rw same_head (
              ground
                (arith, linked.flags sl.head, created-old sl.head head_other, valid.head_flag));
          capped =
              All-insert_order sl sl' k sl.next v sl.head order ins _ _ order
                (omega (arith, ins.levels_new))
                (λ a other low. omega (arith, low, ins.levels_old a other)) fresh valid.capped;
          level_fits = ground (arith, linked.level_kept, valid.level_fits);
          allocated = rw same_next (
              All-insert_order sl sl' k sl.next v sl.head order ins _ _ order (omega arith)
                (λ a other low. omega (arith, low)) fresh valid.allocated);
          head_allocated = rw same_head (omega (arith, same_next, valid.head_allocated));
          distinct =
              Distinct-insert_order sl sl' k sl.next v sl.head order ins order fresh valid.distinct;
          off_head = rw same_head (
              All-insert_order sl sl' k sl.next v sl.head order ins _ _ order
                (λ e. head_other (sym e)) (λ a other ne. ne) fresh valid.off_head);
        }

    -- The insertion never faults, given the update that the descent returns.
    insert_new_lem :
        (update : ℕ → Option ℕ)
        → ((j : ℕ) → j ≤ sl.level → update j ≡ some (entry j))
        → (sl' : TncSkiplist) × (insert_new k offset1 v update sl ≡ ok sl')
          × Linked entry sl.next 0 v created sl'
    unfolding insert_new
    insert_new_lem update known =
        link_lem entry _ sl.next 0 v created
          (λ j _ low. elim (Bool-cases (ltb j sl.level)) [
            | inl old ↦ ground (arith, known j)
            | inr new ↦ ground (arith, known j, capped-last j sl.head order valid.capped)
          ])
          (λ j _ _. entry-other j)
          (λ j _ low. ground (
            arith,
            entry-other j,
            last_lt-tall sl k j sl.head order (omega (arith, valid.head_levels)),
          ))

  -- The first node at or behind key `k` is then the new one.
  drop_lt-insert_order :
      (sl' : TncSkiplist)
      → Linked entry sl.next 0 v created sl'
      → (l : List ℕ) → AllNe sl.next l
      → front (drop_lt sl' k (insert_order sl k sl.next l)) ≡ some sl.next
  unfolding drop_lt insert_order
  drop_lt-insert_order sl' linked [] ne = ground (arith, (Linked-Inserted sl' linked).key_new)
  drop_lt-insert_order sl' linked (a ∷ l) ne = ground (
    arith,
    (Linked-Inserted sl' linked).key_new,
    (Linked-Inserted sl' linked).key_old a ne.0,
    drop_lt-insert_order sl' linked l ne.1,
  )

  -- An insertion behind the search: on a valid skip list below level 32, the descent and the linking
  -- never fault. The new list is valid in the order that has the new node before the first key that
  -- is not below its own, a search for the key ends at the new node, and that holds the offset.
  pub insert_lem :
      sl.level < max_level1
      → 0 < v
      → v ≤ max_level1
      → (q : ℕ) × (update : ℕ → Option ℕ) × (sl' : TncSkiplist) × (descend_update
            (suc sl.level)
            k
            sl
            sl.head
            (λ _. none)
          ≡ ok (q, update))
        × (q ≡ last_lt sl k 0 sl.head order)
        × (insert_new k offset1 v update sl ≡ ok sl')
        × IsValid sl' (insert_order sl k sl.next order)
        × (search_node sl' k ≡ ok (some sl.next))
        × ((sl'.nodes sl.next).key ≡ k)
        × ((sl'.nodes sl.next).flag ≡ 1)
        × ((sl'.nodes sl.next).offset ≡ offset1)
  insert_lem room pos bound =
      let (q, update, run, last, known, _) =
        descend_update_lem sl k sl.level sl.head order (λ _. none) valid.bounded
          (record {
            chain = valid.chain;
            rises = valid.rises;
            tall = omega (arith, valid.head_levels);
          }) in
      let (sl', run', linked) = insert_new_lem pos bound update known in
      let valid' = created-IsValid pos bound sl' linked in
      (
        q,
        update,
        sl',
        run,
        last,
        run',
        valid',
        search_node_lem sl' (insert_order sl k sl.next order) k valid'
            ∙ ap ok (drop_lt-insert_order sl' linked order fresh),
        (Linked-Inserted sl' linked).key_new,
        linked.flags sl.next ∙ created-flag,
        linked.offsets sl.next ∙ created-offset,
      )
