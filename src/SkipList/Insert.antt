-- ===== src/SkipList/Insert.antt =====
-- src/Ti-OCSSD/MemoryTier/MemTier.cpp `InsertNode`: a valid skip list with a new node is valid, in the
-- order that has the node before the first key that is not below its own.
use rexio.Base.{
  ℕ, ◌≤◌, ◌<◌, ◌≡◌, ◌≢◌, refl, sym, ap, ◌∙◌, ltb, ◌==◌, if◌then◌else◌, ◌&&◌, Bool-cases, inl, inr,
  some, List, [], ◌∷◌, arith, lt→ltb,
}
use mathlib.Core.Path.{subst}
use rexio.SkipList.Walk.{AllNe, Distinct}
use rexio.SkipList.{TncSkiplist}
use rexio.SkipList.Order.{last_lt, first, drop_lt, Links, Chain, Chain-Links, AllAbove, Rises}
use rexio.SkipList.Link.{insert_order}
use rexio.SkipList.Places.{
  insert_end, drop_end, insert_below, insert_far, drop_below, drop_far, last_below,
}
use rexio.SkipList.Last.{last_lt-AllNe, last_lt-above, last_lt-forward, Chain-Tails}

module _ (sl sl' : TncSkiplist) (k t v head : ℕ) (order : List ℕ) where
  -- Node `t` of `v` levels and key `k` stands behind the last nodes of its levels.
  pub record Inserted : Type 0 where
    pub forward_old :
        (q j : ℕ)
        → q ≢ t
        → (sl'.nodes q).forward j
          ≡ (if ltb j v && (q == last_lt sl k j head order) then some t else (sl.nodes q).forward j)
    pub forward_new :
        (j : ℕ) → j < v → (sl'.nodes t).forward j ≡ (sl.nodes (last_lt sl k j head order)).forward j
    pub key_old : (q : ℕ) → q ≢ t → (sl'.nodes q).key ≡ (sl.nodes q).key
    pub key_new : (sl'.nodes t).key ≡ k
    pub levels_old : (q : ℕ) → q ≢ t → (sl'.nodes q).max_level ≡ (sl.nodes q).max_level
    pub levels_new : (sl'.nodes t).max_level ≡ v

module _ (sl sl' : TncSkiplist) (k t v head : ℕ) (order : List ℕ)
    (ins : Inserted sl sl' k t v head order) where
  pub first_same : (i : ℕ) (l : List ℕ) → AllNe t l → first sl' i l ≡ first sl i l
  unfolding first
  first_same i [] ne = refl
  first_same i (a ∷ l) ne = ground (arith, ins.levels_old a ne.0, first_same i l ne.1)

  first-insert_order :
      (i p : ℕ) (l : List ℕ)
      → AllNe p l
      → AllNe t l
      → first sl' i (insert_order sl k t l)
        ≡ (if ltb i v && (p == last_lt sl k i p l) then some t else first sl i l)
  unfolding first insert_order last_lt
  first-insert_order i p [] ne fresh = ground (arith, ins.levels_new)
  first-insert_order i p (a ∷ l) ne fresh = elim (Bool-cases (ltb (sl.nodes a).key k)) [
    | inr far ↦ ground (arith, ins.levels_new, first_same i (a ∷ l) fresh)
    | inl below ↦ elim (Bool-cases (ltb i (sl.nodes a).max_level)) [
      | inl here ↦ ground (arith, ins.levels_old a fresh.0, last_lt-AllNe sl k p i a l ne.0 ne.1)
      | inr short ↦ ground (arith, ins.levels_old a fresh.0, first-insert_order i p l ne.1 fresh.1)
    ]
  ]

  -- Behind the keys below `k` nothing changes.
  after-Links :
      (q : ℕ) (l : List ℕ)
      → q ≢ t
      → head ≢ q
      → k ≤ (sl.nodes q).key
      → AllNe t l
      → Links sl q l
      → Links sl' q l
  after-Links q l other off above fresh links i tall = ground (
    arith,
    ins.forward_old q i other,
    ins.levels_old q other,
    last_lt-above sl k q i head order off above,
    first_same i l fresh,
    links i,
  )

  after-Chain :
      (q : ℕ) (l : List ℕ)
      → q ≢ t
      → head ≢ q
      → k ≤ (sl.nodes q).key
      → AllNe t l
      → AllNe head l
      → AllAbove sl k l
      → Chain sl q l
      → Chain sl' q l
  after-Chain q [] other off above fresh offs aboves c = after-Links q [] other off above fresh c
  after-Chain q (a ∷ l) other off above fresh offs aboves c = (
    after-Links q (a ∷ l) other off above fresh c.0,
    after-Chain a l fresh.0 (λ e. offs.0 (sym e)) aboves.0 fresh.1 offs.1 aboves.1 c.1,
  )

  before-Links :
      (p : ℕ) (l : List ℕ)
      → p ≢ t
      → AllNe p l
      → AllNe t l
      → ((i : ℕ) → i < (sl.nodes p).max_level → last_lt sl k i head order ≡ last_lt sl k i p l)
      → Links sl p l
      → Links sl' p (insert_order sl k t l)
  before-Links p l other ne fresh same links i tall = ground (
    arith,
    ins.forward_old p i other,
    ins.levels_old p other,
    first-insert_order i p l ne fresh,
    same i,
    links i,
  )

  AllAbove-weaken : (x y : ℕ) (l : List ℕ) → x ≤ y → AllAbove sl y l → AllAbove sl x l
  AllAbove-weaken x y [] h above = tt
  AllAbove-weaken x y (a ∷ l) h above = (omega (arith, above.0), AllAbove-weaken x y l h above.1)

  module _ (tall : v ≤ (sl.nodes head).max_level) (chain : Chain sl head order) where
    new-Links : (rest : List ℕ) → drop_lt sl k order ≡ rest → AllNe t rest → Links sl' t rest
    new-Links rest same fresh i h =
        let low : i < v = omega (arith, ins.levels_new) in
        ins.forward_new i low
        ∙ last_lt-forward sl k i head order (Chain-Links sl head order chain i (omega arith))
            (Chain-Tails sl k head order chain)
        ∙ ap (first sl i) same
        ∙ sym (first_same i rest fresh)

    pub insert-Chain :
        (p : ℕ) (l : List ℕ)
        → p ≢ t
        → Distinct (p ∷ l)
        → AllNe t l
        → AllNe head l
        → Rises sl l
        → (cur : ℕ → ℕ) → ((i : ℕ) → last_lt sl k i head order ≡ last_lt sl k i (cur i) l)
        → ((i : ℕ) → i < (sl.nodes p).max_level → cur i ≡ p)
        → drop_lt sl k order ≡ drop_lt sl k l
        → Chain sl p l
        → Chain sl' p (insert_order sl k t l)
    insert-Chain p [] other ne fresh offs rises cur same at_p dropped c =
        subst (Chain sl' p) (sym (insert_end sl k t)) (
          subst (Links sl' p) (insert_end sl k t) (
              before-Links p [] other tt tt
                (λ i h. same i ∙ ap (λ q. last_lt sl k i q []) (at_p i h)) c),
          new-Links [] (dropped ∙ drop_end sl k) tt,
        )
    insert-Chain p (a ∷ l) other ne fresh offs rises cur same at_p dropped c =
        let links =
          before-Links p (a ∷ l) other ne.0 fresh
            (λ i h. same i ∙ ap (λ q. last_lt sl k i q (a ∷ l)) (at_p i h)) c.0 in
        elim (Bool-cases (ltb (sl.nodes a).key k)) [
          | inl below ↦ subst (Chain sl' p) (sym (insert_below sl k t a l below)) (
            subst (Links sl' p) (insert_below sl k t a l below) links,
            insert-Chain a l fresh.0 ne.1 fresh.1 offs.1 rises.1.1
                (λ i. if ltb i (sl.nodes a).max_level then a else cur i)
                (λ i. same i ∙ last_below sl k i (cur i) a l below)
                (λ i h. rw (lt→ltb i (sl.nodes a).max_level h))
                (dropped ∙ drop_below sl k a l below) c.1,
          )
          | inr far ↦
              let above : k ≤ (sl.nodes a).key = ground arith in
              subst (Chain sl' p) (sym (insert_far sl k t a l far)) (
                subst (Links sl' p) (insert_far sl k t a l far) links,
                (
                  new-Links (a ∷ l) (dropped ∙ drop_far sl k a l far) fresh,
                  after-Chain a l fresh.0 (λ e. offs.0 (sym e)) above fresh.1 offs.1
                      (AllAbove-weaken k (sl.nodes a).key l above rises.1.0) c.1,
                ),
              )
        ]
