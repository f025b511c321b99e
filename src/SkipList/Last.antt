-- ===== src/SkipList/Last.antt =====
-- src/Ti-OCSSD/MemoryTier/MemTier.cpp `InsertNode`: the nodes at which the descent leaves the levels.
use rexio.Base.{ℕ, ◌≤◌, ◌<◌, ◌≡◌, ◌≢◌, ap, ltb, Bool-cases, inl, inr, List, [], ◌∷◌, arith, ltb→lt}
use rexio.SkipList.{TncSkiplist}
use rexio.SkipList.Order.{last_lt, first, drop_lt, Chain, Chain-Links}
use rexio.SkipList.Walk.{AllNe}

module _ (sl : TncSkiplist) (k : ℕ) where
  pub last_lt-AllNe : (x i p : ℕ) (l : List ℕ) → p ≢ x → AllNe x l → last_lt sl k i p l ≢ x
  unfolding last_lt
  last_lt-AllNe x i p [] h ne = h
  last_lt-AllNe x i p (a ∷ l) h ne =
      ground (arith, last_lt-AllNe x i a l ne.0 ne.1, last_lt-AllNe x i p l h ne.1)

  pub last_lt-above :
      (x i p : ℕ) (l : List ℕ) → p ≢ x → k ≤ (sl.nodes x).key → last_lt sl k i p l ≢ x
  unfolding last_lt
  last_lt-above x i p [] h above = h
  last_lt-above x i p (a ∷ l) h above = elim (Bool-cases (ltb (sl.nodes a).key k)) [
    | inl below ↦
        let other : a ≢ x =
          λ same. omega (arith, ltb→lt _ _ below, ap (λ q. (sl.nodes q).key) same) in
        ground (arith, last_lt-above x i a l other above, last_lt-above x i p l h above)
    | inr far ↦ ground arith
  ]

  pub last_lt-tall :
      (i p : ℕ) (l : List ℕ)
      → i < (sl.nodes p).max_level
      → i < (sl.nodes (last_lt sl k i p l)).max_level
  unfolding last_lt
  last_lt-tall i p [] h = h
  last_lt-tall i p (a ∷ l) h = elim (Bool-cases (ltb i (sl.nodes a).max_level)) [
    | inl here ↦ ground (arith, last_lt-tall i a l (ltb→lt _ _ here))
    | inr short ↦ ground (arith, last_lt-tall i p l h)
  ]

  -- Each node of the list has the pointers of a chain.
  abbrev pub Tails : List ℕ → Type 0
  Tails [] = Unit
  Tails (a ∷ l) = Chain sl a l

  pub Chain-Tails : (p : ℕ) (l : List ℕ) → Chain sl p l → Tails l
  Chain-Tails p [] c = tt
  Chain-Tails p (a ∷ l) c = c.1

  -- The pointer that leaves the last such node leads past the keys below `k`.
  pub last_lt-forward :
      (i p : ℕ) (l : List ℕ)
      → (sl.nodes p).forward i ≡ first sl i l
      → Tails l
      → (sl.nodes (last_lt sl k i p l)).forward i ≡ first sl i (drop_lt sl k l)
  unfolding last_lt first drop_lt
  last_lt-forward i p [] leads c = leads
  last_lt-forward i p (a ∷ l) leads c =
      let tails = Chain-Tails a l c in
      elim (Bool-cases (ltb (sl.nodes a).key k)) [
        | inr far ↦ ground arith
        | inl below ↦ elim (Bool-cases (ltb i (sl.nodes a).max_level)) [
          | inl here ↦
              rw (last_lt, below, here)
                (last_lt-forward i a l (Chain-Links sl a l c i (ltb→lt _ _ here)) tails)
          | inr short ↦
              let on : (sl.nodes p).forward i ≡ first sl i l = ground arith in
              ground (arith, last_lt-forward i p l on tails)
        ]
      ]
