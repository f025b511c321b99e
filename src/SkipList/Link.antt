-- ===== src/SkipList/Link.antt =====
-- src/Ti-OCSSD/MemoryTier/MemTier.cpp `InsertNode`: what the new node changes in the pointers, and that
-- they are those of the longer order.
use rexio.Base.{
  ℕ, zero, suc, ◌+◌, ◌≤◌, ◌<◌, ◌≡◌, ◌≢◌, refl, ◌∙◌, ltb, leb, ◌==◌, if◌then◌else◌, ◌&&◌, Bool-cases,
  inl, inr, Option, some, List, [], ◌∷◌, arith, lt→ltb,
}
use rexio.Outcome.{ok, ◌>>=◌}
use rexio.SkipList.{TncSkiplist, link, forward_at, set_forward}

module _ (sl : TncSkiplist) (k : ℕ) where
  -- The order with a new node before the first key that is not below `k`.
  unfoldable pub insert_order : ℕ → List ℕ → List ℕ
  insert_order t [] = t ∷ []
  insert_order t (a ∷ l) = if ltb (sl.nodes a).key k then a ∷ insert_order t l else t ∷ a ∷ l

-- What `link` does to the levels from `i` to `i + n`, when it finds node `u j` for level `j`.
pub record Linked (u : ℕ → ℕ) (t i n : ℕ) (sl sl' : TncSkiplist) : Type 0 where
  pub forwards :
      (q j : ℕ)
      → (sl'.nodes q).forward j ≡ (
          if leb i j && ltb j (i + n)
          then (if q == t
              then (sl.nodes (u j)).forward j
              else if q == u j
              then some t
              else (sl.nodes q).forward j)
          else (sl.nodes q).forward j)
  pub keys : (q : ℕ) → (sl'.nodes q).key ≡ (sl.nodes q).key
  pub flags : (q : ℕ) → (sl'.nodes q).flag ≡ (sl.nodes q).flag
  pub offsets : (q : ℕ) → (sl'.nodes q).offset ≡ (sl.nodes q).offset
  pub max_levels : (q : ℕ) → (sl'.nodes q).max_level ≡ (sl.nodes q).max_level
  pub next_kept : sl'.next ≡ sl.next
  pub head_kept : sl'.head ≡ sl.head
  pub number_kept : sl'.number ≡ sl.number
  pub level_kept : sl'.level ≡ sl.level

module _ (u : ℕ → ℕ) (update : ℕ → Option ℕ) (t : ℕ) where
  -- One round.
  abbrev entered : ℕ → TncSkiplist → TncSkiplist
  entered i sl = set_forward (u i) i (some t) (set_forward t i ((sl.nodes (u i)).forward i) sl)

  set_forward-forward :
      (a i q j : ℕ) (p : Option ℕ) (sl : TncSkiplist)
      → ((set_forward a i p sl).nodes q).forward j
        ≡ (if (q == a) && (j == i) then p else (sl.nodes q).forward j)
  unfolding set_forward
  set_forward-forward a i q j p sl = ground arith

  forwards_entered :
      (i : ℕ) (sl : TncSkiplist)
      → u i ≢ t
      → (q j : ℕ)
      → ((entered i sl).nodes q).forward j ≡ (
          if leb i j && ltb j (i + 1)
          then (if q == t
              then (sl.nodes (u j)).forward j
              else if q == u j
              then some t
              else (sl.nodes q).forward j)
          else (sl.nodes q).forward j)
  forwards_entered i sl other q j = elim (Bool-cases (j == i)) [
    | inl same ↦
        let at_i : j ≡ i = ground arith in
        rw at_i (
          ground (
            arith,
            other,
            set_forward-forward (u i) i q i (some t)
                (set_forward t i ((sl.nodes (u i)).forward i) sl),
            set_forward-forward t i q i ((sl.nodes (u i)).forward i) sl,
          ))
    | inr apart ↦ ground (
      arith,
      set_forward-forward (u i) i q j (some t) (set_forward t i ((sl.nodes (u i)).forward i) sl),
      set_forward-forward t i q j ((sl.nodes (u i)).forward i) sl,
    )
  ]

  entered-Linked : (i : ℕ) (sl : TncSkiplist) → u i ≢ t → Linked u t i 1 sl (entered i sl)
  unfolding set_forward
  entered-Linked i sl other = record {
    forwards = λ q j. forwards_entered i sl other q j;
    keys = λ q. ground arith;
    flags = λ q. ground arith;
    offsets = λ q. ground arith;
    max_levels = λ q. ground arith;
    next_kept = refl;
    head_kept = refl;
    number_kept = refl;
    level_kept = refl;
  }

  Linked-then :
      (i n : ℕ) (a b c : TncSkiplist)
      → Linked u t i 1 a b
      → Linked u t (i + 1) n b c
      → Linked u t i (suc n) a c
  Linked-then i n a b c once rest = record {
    forwards = λ q j. ground (arith, rest.forwards q j, once.forwards q j, once.forwards (u j) j);
    keys = λ q. rest.keys q ∙ once.keys q;
    flags = λ q. rest.flags q ∙ once.flags q;
    offsets = λ q. rest.offsets q ∙ once.offsets q;
    max_levels = λ q. rest.max_levels q ∙ once.max_levels q;
    next_kept = rest.next_kept ∙ once.next_kept;
    head_kept = rest.head_kept ∙ once.head_kept;
    number_kept = rest.number_kept ∙ once.number_kept;
    level_kept = rest.level_kept ∙ once.level_kept;
  }

  pub link_lem :
      (i n : ℕ) (sl : TncSkiplist)
      → ((j : ℕ) → i ≤ j → j < i + n → update j ≡ some (u j))
      → ((j : ℕ) → i ≤ j → j < i + n → u j ≢ t)
      → ((j : ℕ) → i ≤ j → j < i + n → j < (sl.nodes (u j)).max_level)
      → (sl' : TncSkiplist) × (link i n update t sl ≡ ok sl') × Linked u t i n sl sl'
  unfolding link
  link_lem i zero sl known other tall = (
    sl,
    refl,
    record {
      forwards = λ q j. ground arith;
      keys = λ q. refl;
      flags = λ q. refl;
      offsets = λ q. refl;
      max_levels = λ q. refl;
      next_kept = refl;
      head_kept = refl;
      number_kept = refl;
      level_kept = refl;
    },
  )
  link_lem i (suc n) sl known other tall =
      let once = entered-Linked i sl (other i (omega arith) (omega arith)) in
      let (sl', run, rest) =
        link_lem (i + 1) n (entered i sl) (λ j low high. known j (omega arith) (omega arith))
          (λ j low high. other j (omega arith) (omega arith))
          (λ j low high.
            omega (arith, tall j (omega arith) (omega arith), once.max_levels (u j))) in
      (
        sl',
        rw
            (
              known i (omega arith) (omega arith),
              ◌>>=◌,
              forward_at,
              lt→ltb i (sl.nodes (u i)).max_level (tall i (omega arith) (omega arith)),
            )
            run,
        Linked-then i n sl (entered i sl) sl' once rest,
      )
