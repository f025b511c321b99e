-- ===== src/SkipList/Walk.antt =====
-- src/Ti-OCSSD/MemoryTier/MemTier.cpp `SearchNode`: the walk through a skip list ends, and where.
use rexio.Base.{
  ℕ, zero, suc, ◌≤◌, ◌<◌, ◌≡◌, ◌≢◌, refl, sym, ap, ◌∙◌, ltb, false, Bool-cases, Option-cases, inl,
  inr, Option, none, some, List, [], ◌∷◌, length, arith, lt→ltb, ltb→lt,
}
use mathlib.Core.Path.{subst}
use rexio.Outcome.{ok, ◌>>=◌}
use rexio.SkipList.{TncSkiplist, max_level1, advance, descend, search_node, forward_at}
use rexio.SkipList.Order.{
  All, last_lt, first, drop_lt, Chain, Rises, Reached, Chain-Links, first_lem,
}

-- The first of a list.
abbrev pub front : List ℕ → Option ℕ
front [] = none
front (a ∷ l) = some a

module _ (sl : TncSkiplist) (k : ℕ) where
  -- Level `i` leads from here to no key below `k`.
  abbrev pub Stops : ℕ → List ℕ → Type 0
  Stops i rest = (a : ℕ) → first sl i rest ≡ some a → k ≤ (sl.nodes a).key

  -- Where a walk from the nodes `l` along the levels from `i` on ends: at node `q`, before `rest`.
  pub record Ends (i p : ℕ) (l : List ℕ) (q : ℕ) (rest : List ℕ) : Type 0 where
    pub reached : Reached sl i q rest
    pub stops : Stops i rest
    pub shorter : length rest ≤ length l
    pub kept : drop_lt sl k rest ≡ drop_lt sl k l
    pub lasts : (j : ℕ) → j ≤ i → last_lt sl k j q rest ≡ last_lt sl k j p l

  forward_at-Reached :
      (i p : ℕ) (l : List ℕ) → Reached sl i p l → forward_at sl p i ≡ ok (first sl i l)
  unfolding forward_at
  forward_at-Reached i p l r =
      rw (lt→ltb i (sl.nodes p).max_level r.tall, Chain-Links sl p l r.chain i r.tall)

  advance-stop :
      (fuel i p : ℕ) (l : List ℕ)
      → Reached sl i p l
      → Stops i l
      → advance (suc fuel) i k sl p ≡ ok p
  unfolding advance
  advance-stop fuel i p l r stops = elim (Option-cases (first sl i l)) [
    | inl end ↦ rw (advance, forward_at-Reached i p l r, end)
    | inr (a, next) ↦
        let far : ltb (sl.nodes a).key k ≡ false = ground (arith, stops a next) in
        rw (advance, forward_at-Reached i p l r, next, ◌>>=◌, far)
  ]

  advance-step :
      (fuel i p a : ℕ) (l : List ℕ)
      → Reached sl i p l
      → first sl i l ≡ some a
      → (sl.nodes a).key < k
      → advance (suc fuel) i k sl p ≡ advance fuel i k sl a
  unfolding advance
  advance-step fuel i p a l r next below =
      rw (advance, forward_at-Reached i p l r, next, ◌>>=◌, lt→ltb (sl.nodes a).key k below)

  pub advance_lem :
      (fuel i p : ℕ) (l : List ℕ)
      → length l < fuel
      → Reached sl i p l
      → (q : ℕ) × (rest : List ℕ) × (advance fuel i k sl p ≡ ok q) × Ends i p l q rest
  advance_lem zero i p l enough r = absurd (omega arith)
  advance_lem (suc fuel) i p l enough r = elim (Option-cases (first sl i l)) [
    | inl end ↦
        let stops : Stops i l = λ a e. ground arith in
        (
          p,
          l,
          advance-stop fuel i p l r stops,
          record {
            reached = r;
            stops = stops;
            shorter = omega arith;
            kept = refl;
            lasts = λ j h. refl;
          },
        )
    | inr (a, next) ↦ elim (Bool-cases (ltb (sl.nodes a).key k)) [
      | inl below ↦
          let (post, r', shorter, dropped, lasts) = first_lem sl i p a l r.chain r.rises next in
          let (q, rest, run, ends) = advance_lem fuel i a post (omega arith) r' in
          (
            q,
            rest,
            advance-step fuel i p a l r next (ltb→lt (sl.nodes a).key k below) ∙ run,
            record {
              reached = ends.reached;
              stops = ends.stops;
              shorter = omega (arith, ends.shorter);
              kept = ends.kept ∙ sym (dropped k (ltb→lt (sl.nodes a).key k below));
              lasts = λ j h. ends.lasts j h ∙ sym (lasts k j p (ltb→lt (sl.nodes a).key k below) h);
            },
          )
      | inr far ↦
          let stops : Stops i l = λ b e. ground arith in
          (
            p,
            l,
            advance-stop fuel i p l r stops,
            record {
              reached = r;
              stops = stops;
              shorter = omega arith;
              kept = refl;
              lasts = λ j h. refl;
            },
          )
    ]
  ]

  -- A node without pointers above level `i` is reached on the levels below, too.
  pub below-Reached : (i p : ℕ) (l : List ℕ) → Reached sl (suc i) p l → Reached sl i p l
  below-Reached i p l r = record { chain = r.chain; rises = r.rises; tall = omega (arith, r.tall) }

  descend_lem :
      (i p : ℕ) (l : List ℕ)
      → length l < sl.next
      → Reached sl i p l
      → (q : ℕ) × (rest : List ℕ) × (descend (suc i) k sl p ≡ ok q) × Ends 0 p l q rest
  unfolding descend
  descend_lem zero p l enough r =
      let (q, rest, run, ends) = advance_lem sl.next 0 p l enough r in
      (q, rest, rw (◌>>=◌, run), ends)
  descend_lem (suc i) p l enough r =
      let (q, rest, run, ends) = advance_lem sl.next (suc i) p l enough r in
      let (q', rest', run', ends') =
        descend_lem i q rest (omega (arith, ends.shorter)) (below-Reached i q rest ends.reached) in
      (
        q',
        rest',
        rw (◌>>=◌, run) run',
        record {
          reached = ends'.reached;
          stops = ends'.stops;
          shorter = omega (arith, ends.shorter, ends'.shorter);
          kept = ends'.kept ∙ ends.kept;
          lasts = λ j h. ends'.lasts j h ∙ ends.lasts j (omega arith);
        },
      )

  -- Nothing on level 0 is below `k` any more, so what is left is what the walk looks for.
  Ends-drop_lt :
      (p : ℕ) (l : List ℕ) (q : ℕ) (rest : List ℕ)
      → Ends 0 p l q rest
      → first sl 0 rest ≡ front (drop_lt sl k l)
  unfolding first drop_lt
  Ends-drop_lt p l q [] ends = ap front ends.kept
  Ends-drop_lt p l q (b ∷ rest) ends = ground (arith, ends.kept, ends.reached.rises.0, ends.stops b)

-- No node has more than `n` levels.
abbrev pub AllCapped : TncSkiplist → ℕ → List ℕ → Type 0
AllCapped sl n = All (λ a. (sl.nodes a).max_level ≤ n)

abbrev pub AllNe : ℕ → List ℕ → Type 0
AllNe x = All (λ a. a ≢ x)

abbrev pub Distinct : List ℕ → Type 0
Distinct [] = Unit
Distinct (a ∷ l) = AllNe a l × Distinct l

abbrev pub AllLt : ℕ → List ℕ → Type 0
AllLt x = All (λ a. a < x)

-- The nodes `order` are those of the skip list, in the order of its lowest level, and the pointers of
-- every level lead along them.
pub record IsValid (sl : TncSkiplist) (order : List ℕ) : Type 0 where
  pub chain : Chain sl sl.head order
  pub rises : Rises sl order
  pub bounded : length order < sl.next
  pub head_levels : (sl.nodes sl.head).max_level ≡ max_level1
  pub head_key : (sl.nodes sl.head).key ≡ 0
  pub head_flag : (sl.nodes sl.head).flag ≡ 1
  pub capped : AllCapped sl sl.level order
  pub level_fits : sl.level ≤ max_level1
  pub allocated : AllLt sl.next order
  pub head_allocated : sl.head < sl.next
  pub distinct : Distinct order
  pub off_head : AllNe sl.head order

module _ (sl : TncSkiplist) (k : ℕ) where
  empty_lem : (order : List ℕ) → Rises sl order → AllCapped sl 0 order → order ≡ []
  empty_lem [] r c = refl
  empty_lem (a ∷ l) r c = absurd (omega (arith, r.0, c.0))

  -- The descent through `n` levels and the last step, for a list whose nodes have no more levels.
  search_from :
      (n : ℕ) (order : List ℕ)
      → IsValid sl order
      → sl.level ≡ n
      → (descend n k sl sl.head >>= λ node. forward_at sl node 0) ≡ ok (front (drop_lt sl k order))
  unfolding descend drop_lt first
  search_from zero order valid same =
      let none_left = empty_lem order valid.rises (rw (← same) valid.capped) in
      rw none_left (
        forward_at-Reached sl k 0 sl.head [] (record {
          chain = subst (Chain sl sl.head) none_left valid.chain;
          rises = tt;
          tall = omega (arith, valid.head_levels);
        }))
  search_from (suc n) order valid same =
      let (q, rest, run, ends) = descend_lem sl k n sl.head order valid.bounded (record {
        chain = valid.chain;
        rises = valid.rises;
        tall = omega (arith, valid.head_levels, valid.level_fits, same);
      }) in
      rw (run, ◌>>=◌, forward_at-Reached sl k 0 q rest ends.reached)
        (ap ok (Ends-drop_lt sl k sl.head order q rest ends))

-- On a valid skip list, the search always ends without a fault, at the first node in the order whose
-- key is not below the wanted one; it is null if there is none.
pub search_node_lem :
    (sl : TncSkiplist) (order : List ℕ) (k : ℕ)
    → IsValid sl order
    → search_node sl k ≡ ok (front (drop_lt sl k order))
unfolding search_node
search_node_lem sl order k valid = search_from sl k sl.level order valid refl
