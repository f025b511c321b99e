-- ===== src/SkipList/Descend.antt =====
-- src/Ti-OCSSD/MemoryTier/MemTier.cpp `InsertNode`: the descent that notes the last nodes.
use rexio.Base.{
  ℕ, zero, suc, ◌≤◌, ◌<◌, ◌≡◌, refl, sym, ap, ◌∙◌, ltb, leb, ◌==◌, if◌then◌else◌, Bool-cases, inl,
  inr, Option, some, List, [], ◌∷◌, length, arith, ltb→lt, leb→le,
}
use rexio.Outcome.{ok, ◌>>=◌}
use rexio.SkipList.{TncSkiplist, descend_update}
use rexio.SkipList.Order.{last_lt, first, Reached}
use rexio.SkipList.Walk.{Stops, advance_lem, below-Reached}

module _ (sl : TncSkiplist) (k : ℕ) where
  Stops-last_lt : (i q : ℕ) (rest : List ℕ) → Stops sl k i rest → last_lt sl k i q rest ≡ q
  unfolding last_lt first
  Stops-last_lt i q [] stops = refl
  Stops-last_lt i q (a ∷ l) stops = elim (Bool-cases (ltb (sl.nodes a).key k)) [
    | inr far ↦ ground arith
    | inl below ↦ elim (Bool-cases (ltb i (sl.nodes a).max_level)) [
      | inl here ↦
          let next : first sl i (a ∷ l) ≡ some a = rw here in
          absurd (omega (arith, stops a next, ltb→lt _ _ below))
      | inr short ↦
          let stops' : Stops sl k i l = λ b e. stops b (rw short e) in
          ground (arith, Stops-last_lt i q l stops')
    ]
  ]

  abbrev noted : ℕ → ℕ → (ℕ → Option ℕ) → ℕ → Option ℕ
  noted i q update j = if j == i then some q else update j

  -- The descent through the levels below `suc i` leaves level `j` at the last node with a key below
  -- `k` that has this level.
  pub descend_update_lem :
      (i p : ℕ) (l : List ℕ) (update : ℕ → Option ℕ)
      → length l < sl.next
      → Reached sl i p l
      → (q : ℕ) × (update' : ℕ → Option ℕ) × (descend_update (suc i) k sl p update
          ≡ ok (q, update'))
        × (q ≡ last_lt sl k 0 p l)
        × ((j : ℕ) → j ≤ i → update' j ≡ some (last_lt sl k j p l))
        × ((j : ℕ) → i < j → update' j ≡ update j)
  unfolding descend_update
  descend_update_lem zero p l update enough r =
      let (q, rest, run, ends) = advance_lem sl k sl.next 0 p l enough r in
      let here : q ≡ last_lt sl k 0 p l =
        sym (Stops-last_lt 0 q rest ends.stops) ∙ ends.lasts 0 (omega arith) in
      (q, noted 0 q update, rw (◌>>=◌, run), here, λ j h. ground (arith, here), λ j h. ground arith)
  descend_update_lem (suc i) p l update enough r =
      let (q, rest, run, ends) = advance_lem sl k sl.next (suc i) p l enough r in
      let here : q ≡ last_lt sl k (suc i) p l =
        sym (Stops-last_lt (suc i) q rest ends.stops) ∙ ends.lasts (suc i) (omega arith) in
      let (q', update', run', last, inside, outside) =
        descend_update_lem i q rest (noted (suc i) q update) (omega (arith, ends.shorter))
          (below-Reached sl k i q rest ends.reached) in
      (
        q',
        update',
        rw (◌>>=◌, run) run',
        last ∙ ends.lasts 0 (omega arith),
        λ j h. elim (Bool-cases (leb j i)) [
          | inl low ↦ inside j (leb→le j i low) ∙ ap some (ends.lasts j h)
          | inr high ↦
              let at_i : j ≡ suc i = ground arith in
              outside j (ground arith) ∙ rw at_i (ground (arith, here))
        ],
        λ j h. outside j (omega arith) ∙ ground arith,
      )
