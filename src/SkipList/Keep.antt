-- ===== src/SkipList/Keep.antt =====
-- src/Ti-OCSSD/MemoryTier/MemTier.cpp `InsertNode`: what holds of the nodes of a list still holds with
-- the new node among them.
use rexio.Base.{
  ℕ, suc, ◌≤◌, ◌<◌, ◌≡◌, ◌≢◌, refl, sym, ltb, Bool-cases, inl, inr, List, [], ◌∷◌, length, arith,
  ltb→lt,
}
use mathlib.Core.Path.{subst}
use rexio.SkipList.Walk.{AllNe, Distinct}
use rexio.SkipList.{TncSkiplist}
use rexio.SkipList.Order.{All, Rises}
use rexio.SkipList.Link.{insert_order}
use rexio.SkipList.Insert.{Inserted}
use rexio.SkipList.Places.{insert_end, insert_below, insert_far}

All-old :
    {t : ℕ} (P Q : ℕ → Type 0) (l : List ℕ)
    → ((a : ℕ) → a ≢ t → P a → Q a)
    → AllNe t l
    → All P l
    → All Q l
All-old P Q [] old fresh all = tt
All-old P Q (a ∷ l) old fresh all = (old a fresh.0 all.0, All-old P Q l old fresh.1 all.1)

module _ (sl sl' : TncSkiplist) (k t v head : ℕ) (order : List ℕ)
    (ins : Inserted sl sl' k t v head order) where
  -- What holds of every node of the old order and of the new node holds in the new order.
  pub All-insert_order :
      (P Q : ℕ → Type 0) (l : List ℕ)
      → Q t
      → ((a : ℕ) → a ≢ t → P a → Q a)
      → AllNe t l
      → All P l
      → All Q (insert_order sl k t l)
  All-insert_order P Q [] new old fresh all = subst (All Q) (sym (insert_end sl k t)) (new, tt)
  All-insert_order P Q (a ∷ l) new old fresh all = elim (Bool-cases (ltb (sl.nodes a).key k)) [
    | inl below ↦
        subst (All Q) (sym (insert_below sl k t a l below))
          (old a fresh.0 all.0, All-insert_order P Q l new old fresh.1 all.1)
    | inr far ↦
        subst (All Q) (sym (insert_far sl k t a l far))
          (new, (old a fresh.0 all.0, All-old P Q l old fresh.1 all.1))
  ]

  pub length-insert_order : (l : List ℕ) → length (insert_order sl k t l) ≡ suc (length l)
  unfolding insert_order
  length-insert_order [] = refl
  length-insert_order (a ∷ l) = ground (arith, length-insert_order l)

  pub Distinct-insert_order :
      (l : List ℕ) → AllNe t l → Distinct l → Distinct (insert_order sl k t l)
  Distinct-insert_order [] fresh d = subst Distinct (sym (insert_end sl k t)) (tt, tt)
  Distinct-insert_order (a ∷ l) fresh d = elim (Bool-cases (ltb (sl.nodes a).key k)) [
    | inl below ↦ subst Distinct (sym (insert_below sl k t a l below)) (
      All-insert_order (λ b. b ≢ a) (λ b. b ≢ a) l (λ e. fresh.0 (sym e)) (λ b _ h. h) fresh.1 d.0,
      Distinct-insert_order l fresh.1 d.1,
    )
    | inr far ↦ subst Distinct (sym (insert_far sl k t a l far)) (fresh, d)
  ]

  Rises-old : (l : List ℕ) → AllNe t l → Rises sl l → Rises sl' l
  Rises-old [] fresh r = tt
  Rises-old (a ∷ l) fresh r = (
    omega (arith, r.0, ins.levels_old a fresh.0),
    (
      All-old _ _ l (λ b other h. omega (arith, h, ins.key_old a fresh.0, ins.key_old b other))
          fresh.1 r.1.0,
      Rises-old l fresh.1 r.1.1,
    ),
  )

  pub Rises-insert_order :
      (l : List ℕ) → 0 < v → AllNe t l → Rises sl l → Rises sl' (insert_order sl k t l)
  Rises-insert_order [] pos fresh r =
      subst (Rises sl') (sym (insert_end sl k t)) (omega (arith, ins.levels_new), (tt, tt))
  Rises-insert_order (a ∷ l) pos fresh r = elim (Bool-cases (ltb (sl.nodes a).key k)) [
    | inl below ↦
        let low : (sl'.nodes a).key ≤ (sl'.nodes t).key =
          omega (arith, ltb→lt _ _ below, ins.key_old a fresh.0, ins.key_new) in
        subst (Rises sl') (sym (insert_below sl k t a l below)) (
          omega (arith, r.0, ins.levels_old a fresh.0),
          (
            All-insert_order _ _ l low
                (λ b other h. omega (arith, h, ins.key_old a fresh.0, ins.key_old b other)) fresh.1
                r.1.0,
            Rises-insert_order l pos fresh.1 r.1.1,
          ),
        )
    | inr far ↦
        let above : k ≤ (sl.nodes a).key = ground arith in
        subst (Rises sl') (sym (insert_far sl k t a l far)) (
          omega (arith, ins.levels_new),
          (
            (
              omega (arith, ins.key_new, ins.key_old a fresh.0),
              All-old (λ b. (sl.nodes a).key ≤ (sl.nodes b).key) _ l
                  (λ b other h. omega (arith, h, ins.key_new, ins.key_old b other)) fresh.1 r.1.0,
            ),
            Rises-old (a ∷ l) fresh r,
          ),
        )
  ]
