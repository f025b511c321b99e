-- ===== src/SkipList/Places.antt =====
-- src/Ti-OCSSD/MemoryTier/MemTier.cpp `InsertNode`: the steps of the functions on orders, one node at a
-- time.
use rexio.Base.{ℕ, ◌≡◌, refl, ltb, if◌then◌else◌, true, false, List, [], ◌∷◌}
use rexio.SkipList.{TncSkiplist}
use rexio.SkipList.Order.{last_lt, drop_lt}
use rexio.SkipList.Link.{insert_order}

module _ (sl : TncSkiplist) (k t : ℕ) where
  pub insert_end : insert_order sl k t [] ≡ t ∷ []
  unfolding insert_order
  insert_end = refl

  pub insert_below :
      (a : ℕ) (l : List ℕ)
      → ltb (sl.nodes a).key k ≡ true
      → insert_order sl k t (a ∷ l) ≡ a ∷ insert_order sl k t l
  unfolding insert_order
  insert_below a l h = rw h

  pub insert_far :
      (a : ℕ) (l : List ℕ)
      → ltb (sl.nodes a).key k ≡ false
      → insert_order sl k t (a ∷ l) ≡ t ∷ a ∷ l
  unfolding insert_order
  insert_far a l h = rw h

module _ (sl : TncSkiplist) (k : ℕ) where
  pub drop_end : drop_lt sl k [] ≡ []
  unfolding drop_lt
  drop_end = refl

  pub drop_below :
      (a : ℕ) (l : List ℕ) → ltb (sl.nodes a).key k ≡ true → drop_lt sl k (a ∷ l) ≡ drop_lt sl k l
  unfolding drop_lt
  drop_below a l h = rw h

  pub drop_far :
      (a : ℕ) (l : List ℕ) → ltb (sl.nodes a).key k ≡ false → drop_lt sl k (a ∷ l) ≡ a ∷ l
  unfolding drop_lt
  drop_far a l h = rw h

  pub last_below :
      (i p a : ℕ) (l : List ℕ)
      → ltb (sl.nodes a).key k ≡ true
      → last_lt sl k i p (a ∷ l) ≡ last_lt sl k i (if ltb i (sl.nodes a).max_level then a else p) l
  unfolding last_lt
  last_below i p a l h = rw h
