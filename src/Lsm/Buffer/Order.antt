-- ===== src/Lsm/Buffer/Order.antt =====
-- src/LSM-Tree/UtilityImplement/buffer.cpp: the buffer is a finite map with a bound.
use rexio.Base.{
  ℕ, suc, ◌<◌, ◌≡◌, refl, ap, ltb, ◌==◌, if◌then◌else◌, true, false, inl, inr, Bool-cases, none,
  some, List, [], ◌∷◌, length, arith,
}
use rexio.Backend.Entry.{Entry, entry_lt}
use rexio.Lsm.Buffer.{set_insert, set_find, set_erase}

-- All keys are greater.
abbrev pub AllGt : ℕ → List Entry → Type 0
AllGt k [] = Unit
AllGt k (x ∷ l) = (k < x.key) × AllGt k l

-- The elements of a set, in order.
abbrev pub IsSorted : List Entry → Type 0
IsSorted [] = Unit
IsSorted (x ∷ l) = AllGt x.key l × IsSorted l

pub AllGt-trans : (j k : ℕ) (l : List Entry) → j < k → AllGt k l → AllGt j l
AllGt-trans j k [] h all = tt
AllGt-trans j k (x ∷ l) h all = (omega (arith, all.0), AllGt-trans j k l h all.1)

pub AllGt-set_find : (k : ℕ) (l : List Entry) → AllGt k l → set_find k l ≡ none
unfolding set_find
AllGt-set_find k [] all = refl
AllGt-set_find k (x ∷ l) all = ground (arith, all.0, AllGt-set_find k l all.1)

AllGt-set_insert :
    (k : ℕ) (e : Entry) (l : List Entry) → k < e.key → AllGt k l → AllGt k (set_insert e l).0
unfolding set_insert
AllGt-set_insert k e [] h all = (h, tt)
AllGt-set_insert k e (x ∷ l) h all = elim (Bool-cases (entry_lt e x)) [
  | inl less ↦ rw less (h, all)
  | inr more ↦ elim (Bool-cases (entry_lt x e)) [
    | inl behind ↦ rw (more, behind) (all.0, AllGt-set_insert k e l h all.1)
    | inr same ↦ rw (more, same) all
  ]
]

AllGt-set_erase : (k j : ℕ) (l : List Entry) → AllGt k l → AllGt k (set_erase j l)
unfolding set_erase
AllGt-set_erase k j [] all = tt
AllGt-set_erase k j (x ∷ l) all = elim (Bool-cases (x.key == j)) [
  | inl same ↦ rw same all.1
  | inr other ↦ rw other (all.0, AllGt-set_erase k j l all.1)
]

-- An element whose key is new enters the set.
pub record Enters (e : Entry) (l : List Entry) : Type 0 where
  pub added : (set_insert e l).1 ≡ true
  pub sorted : IsSorted (set_insert e l).0
  pub longer : length (set_insert e l).0 ≡ suc (length l)
  pub found :
      (q : ℕ) → set_find q (set_insert e l).0 ≡ (if q == e.key then some e else set_find q l)

pub set_insert-Enters :
    (e : Entry) (l : List Entry) → IsSorted l → set_find e.key l ≡ none → Enters e l
unfolding set_insert set_find entry_lt
set_insert-Enters e [] s absent = record {
  added = refl;
  sorted = (tt, tt);
  longer = refl;
  found = λ q. ground arith;
}
set_insert-Enters e (x ∷ l) s absent = elim (Bool-cases (ltb e.key x.key)) [
  | inl less ↦ record {
    added = rw less;
    sorted = rw less ((ground arith, AllGt-trans e.key x.key l (ground arith) s.0), s);
    longer = rw less;
    found = λ q.
        rw less
          (ground (arith, AllGt-set_find e.key l (AllGt-trans e.key x.key l (ground arith) s.0)));
  }
  | inr more ↦
      let behind : ltb x.key e.key ≡ true = ground arith in
      let rest : Enters e l = set_insert-Enters e l s.1 (ground arith) in
      record {
        added = rw (more, behind) rest.added;
        sorted = rw (more, behind) (AllGt-set_insert x.key e l (ground arith) s.0, rest.sorted);
        longer = rw (more, behind) (ap suc rest.longer);
        found = λ q. rw (more, behind) (ground (arith, rest.found q));
      }
]

-- An element whose key is there stays out.
pub set_insert-present :
    (e x : Entry) (l : List Entry)
    → IsSorted l
    → set_find e.key l ≡ some x
    → ((set_insert e l).1 ≡ false) × ((set_insert e l).0 ≡ l)
unfolding set_insert set_find entry_lt
set_insert-present e x [] s there = (ground arith, ground arith)
set_insert-present e x (y ∷ l) s there = elim (Bool-cases (ltb e.key y.key)) [
  | inl less ↦
      let gone = AllGt-set_find e.key l (AllGt-trans e.key y.key l (ground arith) s.0) in
      (ground (arith, gone), ground (arith, gone))
  | inr more ↦ elim (Bool-cases (ltb y.key e.key)) [
    | inl behind ↦
        let rest = set_insert-present e x l s.1 (ground arith) in
        (rw (more, behind) rest.0, rw (more, behind) (ap (◌∷◌ y) rest.1))
    | inr same ↦ (rw (more, same), rw (more, same))
  ]
]

pub set_erase-IsSorted : (k : ℕ) (l : List Entry) → IsSorted l → IsSorted (set_erase k l)
unfolding set_erase
set_erase-IsSorted k [] s = tt
set_erase-IsSorted k (x ∷ l) s = elim (Bool-cases (x.key == k)) [
  | inl same ↦ rw same s.1
  | inr other ↦ rw other (AllGt-set_erase x.key k l s.0, set_erase-IsSorted k l s.1)
]

pub set_find-set_erase :
    (k q : ℕ) (l : List Entry)
    → IsSorted l
    → set_find q (set_erase k l) ≡ (if q == k then none else set_find q l)
unfolding set_find set_erase
set_find-set_erase k q [] s = ground arith
set_find-set_erase k q (x ∷ l) s =
    ground (arith, set_find-set_erase k q l s.1, AllGt-set_find x.key l s.0)

pub length-set_erase :
    (k : ℕ) (x : Entry) (l : List Entry)
    → set_find k l ≡ some x
    → suc (length (set_erase k l)) ≡ length l
unfolding set_find set_erase
length-set_erase k x [] there = ground arith
length-set_erase k x (y ∷ l) there = ground (arith, length-set_erase k x l)
