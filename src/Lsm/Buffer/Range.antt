-- ===== src/Lsm/Buffer/Range.antt =====
-- src/LSM-Tree/UtilityImplement/buffer.cpp `GetRange`.
use rexio.Base.{
  ℕ, zero, suc, ◌+◌, ◌-◌, ◌<◌, ◌≤◌, ◌≡◌, refl, sym, ltb, leb, ◌&&◌, if◌then◌else◌, false, inl, inr,
  Bool-cases, none, List, [], ◌∷◌, take, drop, arith,
}
use rexio.Outcome.{ok}
use rexio.Backend.Entry.{Entry}
use rexio.Lsm.Buffer.{Buffer, set_find, set_lower_bound, set_upper_bound, get_range}
use rexio.Lsm.Buffer.Order.{AllGt, IsSorted, AllGt-set_find, AllGt-trans}
use rexio.Lsm.Buffer.Values.{IsValid}

drop-IsSorted : (n : ℕ) (l : List Entry) → IsSorted l → IsSorted (drop n l)
drop-IsSorted zero l s = s
drop-IsSorted (suc n) [] s = tt
drop-IsSorted (suc n) (x ∷ l) s = drop-IsSorted n l s.1

AllGt-take : (k n : ℕ) (l : List Entry) → AllGt k l → AllGt k (take n l)
AllGt-take k zero l all = tt
AllGt-take k (suc n) [] all = tt
AllGt-take k (suc n) (x ∷ l) all = (all.0, AllGt-take k n l all.1)

take-IsSorted : (n : ℕ) (l : List Entry) → IsSorted l → IsSorted (take n l)
take-IsSorted zero l s = tt
take-IsSorted (suc n) [] s = tt
take-IsSorted (suc n) (x ∷ l) s = (AllGt-take x.key n l s.0, take-IsSorted n l s.1)

set_find-below :
    (q : ℕ) (x : Entry) (l : List Entry) → q < x.key → IsSorted (x ∷ l) → set_find q (x ∷ l) ≡ none
unfolding set_find
set_find-below q x l h s =
    let none_ = AllGt-set_find q l (AllGt-trans q x.key l h s.0) in ground (arith, none_)

-- Behind the lower bound stand the elements from it on.
set_find-lower :
    (k q : ℕ) (l : List Entry)
    → IsSorted l
    → set_find q (drop (set_lower_bound k l) l) ≡ (if leb k q then set_find q l else none)
unfolding set_find set_lower_bound
set_find-lower k q [] s = ground arith
set_find-lower k q (x ∷ l) s = elim (Bool-cases (ltb x.key k)) [
  | inl less ↦ rw less (ground (arith, set_find-lower k q l s.1))
  | inr from ↦ rw from (elim (Bool-cases (leb k q)) [
    | inl reached ↦ rw reached refl
    | inr below ↦ rw below (set_find-below q x l (ground arith) s)
  ])
]

-- In front of the upper bound stand the elements up to it.
set_find-upper :
    (k q : ℕ) (l : List Entry)
    → IsSorted l
    → set_find q (take (set_upper_bound k l) l) ≡ (if leb q k then set_find q l else none)
unfolding set_find set_upper_bound
set_find-upper k q [] s = ground arith
set_find-upper k q (x ∷ l) s = elim (Bool-cases (ltb k x.key)) [
  | inl over ↦ rw over (elim (Bool-cases (leb q k)) [
    | inl low ↦ rw low (sym (set_find-below q x l (ground arith) s))
    | inr high ↦ rw high refl
  ])
  | inr upto ↦ rw upto (ground (arith, set_find-upper k q l s.1))
]

-- The upper bound of an end that is not below the start, counted from the lower bound of the start.
set_upper_bound-drop :
    (start end : ℕ) (l : List Entry)
    → start ≤ end
    → set_upper_bound end l
      ≡ set_lower_bound start l + set_upper_bound end (drop (set_lower_bound start l) l)
unfolding set_lower_bound set_upper_bound
set_upper_bound-drop start end [] h = omega arith
set_upper_bound-drop start end (x ∷ l) h = elim (Bool-cases (ltb x.key start)) [
  | inl less ↦ rw less (ground (arith, set_upper_bound-drop start end l h))
  | inr from ↦ rw from (omega arith)
]

-- In a valid buffer, a range whose start is not above its end is read without a fault: its entries are
-- in the order of their keys, a key between the two ends is found in it as in the buffer, and no other
-- key is found.
pub get_range_lem :
    (start end : ℕ) (b : Buffer)
    → IsValid b
    → start ≤ end
    → (r : List Entry) × (get_range start end b ≡ ok r)
      × IsSorted r
      × ((q : ℕ) → set_find q r ≡ (if leb start q && leb q end then set_find q b.entries else none))
unfolding get_range
get_range_lem start end b valid h =
    let split = set_upper_bound-drop start end b.entries h in
    let tail : List Entry = drop (set_lower_bound start b.entries) b.entries in
    let in_order = drop-IsSorted (set_lower_bound start b.entries) b.entries valid.sorted in
    (
      take (set_upper_bound end tail) tail,
      let last = set_upper_bound end b.entries in
          let first = set_lower_bound start b.entries in
          let after : ltb last first ≡ false = ground (arith, split) in
          let count : last - first ≡ set_upper_bound end tail = omega (arith, split) in
          rw (after, count) refl,
      take-IsSorted (set_upper_bound end tail) tail in_order,
      λ q. ground (
        arith,
        set_find-upper end q tail in_order,
        set_find-lower start q b.entries valid.sorted,
      ),
    )
