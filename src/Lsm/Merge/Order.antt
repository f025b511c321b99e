-- ===== src/Lsm/Merge/Order.antt =====
-- src/LSM-Tree/UtilityImplement/merge.cpp: what comes out of the queue, and in which order.
use rexio.Base.{
  ℕ, ◌+◌, ◌<◌, ◌≤◌, ◌≡◌, ◌⊎◌, refl, sym, ap, ◌==◌, if◌then◌else◌, true, false, ◌&&◌, inl, inr,
  Bool-cases, List, [], ◌∷◌, arith,
}
use rexio.Outcome.{Outcome, ok, fail, undefined}
use rexio.Backend.Entry.{Entry}
use rexio.Lsm.Merge.{merge_lt, push, insert, pop_while, contextpop}

-- Smaller keys come first, and greater values of one key.
abbrev pub Before : Entry → Entry → Type 0
Before x y = (x.key < y.key) ⊎ ((x.key ≡ y.key) × (y.val ≤ x.val))

abbrev pub AllBehind : Entry → List Entry → Type 0
AllBehind x [] = Unit
AllBehind x (y ∷ q) = Before x y × AllBehind x q

abbrev pub Ordered : List Entry → Type 0
Ordered [] = Unit
Ordered (x ∷ q) = AllBehind x q × Ordered q

-- How often a pair stands in a list.
unfoldable pub occurrences : ℕ → ℕ → List Entry → ℕ
occurrences k v [] = 0
occurrences k v (x ∷ q) = (if (x.key == k) && (x.val == v) then 1 else 0) + occurrences k v q

Before-trans : (x y z : Entry) → Before x y → Before y z → Before x z
Before-trans x y z h k = ground (arith, h, k)

-- The queue's order is the comparator's.
Before-merge_lt : (x e : Entry) → merge_lt x e ≡ false → Before x e
unfolding merge_lt
Before-merge_lt x e h = elim (Bool-cases (x.key == e.key)) [
  | inl same ↦ inr (ground (arith, same), ground (arith, h, same))
  | inr other ↦ inl (ground (arith, h, other))
]

merge_lt-Before : (x e : Entry) → merge_lt x e ≡ true → Before e x
unfolding merge_lt
merge_lt-Before x e h = elim (Bool-cases (x.key == e.key)) [
  | inl same ↦ inr (ground (arith, same), ground (arith, h, same))
  | inr other ↦ inl (ground (arith, h, other))
]

AllBehind-trans : (x y : Entry) (q : List Entry) → Before x y → AllBehind y q → AllBehind x q
AllBehind-trans x y [] h all = tt
AllBehind-trans x y (z ∷ q) h all = (Before-trans x y z h all.0, AllBehind-trans x y q h all.1)

AllBehind-push :
    (x e : Entry) (q : List Entry) → Before x e → AllBehind x q → AllBehind x (push e q)
unfolding push
AllBehind-push x e [] h all = (h, tt)
AllBehind-push x e (y ∷ q) h all = elim (Bool-cases (merge_lt y e)) [
  | inl less ↦ rw less (h, all)
  | inr more ↦ rw more (all.0, AllBehind-push x e q h all.1)
]

push-Ordered : (e : Entry) (q : List Entry) → Ordered q → Ordered (push e q)
unfolding push
push-Ordered e [] o = (tt, tt)
push-Ordered e (x ∷ q) o = elim (Bool-cases (merge_lt x e)) [
  | inl less ↦
      rw less ((merge_lt-Before x e less, AllBehind-trans e x q (merge_lt-Before x e less) o.0), o)
  | inr more ↦ rw more (AllBehind-push x e q (Before-merge_lt x e more) o.0, push-Ordered e q o.1)
]

push-occurrences :
    (k v : ℕ) (e : Entry) (q : List Entry) → occurrences k v (push e q) ≡ occurrences k v (e ∷ q)
unfolding push occurrences
push-occurrences k v e [] = refl
push-occurrences k v e (x ∷ q) = elim (Bool-cases (merge_lt x e)) [
  | inl less ↦ rw less refl
  | inr more ↦ rw more (ground (arith, push-occurrences k v e q))
]

-- The queue that takes in a run keeps its order, smaller keys first and greater values of one key
-- first, and holds the old entries and those of the run, each as often as before.
pub merge_insert_lem :
    (entries q : List Entry)
    → Ordered q
    → Ordered (insert entries q)
      × ((k v : ℕ)
          → occurrences k v (insert entries q) ≡ occurrences k v entries + occurrences k v q)
unfolding insert occurrences
merge_insert_lem [] q o = (o, λ k v. omega arith)
merge_insert_lem (e ∷ entries) q o =
    let (ordered, counts) = merge_insert_lem entries (push e q) (push-Ordered e q o) in
    (ordered, λ k v. ground (arith, counts k v, push-occurrences k v e q))

-- The entries behind those of a key.
unfoldable drop_key : ℕ → List Entry → List Entry
drop_key k [] = []
drop_key k (x ∷ q) = if x.key == k then drop_key k q else x ∷ q

pop_while_lem :
    (k : ℕ) (x : Entry) (q : List Entry)
    → pop_while k x (x ∷ q) ≡ elim (drop_key k (x ∷ q)) [ [] ↦ fail undefined | y ∷ r ↦ ok (y ∷ r) ]
unfolding pop_while drop_key
pop_while_lem k x [] = elim (Bool-cases (x.key == k)) [
  | inl same ↦ rw (pop_while, same)
  | inr other ↦ rw (pop_while, other)
]
pop_while_lem k x (y ∷ q) = elim (Bool-cases (x.key == k)) [
  | inl same ↦ rw (pop_while, same) (pop_while_lem k y q)
  | inr other ↦ rw (pop_while, other)
]

-- The result of a pop of `x` that leaves `q`.
abbrev pub leaving : Entry → List Entry → Outcome (Entry × List Entry)
leaving x [] = fail undefined
leaving x (y ∷ r) = ok (x, y ∷ r)

leaving_lem :
    (x : Entry) (q : List Entry)
    → elim (elim q as (λ _. Outcome (List Entry)) [ [] ↦ fail undefined | y ∷ r ↦ ok (y ∷ r) ])
        as (λ _. Outcome (Entry × List Entry)) [ ok q' ↦ ok (x, q') | fail e ↦ fail e ]
      ≡ leaving x q
leaving_lem x [] = refl
leaving_lem x (y ∷ r) = refl

-- The entries with other keys, wherever they stand.
abbrev pub others : ℕ → List Entry → List Entry
others k [] = []
others k (y ∷ q) = if y.key == k then others k q else y ∷ others k q

-- All keys are greater.
abbrev AllAbove : ℕ → List Entry → Type 0
AllAbove k [] = Unit
AllAbove k (y ∷ q) = (k < y.key) × AllAbove k q

AllBehind-AllAbove : (k : ℕ) (x : Entry) (q : List Entry) → k < x.key → AllBehind x q → AllAbove k q
AllBehind-AllAbove k x [] h all = tt
AllBehind-AllAbove k x (y ∷ q) h all =
    let first = all.0 in (ground (arith, h, first), AllBehind-AllAbove k x q h all.1)

others-AllAbove : (k : ℕ) (q : List Entry) → AllAbove k q → others k q ≡ q
others-AllAbove k [] all = refl
others-AllAbove k (y ∷ q) all =
    let rest = others-AllAbove k q all.1 in let above = all.0 in ground (arith, rest, above)

-- In an ordered queue the entries of the first key stand together.
drop_key-others :
    (x : Entry) (q : List Entry) → AllBehind x q → Ordered q → drop_key x.key q ≡ others x.key q
unfolding drop_key
drop_key-others x [] all o = refl
drop_key-others x (y ∷ q) all o = elim (Bool-cases (y.key == x.key)) [
  | inl same ↦ rw same (drop_key-others x q all.1 o.1)
  | inr other ↦
      let first = all.0 in
      let above : x.key < y.key = ground (arith, first, other) in
      rw other (ap (◌∷◌ y) (sym (others-AllAbove x.key q (AllBehind-AllAbove x.key y q above o.0))))
]

-- The pop that merges versions hands out the first entry of an ordered queue, the one with the smallest
-- key and of this key the greatest value, and drops every entry of its key, wherever it stands; all
-- others stay in their order. If no entry of another key is there, it reads the top of an empty queue.
pub contextpop_lem :
    (x : Entry) (q : List Entry) → Ordered (x ∷ q) → contextpop (x ∷ q) ≡ leaving x (others x.key q)
unfolding contextpop drop_key
contextpop_lem x q o =
    let own : drop_key x.key (x ∷ q) ≡ drop_key x.key q = ground arith in
    let dropped = drop_key-others x q o.0 o.1 in
    rw (contextpop, pop_while_lem x.key x q, own, dropped) (leaving_lem x (others x.key q))
