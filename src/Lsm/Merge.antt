-- ===== src/Lsm/Merge.antt =====
-- src/LSM-Tree/UtilityDefine/merge.h and UtilityImplement/merge.cpp: the queue through which runs are
-- merged. A `std::priority_queue` is the list of its entries, the greatest first.
pub mod Order
use rexio.Base.{ℕ, ltb, ◌==◌, if◌then◌else◌, Bool, true, false, List, [], ◌∷◌}
use rexio.Outcome.{Outcome, ok, fail, undefined}
use rexio.Backend.Entry.{Entry}

-- `MergeEntry::operator <`
unfoldable pub merge_lt : Entry → Entry → Bool
merge_lt a b = if a.key == b.key then ltb a.val b.val else ltb b.key a.key

-- `queue.push(e)`
unfoldable pub push : Entry → List Entry → List Entry
push e [] = e ∷ []
push e (x ∷ q) = if merge_lt x e then e ∷ x ∷ q else x ∷ push e q

-- Both overloads of `Insert`
unfoldable pub insert : List Entry → List Entry → List Entry
insert [] q = q
insert (e ∷ entries) q = insert entries (push e q)

-- The loop of `Contextpop`: `top` of an empty queue is undefined.
unfoldable pub pop_while : ℕ → Entry → List Entry → Outcome (List Entry)
pop_while key next [] = ok []
pop_while key next (x ∷ []) = elim (next.key == key) [ true ↦ fail undefined | false ↦ ok (x ∷ []) ]
pop_while key next (x ∷ y ∷ q) = elim (next.key == key) [
  | true ↦ pop_while key y (y ∷ q)
  | false ↦ ok (x ∷ y ∷ q)
]

unfoldable pub contextpop : List Entry → Outcome (Entry × List Entry)
unfolding pop_while
contextpop [] = fail undefined
contextpop (x ∷ q) = elim (pop_while x.key x (x ∷ q)) [ ok q' ↦ ok (x, q') | fail e ↦ fail e ]

unfoldable pub contextpop1 : List Entry → Outcome (Entry × List Entry)
contextpop1 [] = fail undefined
contextpop1 (x ∷ q) = ok (x, q)

unfoldable pub is_empty : List Entry → Bool
is_empty [] = true
is_empty (x ∷ q) = false
