-- ===== src/Lsm/Buffer.antt =====
-- src/LSM-Tree/UtilityDefine/buffer.h and UtilityImplement/buffer.cpp: the in-memory buffer, level 0 of
-- the tree. A `std::set` is the list of its elements in the order of `operator <`, which reads the
-- keys alone.
pub mod Order
pub mod Values
pub mod Range
use rexio.Base.{
  ℕ, ◌+◌, ◌-◌, ◌*◌, ltb, leb, ◌==◌, if◌then◌else◌, Bool, true, false, Option, none, some, List, [],
  ◌∷◌, take, drop, suc,
}
use rexio.Outcome.{Outcome, ok, fail, undefined}
use rexio.Backend.Entry.{Entry, entry_lt}
use rexio.Backend.Nvm.{Nvm}
use rexio.Backend.State.{calculate_page_capacity}

pub record Buffer : Type 0 where
  pub max_size : ℕ
  pub size : ℕ
  pub entries : List Entry

-- The result of `Entries.insert(e)`: an element with an equal key keeps the new one out.
unfoldable pub set_insert : Entry → List Entry → List Entry × Bool
unfolding entry_lt
set_insert e [] = (e ∷ [], true)
set_insert e (x ∷ l) =
    let (l', added) = set_insert e l in
    if entry_lt e x
    then (e ∷ x ∷ l, true)
    else if entry_lt x e
    then (x ∷ l', added)
    else (x ∷ l, false)

-- `Entries.find(e)`
unfoldable pub set_find : ℕ → List Entry → Option Entry
set_find k [] = none
set_find k (x ∷ l) = if x.key == k then some x else set_find k l

-- `Entries.erase(it)` of the element with a key
unfoldable pub set_erase : ℕ → List Entry → List Entry
set_erase k [] = []
set_erase k (x ∷ l) = if x.key == k then l else x ∷ set_erase k l

unfoldable pub new : Nvm → ℕ → Buffer
new nvm maxpage = record {
  max_size = calculate_page_capacity nvm 16 * maxpage;
  size = 0;
  entries = [];
}

-- False when the buffer is full.
unfoldable pub put_value : ℕ → ℕ → Buffer → Bool × Buffer
unfolding set_insert set_erase
put_value key1 val1 b =
    let e : Entry = record { key = key1; val = val1 } in
    let (l, added) = set_insert e b.entries in
    if leb b.max_size b.size
    then (false, b)
    else (if added
        then (true, record b { size = b.size + 1; entries = l })
        else (true, record b { entries = (set_insert e (set_erase key1 l)).0 }))

unfoldable pub get_value : ℕ → Buffer → Option ℕ
unfolding set_find
get_value key1 b = elim (set_find key1 b.entries) [ none ↦ none | some e ↦ some e.val ]

unfoldable pub all_clear : Buffer → Buffer
all_clear b = record b { size = 0; entries = [] }

unfoldable pub get_max_size : Buffer → ℕ
get_max_size b = b.max_size

unfoldable pub get_entries : Buffer → List Entry
get_entries b = b.entries

-- How many elements stand in front of `Entries.lower_bound(e)`, and of `Entries.upper_bound(e)`.
unfoldable pub set_lower_bound : ℕ → List Entry → ℕ
set_lower_bound k [] = 0
set_lower_bound k (x ∷ l) = let rest = set_lower_bound k l in if ltb x.key k then suc rest else 0

unfoldable pub set_upper_bound : ℕ → List Entry → ℕ
set_upper_bound k [] = 0
set_upper_bound k (x ∷ l) = let rest = set_upper_bound k l in if ltb k x.key then 0 else suc rest

-- A vector of a range whose end stands in front of its start is undefined.
unfoldable pub get_range : ℕ → ℕ → Buffer → Outcome (List Entry)
unfolding set_lower_bound set_upper_bound
get_range start end b =
    let first = set_lower_bound start b.entries in
    let last = set_upper_bound end b.entries in
    if ltb last first then fail undefined else ok (take (last - first) (drop first b.entries))
