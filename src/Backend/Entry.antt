-- ===== src/Backend/Entry.antt =====
-- The key-value pairs: `entry_t` (src/Auxizilary/pre_definition.h), `LHEntry`, `ExEntry`, `TNCEntry`
-- and `SEntry` are the same two 64-bit words, compared by their keys alone.
use rexio.Base.{ℕ, ◌-◌, ◌^◌, ◌<◌, ltb, ◌==◌, if◌then◌else◌, Bool, Option, none, some, List, [], ◌∷◌}

-- `UINT64_MAX`, the page number that stands for "no page".
abbrev pub uint64_max : ℕ
uint64_max = 2 ^ 64 - 1

pub record Entry : Type 0 where
  pub key : ℕ
  pub val : ℕ

-- `operator ==` and `operator <`
unfoldable pub entry_eq : Entry → Entry → Bool
entry_eq a b = a.key == b.key

unfoldable pub entry_lt : Entry → Entry → Bool
entry_lt a b = ltb a.key b.key

-- `find(v.begin(), v.end(), Entry{key, 0})`, read through its iterator
unfoldable pub find : ℕ → List Entry → Option Entry
find k [] = none
find k (e ∷ es) = if e.key == k then some e else find k es

-- `(*it).val = value`
unfoldable pub assign : ℕ → ℕ → List Entry → List Entry
assign k v [] = []
assign k v (e ∷ es) = if e.key == k then record e { val = v } ∷ es else e ∷ assign k v es

-- `v.erase(it)`
unfoldable pub erase : ℕ → List Entry → List Entry
erase k [] = []
erase k (e ∷ es) = if e.key == k then es else e ∷ erase k es

-- `sort(v.begin(), v.end())`, by `operator <`; the library leaves the order of equal keys open.
unfoldable pub insert_sorted : Entry → List Entry → List Entry
unfolding entry_lt
insert_sorted e [] = e ∷ []
insert_sorted e (x ∷ l) =
    let rest = insert_sorted e l in if entry_lt x e then x ∷ rest else e ∷ x ∷ l

unfoldable pub sort : List Entry → List Entry
unfolding insert_sorted
sort [] = []
sort (e ∷ es) = insert_sorted e (sort es)

-- Both words fit their 64 bits.
pub record IsWords (e : Entry) : Type 0 where
  pub key_fits : e.key < 2 ^ 64
  pub val_fits : e.val < 2 ^ 64

abbrev pub AllWords : List Entry → Type 0
AllWords [] = Unit
AllWords (e ∷ es) = IsWords e × AllWords es
