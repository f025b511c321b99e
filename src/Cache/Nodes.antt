-- ===== src/Cache/Nodes.antt =====
-- The `std::list` of the caches. An iterator stays valid until its node is erased, so a node is
-- modelled with an address of its own, which `push_front` takes from a counter. `key` is the value
-- by which the hash map files a node.
pub mod Laws
pub mod View
use rexio.Base.{ℕ, ◌==◌, if◌then◌else◌, Option, none, some, List, [], ◌∷◌}

-- src/LRU/lru.h `ReadNode`, src/FIFO/FIFO.h `FReadNode`; `D` stands for `TNCEntry *`.
pub record ReadNode {ℓ} (D : Type ℓ) : Type ℓ where
  pub page_id : ℕ
  pub payload : D

-- A list node: its address and its value.
pub record Cell {ℓ} (D : Type ℓ) : Type ℓ where
  pub addr : ℕ
  pub node : ReadNode D

module _ {ℓ} {D : Type ℓ} where
  -- `*it`
  unfoldable pub find_addr : ℕ → List (Cell D) → Option (Cell D)
  find_addr a [] = none
  find_addr a (e ∷ l) = if e.addr == a then some e else find_addr a l

  -- `cache.erase(it)`
  unfoldable pub erase_addr : ℕ → List (Cell D) → List (Cell D)
  erase_addr a [] = []
  erase_addr a (e ∷ l) = if e.addr == a then l else e ∷ erase_addr a l

  -- `cache.back()`
  unfoldable pub back : List (Cell D) → Option (Cell D)
  back [] = none
  back (e ∷ []) = some e
  back (e ∷ f ∷ l) = back (f ∷ l)

  -- `cache.pop_back()`
  unfoldable pub pop_back : List (Cell D) → List (Cell D)
  pop_back [] = []
  pop_back (e ∷ []) = []
  pop_back (e ∷ f ∷ l) = e ∷ pop_back (f ∷ l)

-- A `std::unordered_map` from keys to iterators: `m[k] = a`, and `m.erase(k)` with `none`.
unfoldable pub update : (ℕ → Option ℕ) → ℕ → Option ℕ → ℕ → Option ℕ
update m k v q = if q == k then v else m q
