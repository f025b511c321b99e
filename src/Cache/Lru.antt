-- ===== src/Cache/Lru.antt =====
-- src/LRU/lru.h and src/LRU/lru.cpp: the least-recently-used page cache.
pub mod Order
pub mod Runs
use rexio.Base.{
  ℕ, ◌+◌, ◌%◌, ◌^◌, ◌==◌, if◌then◌else◌, Bool, true, false, Option, none, some, List, [], ◌∷◌,
  length,
}
use rexio.Outcome.{Outcome, ok, ◌>>=◌, deref}
use rexio.Cache.Nodes.{ReadNode, Cell, find_addr, erase_addr, back, pop_back, update}

-- The map is declared over `int`, so a page number of 64 bits is cut to 32 bits on the way in.
unfoldable pub to_int : ℕ → ℕ
to_int page = page % 2 ^ 32

-- `next` is where the allocator places the next list node.
pub record LruCache {ℓ} (D : Type ℓ) : Type ℓ where
  pub hash_map : ℕ → Option ℕ
  pub capacity : ℕ
  pub cache : List (Cell D)
  pub next : ℕ

module _ {ℓ} {D : Type ℓ} where
  unfoldable pub new : ℕ → LruCache D
  new cap = record { hash_map = λ _. none; capacity = cap; cache = []; next = 0 }

  unfoldable pub is_lru_page : LruCache D → ℕ → Bool
  is_lru_page c page = elim (c.hash_map (to_int page)) [ none ↦ false | some _ ↦ true ]

  -- `cache.push_front(node); HashMap[page] = cache.begin();`
  unfoldable pub push_front : LruCache D → ℕ → ReadNode D → LruCache D
  push_front c page node = record c {
    hash_map = update c.hash_map (to_int page) (some c.next);
    cache = record { addr = c.next; node = node } ∷ c.cache;
    next = c.next + 1;
  }

  -- `cache.erase(HashMap[page])`
  unfoldable pub erase : LruCache D → ℕ → LruCache D
  erase c it = record c { cache = erase_addr it c.cache }

  unfoldable pub get : LruCache D → ℕ → Outcome (LruCache D × Option D)
  unfolding erase push_front
  get c page = elim (c.hash_map (to_int page)) [
    | none ↦ ok (c, none)
    | some it ↦ do
      temp ← deref (find_addr it c.cache)
      ok (push_front (erase c it) page temp.node, some temp.node.payload)
  ]

  -- The full cache gives up its last node.
  unfoldable pub make_room : LruCache D → Outcome (LruCache D)
  make_room c =
      if length c.cache == c.capacity
      then (do
        last_pair ← deref (back c.cache)
        ok (record c {
          hash_map = update c.hash_map (to_int last_pair.node.page_id) none;
          cache = pop_back c.cache;
        }))
      else ok c

  unfoldable pub put : LruCache D → ℕ → ReadNode D → Outcome (LruCache D)
  unfolding make_room erase push_front
  put c page node = elim (c.hash_map (to_int page)) [
    | none ↦ do c' ← make_room c; ok (push_front c' page node)
    | some it ↦ do _ ← deref (find_addr it c.cache); ok (push_front (erase c it) page node)
  ]

  unfoldable pub clear_and_reset : LruCache D → ℕ → LruCache D
  clear_and_reset c cap = record c { hash_map = λ _. none; capacity = cap; cache = [] }
