-- ===== src/Cache/Fifo.antt =====
-- src/FIFO/FIFO.h and src/FIFO/FIFO.cpp: the first-in-first-out page cache. Its map is keyed by the
-- whole page number, and its capacity has 16 bits.
pub mod Order
use rexio.Base.{
  ℕ, ◌+◌, ◌%◌, ◌^◌, ◌==◌, if◌then◌else◌, Bool, true, false, Option, none, some, List, [], ◌∷◌,
  length,
}
use rexio.Outcome.{Outcome, ok, ◌>>=◌, deref}
use rexio.Cache.Nodes.{ReadNode, Cell, find_addr, back, pop_back, update}

pub record FifoCache {ℓ} (D : Type ℓ) : Type ℓ where
  pub capacity : ℕ
  pub rcache : List (Cell D)
  pub hash_map : ℕ → Option ℕ
  pub next : ℕ

module _ {ℓ} {D : Type ℓ} where
  unfoldable pub new : ℕ → FifoCache D
  new cap = record { capacity = cap % 2 ^ 16; rcache = []; hash_map = λ _. none; next = 0 }

  unfoldable pub is_fifo_page : FifoCache D → ℕ → Bool
  is_fifo_page c page = elim (c.hash_map page) [ none ↦ false | some _ ↦ true ]

  unfoldable pub get : FifoCache D → ℕ → Outcome (FifoCache D × Option D)
  get c page = elim (c.hash_map page) [
    | none ↦ ok (c, none)
    | some it ↦ do temp ← deref (find_addr it c.rcache); ok (c, some temp.node.payload)
  ]

  unfoldable pub make_room : FifoCache D → Outcome (FifoCache D)
  make_room c =
      if length c.rcache == c.capacity
      then (do
        last_pair ← deref (back c.rcache)
        ok (record c {
          hash_map = update c.hash_map last_pair.node.page_id none;
          rcache = pop_back c.rcache;
        }))
      else ok c

  -- A page that is cached already is left as it is.
  unfoldable pub put : FifoCache D → ℕ → ReadNode D → Outcome (FifoCache D)
  unfolding make_room
  put c page node = elim (c.hash_map page) [
    | none ↦ do
      c' ← make_room c
      ok (record c' {
        rcache = record { addr = c'.next; node = node } ∷ c'.rcache;
        hash_map = update c'.hash_map page (some c'.next);
        next = c'.next + 1;
      })
    | some _ ↦ ok c
  ]

  unfoldable pub clear : FifoCache D → ℕ → FifoCache D
  clear c cap = record c { hash_map = λ _. none; rcache = []; capacity = cap % 2 ^ 16 }
