-- ===== src/Tests/Caches.antt =====
-- The theorems of the page caches on caches with contents.
use rexio.Base.{ℕ, ◌≡◌, refl, none, some, List, [], ◌∷◌, arith}
use rexio.Outcome.{ok}
use rexio.Cache.Nodes.{ReadNode, update}
use rexio.Cache.Nodes.Laws.{find_key}
use rexio.Cache.Nodes.View.{view, lookup, promote, store, remove}
use rexio.Cache.Lru.{to_int, LruCache, get, put}
use rexio.Cache.Lru.Order.{IsValid}
use rexio.Cache.Lru.Runs.{Call, get_page, put_page, node_of, run, run_view, run_lem, get-put}
use rexio.Cache.Fifo
use rexio.Cache.Fifo.{FifoCache}
use rexio.Cache.Fifo.Order as FifoOrder

-- Pages 1 and 2, the second used last.
abbrev two_pages : LruCache ℕ
two_pages = record {
  hash_map = update (update (λ _. none) 1 (some 0)) 2 (some 1);
  capacity = 2;
  cache = record { addr = 1; node = node_of 2 20 } ∷ record { addr = 0; node = node_of 1 10 } ∷ [];
  next = 2;
}

two_pages-IsValid : IsValid two_pages
unfolding update find_key to_int
two_pages-IsValid = record {
  falls = ground arith;
  distinct = ground arith;
  mapped = λ k. ground arith;
  bounded = omega arith;
}

-- The read of page 1 saves it from the store of page 3.
abbrev calls : List (Call ℕ)
calls = get_page 1 ∷ put_page 3 30 ∷ []

run_lem_example :
    (c' : LruCache ℕ) × (run calls two_pages ≡ ok c')
    × IsValid c'
    × (◌≡◌ {A = ℕ × List (ReadNode ℕ)}
        (c'.capacity, view c'.cache)
        (2, node_of 3 30 ∷ node_of 1 10 ∷ []))
unfolding run_view promote lookup store remove to_int
run_lem_example = run_lem calls two_pages two_pages-IsValid (omega arith) tt

-- Page 4294967303 is read where page 7 was stored.
get-put_example :
    (c' : LruCache ℕ) × (c'' : LruCache ℕ) × (put two_pages 7 (node_of 7 70) ≡ ok c')
    × (get c' 4294967303 ≡ ok (c'', some 70))
unfolding to_int
get-put_example = get-put two_pages 7 4294967303 70 two_pages-IsValid (omega arith) refl

abbrev two_fifo : FifoCache ℕ
two_fifo = record {
  capacity = 2;
  rcache = record { addr = 1; node = node_of 2 20 } ∷ record { addr = 0; node = node_of 1 10 } ∷ [];
  hash_map = update (update (λ _. none) 1 (some 0)) 2 (some 1);
  next = 2;
}

two_fifo-IsValid : FifoOrder.IsValid two_fifo
unfolding update find_key
two_fifo-IsValid = record {
  falls = ground arith;
  distinct = ground arith;
  mapped = λ k. ground arith;
  bounded = omega arith;
}

fifo_put_lem_example :
    (c' : FifoCache ℕ) × (Fifo.put two_fifo 3 (node_of 3 30) ≡ ok c')
    × FifoOrder.IsValid c'
    × (view c'.rcache ≡ node_of 3 30 ∷ node_of 2 20 ∷ [])
    × (c'.capacity ≡ 2)
unfolding FifoOrder.arrive lookup store remove
fifo_put_lem_example = FifoOrder.fifo_put_lem two_fifo (node_of 3 30) two_fifo-IsValid (omega arith)
