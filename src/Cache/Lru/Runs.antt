-- ===== src/Cache/Lru/Runs.antt =====
-- src/LRU/lru.cpp: whole runs of calls, and what a stored page reads as.
use rexio.Base.{
  ℕ, ◌<◌, ◌≡◌, ◌↔◌, refl, sym, ap, ◌∙◌, false, Option, none, some, List, [], ◌∷◌, arith,
}
use rexio.Outcome.{Outcome, ok, ◌>>=◌}
use rexio.Cache.Nodes.{ReadNode}
use rexio.Cache.Nodes.Laws.{find_key}
use rexio.Cache.Nodes.View.{view, payload?, lookup, promote, store, view-find_key, lookup-store}
use rexio.Cache.Lru.{to_int, LruCache, new, is_lru_page, get, put, clear_and_reset}
use rexio.Cache.Lru.Order.{IsValid, get_lem, put_lem}

-- One use of the cache by the store tier.
pub data Call {ℓ} (D : Type ℓ) : Type ℓ where
  get_page : ℕ → Call D
  put_page : ℕ → D → Call D
  reset : ℕ → Call D

module _ {ℓ} {D : Type ℓ} where
  abbrev pub node_of : ℕ → D → ReadNode D
  node_of page d = record { page_id = page; payload = d }

  -- The calls in turn; each call of `put` carries the node of its own page.
  unfoldable pub run : List (Call D) → LruCache D → Outcome (LruCache D)
  run [] c = ok c
  run (get_page page ∷ calls) c = do (c', _) ← get c page; run calls c'
  run (put_page page d ∷ calls) c = do c' ← put c page (node_of page d); run calls c'
  run (reset cap ∷ calls) c = run calls (clear_and_reset c cap)

  -- The same calls on a plain list with a capacity.
  unfoldable pub run_view : List (Call D) → ℕ × List (ReadNode D) → ℕ × List (ReadNode D)
  run_view [] s = s
  run_view (get_page page ∷ calls) s = run_view calls (s.0, promote to_int (to_int page) s.1)
  run_view (put_page page d ∷ calls) s = run_view calls (s.0, store to_int s.0 (node_of page d) s.1)
  run_view (reset cap ∷ calls) s = run_view calls (cap, [])

  -- No call resets the cache to capacity 0.
  abbrev pub KeepsRoom : List (Call D) → Type 0
  KeepsRoom [] = Unit
  KeepsRoom (get_page _ ∷ calls) = KeepsRoom calls
  KeepsRoom (put_page _ _ ∷ calls) = KeepsRoom calls
  KeepsRoom (reset cap ∷ calls) = (0 < cap) × KeepsRoom calls

  pub new-IsValid : (cap : ℕ) → IsValid (new {D = D} cap)
  unfolding new find_key
  new-IsValid cap = record { falls = tt; distinct = tt; mapped = λ k. refl; bounded = omega arith }

  pub clear_and_reset-IsValid : (c : LruCache D) (cap : ℕ) → IsValid (clear_and_reset c cap)
  unfolding clear_and_reset find_key
  clear_and_reset-IsValid c cap = record {
    falls = tt;
    distinct = tt;
    mapped = λ k. refl;
    bounded = omega arith;
  }

  -- On a valid cache with room for a page, every run of calls ends without a fault in a valid
  -- cache, and what that holds is what the same calls make of the plain list: the pages in the
  -- order of their last use, as many as fit.
  pub run_lem :
      (calls : List (Call D)) (c : LruCache D)
      → IsValid c
      → 0 < c.capacity
      → KeepsRoom calls
      → (c' : LruCache D) × (run calls c ≡ ok c')
        × IsValid c'
        × ((c'.capacity, view c'.cache) ≡ run_view calls (c.capacity, view c.cache))
  unfolding run run_view clear_and_reset
  run_lem [] c v pos keeps = (c, refl, v, refl)
  run_lem (get_page page ∷ calls) c v pos keeps =
      let (c', step, valid, reads, size) = get_lem c page v in
      let (end, rest, valid', reads') = run_lem calls c' valid (rw size pos) keeps in
      (end, rw (step, rest), valid', rw (← reads, ← size) reads')
  run_lem (put_page page d ∷ calls) c v pos keeps =
      let (c', step, valid, reads, size) = put_lem c page (node_of page d) v pos refl in
      let (end, rest, valid', reads') = run_lem calls c' valid (rw size pos) keeps in
      (end, rw (step, rest), valid', rw (← reads, ← size) reads')
  run_lem (reset n ∷ calls) c v pos keeps =
      run_lem calls (clear_and_reset c n) (clear_and_reset-IsValid c n) keeps.0 keeps.1

  -- A read right after a store returns the stored contents; the two page numbers need only agree
  -- in their low 32 bits, the ones that the map is keyed by.
  pub get-put :
      (c : LruCache D) (page q : ℕ) (d : D)
      → IsValid c
      → 0 < c.capacity
      → to_int q ≡ to_int page
      → (c' : LruCache D) × (c'' : LruCache D) × (put c page (node_of page d) ≡ ok c')
        × (get c' q ≡ ok (c'', some d))
  get-put c page q d v pos same =
      let (c', stored, v', reads, _) = put_lem c page (node_of page d) v pos refl in
      let (c'', found, _, _, _) = get_lem c' q v' in
      (
        c',
        c'',
        stored,
        found
            ∙ ap (λ (o : Option (ReadNode D)). ok (c'', payload? o))
                (ap (lookup to_int (to_int q)) reads
                  ∙ lookup-store to_int c.capacity (to_int q) (node_of page d) (view c.cache) pos
                      (sym same)),
      )

  -- The membership test, on a valid cache, says whether a read would return contents.
  pub is_lru_page_lem :
      (c : LruCache D) (page : ℕ)
      → IsValid c
      → (is_lru_page c page ≡ false) ↔ (lookup to_int (to_int page) (view c.cache) ≡ none)
  unfolding is_lru_page
  is_lru_page_lem c page v =
      ground (arith, v.mapped (to_int page), view-find_key to_int (to_int page) c.cache)
