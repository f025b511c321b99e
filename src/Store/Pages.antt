-- ===== src/Store/Pages.antt =====
-- src/Ti-OCSSD/StoreTier/syncstore.cpp `SyncRead`: reads of pages that are not in the buffer.
use rexio.Base.{ℕ, ◌+◌, ◌<◌, ◌≡◌, ◌≢◌, refl, ◌==◌, true, false, none, some, List, get_elem?, arith}
use rexio.Outcome.{ok}
use rexio.Cache.Nodes.{ReadNode}
use rexio.Cache.Nodes.View.{view, lookup, promote, store}
use rexio.Cache.Lru.{LruCache, to_int, is_lru_page}
use rexio.Cache.Lru.Order as Lru
use rexio.Cache.Lru.Runs.{is_lru_page_lem}
use rexio.Backend.Nvm.{Nvm}
use rexio.Backend.Entry.{Entry}
use rexio.Backend.State.{Ssd}
use rexio.Backend.Reader.{tnc_entry_read}
use rexio.Store.{StoreTier, sync_read, page_of, position_of}

module _ (nvm : Nvm) (o : ℕ) (t : Ssd nvm) (s : StoreTier) (e : Entry)
    (valid : Lru.IsValid s.lrucache) (elsewhere : page_of nvm o ≢ s.wbuffer_id) where
  not_buffered : (page_of nvm o == s.wbuffer_id) ≡ false
  not_buffered = ground arith

  cached_lem :
      (n : ReadNode (List Entry))
      → lookup to_int (to_int (page_of nvm o)) (view s.lrucache.cache) ≡ some n
      → is_lru_page s.lrucache (page_of nvm o) ≡ true
  cached_lem n there = ground (arith, is_lru_page_lem s.lrucache (page_of nvm o) valid, there)

  -- A read that hits the cache.
  pub sync_read-cached :
      (n : ReadNode (List Entry))
      → lookup to_int (to_int (page_of nvm o)) (view s.lrucache.cache) ≡ some n
      → get_elem? n.payload (position_of o) ≡ some e
      → (c' : LruCache (List Entry)) × (sync_read nvm o t s
          ≡ ok (record { key = e.key; val = 0 }, (record s { lrucache = c' }, t)))
        × Lru.IsValid c'
        × (view c'.cache ≡ promote to_int (to_int (page_of nvm o)) (view s.lrucache.cache))
  unfolding sync_read
  sync_read-cached n there here =
      let (c', found, valid', order, _) = Lru.get_lem s.lrucache (page_of nvm o) valid in
      (c', rw (sync_read, not_buffered, cached_lem n there, found, there, here), valid', order)

  -- A read that misses the cache.
  pub sync_read-uncached :
      (t' : Ssd nvm) (entries : List Entry)
      → lookup to_int (to_int (page_of nvm o)) (view s.lrucache.cache) ≡ none
      → 0 < s.lrucache.capacity
      → tnc_entry_read nvm (page_of nvm o) t ≡ ok (entries, t')
      → get_elem? entries (position_of o) ≡ some e
      → (c' : LruCache (List Entry)) × (sync_read nvm o t s
          ≡ ok (
            record { key = e.key; val = 0 },
            (record s { buffernumber = s.buffernumber + 1; lrucache = c' }, t'),
          ))
        × Lru.IsValid c'
        × (view c'.cache
            ≡ store to_int s.lrucache.capacity
                (record { page_id = page_of nvm o; payload = entries })
                (view s.lrucache.cache))
  unfolding sync_read
  sync_read-uncached t' entries absent pos device here =
      let (c', stored, valid', order, _) =
        Lru.put_lem s.lrucache (page_of nvm o)
          (record { page_id = page_of nvm o; payload = entries }) valid pos refl in
      let uncached = (is_lru_page_lem s.lrucache (page_of nvm o) valid).1 absent in
      (c', rw (sync_read, not_buffered, uncached, device, stored, here), valid', order)
