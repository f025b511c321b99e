-- ===== src/Store/Reread.antt =====
-- src/Ti-OCSSD/StoreTier/syncstore.cpp `SyncRead` over src/Backend/SSDRead/reader.cpp `TNCEntryRead`:
-- reads of a page that was written to the device.
use rexio.Base.{
  ℕ, ◌+◌, ◌*◌, ◌/◌, ◌%◌, ◌^◌, ◌<◌, ◌≡◌, ◌≢◌, refl, sym, ap, ◌∙◌, none, some, List, length,
  get_elem?, arith,
}
use rexio.Outcome.{ok}
use rexio.Cache.Nodes.View.{view, lookup, lookup-store}
use rexio.Cache.Lru.{to_int}
use rexio.Cache.Lru.Order as Lru
use rexio.Backend.Nvm.{Nvm, Reliable}
use rexio.Backend.Entry.{Entry, AllWords}
use rexio.Backend.State as State
use rexio.Backend.State.{Ssd, calculate_page_capacity}
use rexio.Backend.Reader.{tnc_entry_read}
use rexio.Backend.Pages.{Accepts, programmed, read_sectors-program_page, decode-page}
use rexio.Store.{StoreTier, sync_read, page_of, position_of}
use rexio.Store.Pages.{sync_read-cached, sync_read-uncached}

-- The offset of a value: 8 bits of block, 12 of page, and its slot, counted from 1.
abbrev pub offset_of : ℕ → ℕ → ℕ → ℕ
offset_of block page slot = block * 2 ^ 24 + page * 2 ^ 12 + slot + 1

module _ (nvm : Nvm) (block page slot : ℕ) (low : page < 2 ^ 12) (small : slot + 1 < 2 ^ 12) where
  page_of-offset_of : page_of nvm (offset_of block page slot) ≡ block * nvm.nsectr + page
  unfolding page_of
  page_of-offset_of =
      let upper : offset_of block page slot / 2 ^ 24 ≡ block = omega (arith, low, small) in
      let middle : offset_of block page slot / 2 ^ 12 % 2 ^ 12 ≡ page = omega (arith, low, small) in
      rw (upper, middle) refl

  position_of-offset_of : position_of (offset_of block page slot) ≡ slot
  unfolding position_of
  position_of-offset_of = omega (arith, low, small)

module _ (nvm : Nvm) (reliable : Reliable nvm) (width : nvm.nsectr ≡ 4096) (block page : ℕ)
    (low : page < 2 ^ 12) (es : List Entry) (t : Ssd nvm)
    (accepted : Accepts nvm es (block * nvm.nsectr + page) t)
    (fits : length es ≡ calculate_page_capacity nvm 16) (words : AllWords es)
    (narrow : calculate_page_capacity nvm 16 + 1 < 2 ^ 12) where
  abbrev id : ℕ
  id = block * nvm.nsectr + page

  -- The backend behind the write of the page.
  abbrev t₁ : Ssd nvm
  t₁ = programmed nvm es id t

  abbrev t₂ : Ssd nvm
  t₂ = record t₁ { counters = record t₁.counters { reads = t₁.counters.reads + 1 } }

  tnc_entry_read-programmed : tnc_entry_read nvm id t₁ ≡ ok (es, t₂)
  unfolding tnc_entry_read
  tnc_entry_read-programmed =
      let sectors = read_sectors-program_page nvm reliable width es id t accepted t₂ refl in
      let page = decode-page nvm reliable width es id t accepted fits words in
      rw (State.◌>>=◌, sectors, page) refl

  module _ (s : StoreTier) (valid : Lru.IsValid s.lrucache) (room : 0 < s.lrucache.capacity)
      (elsewhere : id ≢ s.wbuffer_id)
      (absent : lookup to_int (to_int id) (view s.lrucache.cache) ≡ none) where
    -- A page that a reliable device took, and that neither the buffer nor the cache holds, is asked of
    -- the device by the first read of one of its offsets, and stored in the cache; the read of
    -- another offset of the page then leaves the device and its counters alone. Each of the two
    -- returns the key in the slot that its offset counts from 1, and 0 for the value.
    pub sync_read-programmed :
        (i j : ℕ) (e f : Entry)
        → i < length es
        → j < length es
        → get_elem? es i ≡ some e
        → get_elem? es j ≡ some f
        → (s' s'' : StoreTier) × (sync_read nvm (offset_of block page i) t₁ s
            ≡ ok (record { key = e.key; val = 0 }, (s', t₂)))
          × (sync_read nvm (offset_of block page j) t₂ s'
              ≡ ok (record { key = f.key; val = 0 }, (s'', t₂)))
          × Lru.IsValid s''.lrucache
    sync_read-programmed i j e f i_in j_in e_there f_there =
        let o = offset_of block page i in
        let q = offset_of block page j in
        let i_low : i + 1 < 2 ^ 12 = omega (arith, i_in, fits, narrow) in
        let j_low : j + 1 < 2 ^ 12 = omega (arith, j_in, fits, narrow) in
        let o_page = page_of-offset_of nvm block page i low i_low in
        let q_page = page_of-offset_of nvm block page j low j_low in
        let o_slot = position_of-offset_of nvm block page i low i_low in
        let q_slot = position_of-offset_of nvm block page j low j_low in
        let (c', first, valid', stored) =
          sync_read-uncached nvm o t₁ s e valid (λ h. elsewhere (sym o_page ∙ h)) t₂ es
            (ap (λ p. lookup to_int (to_int p) (view s.lrucache.cache)) o_page ∙ absent) room
            (ap (λ p. tnc_entry_read nvm p t₁) o_page ∙ tnc_entry_read-programmed)
            (ap (get_elem? es) o_slot ∙ e_there) in
        let s' = record s { buffernumber = s.buffernumber + 1; lrucache = c' } in
        let hit =
          ap (lookup to_int (to_int (page_of nvm q))) stored
          ∙ lookup-store to_int s.lrucache.capacity (to_int (page_of nvm q))
              (record { page_id = page_of nvm o; payload = es }) (view s.lrucache.cache) room
              (ap to_int (o_page ∙ sym q_page)) in
        let (c'', second, valid'', _) =
          sync_read-cached nvm q t₂ s' f valid' (λ h. elsewhere (sym q_page ∙ h))
            (record { page_id = page_of nvm o; payload = es }) hit
            (ap (get_elem? es) q_slot ∙ f_there) in
        (s', record s' { lrucache = c'' }, first, second, valid'')
