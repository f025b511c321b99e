-- ===== src/Store.antt =====
-- src/Ti-OCSSD/StoreTier/syncstore.cpp: the store tier of the two-tier index. An offset of 32 bits
-- names a value: 8 bits of block, 12 bits of page in the block, 12 bits of slot in the page.
pub mod Buffer
pub mod Log
pub mod Pages
pub mod Reread
use rexio.Base.{
  ℕ, zero, suc, ◌+◌, ◌-◌, ◌*◌, ◌/◌, ◌%◌, ◌^◌, ltb, leb, ◌==◌, if◌then◌else◌, Bool, true, false,
  Option, none, some, List, [], ◌∷◌, ◌++◌, length, get_elem?, set, replicate,
}
use rexio.Outcome.{Outcome, ok, fail, undefined, ◌>>=◌, deref}
use rexio.Cache.Lru.{LruCache, new, is_lru_page, get, put}
use rexio.Cache.Nodes.{ReadNode}
use rexio.Backend.Nvm.{Nvm}
use rexio.Backend.Entry.{Entry}
use rexio.Backend.State.{Ssd, calculate_page_capacity}
use rexio.Backend.Reader.{tnc_entry_read}
use rexio.Backend.Writer.Log.{page_log_write}

-- The global variables of the file. A page in the cache stands for the array it points to.
pub record StoreTier : Type 0 where
  pub indexs : ℕ
  pub offset : ℕ
  pub page_data : List Entry
  pub wbuffer_id : ℕ
  pub buffernumber : ℕ
  pub buffer_log : ℕ → List ℕ
  pub lrucache : LruCache (List Entry)

unfoldable pub initial : StoreTier
unfolding new
initial = record {
  indexs = 0;
  offset = 0;
  page_data = replicate 1030 (record { key = 0; val = 0 });
  wbuffer_id = 0;
  buffernumber = 0;
  buffer_log = λ _. [];
  lrucache = new 2048;
}

-- The full buffer is given up, and the offset moves to the page behind it: the next block when
-- that page is a block's first.
unfoldable pub roll_over : ℕ → StoreTier → StoreTier
roll_over data_page_pointer s =
    let moved = (s.offset + (if data_page_pointer % 4096 == 0 then 2 ^ 24 else 0)) % 2 ^ 32 in
    let cleared = moved / 2 ^ 24 * 2 ^ 24 + moved % 2 ^ 12 in
    let paged = (cleared + data_page_pointer % 4096 * 2 ^ 12) % 2 ^ 32 in
    record s { wbuffer_id = data_page_pointer; offset = paged / 2 ^ 12 * 2 ^ 12; indexs = 0 }

-- `Pagedata[indexs] = {key1, value}; ++indexs; offset++; return offset;`
unfoldable pub append : ℕ → ℕ → StoreTier → Outcome (ℕ × StoreTier)
append key1 value s =
    let next = (s.offset + 1) % 2 ^ 32 in
    if ltb s.indexs (length s.page_data)
    then ok (
      next,
      record s {
        page_data = set s.page_data s.indexs (record { key = key1; val = value });
        indexs = s.indexs + 1;
        offset = next;
      },
    )
    else fail undefined

-- `n` rounds of the loop: the low byte of the offset goes to the log.
unfoldable pub log_bytes : ℕ → ℕ → List ℕ → List ℕ
log_bytes zero offset log = log
log_bytes (suc n) offset log = log_bytes n (offset / 2 ^ 8) (log ++ offset % 2 ^ 8 ∷ [])

unfoldable pub set_log : ℕ → List ℕ → StoreTier → StoreTier
set_log block log s = record s { buffer_log = λ b. if b == block then log else s.buffer_log b }

unfoldable pub read4buffer : StoreTier → ℕ → Outcome Entry
read4buffer s pos = deref (get_elem? s.page_data pos)

-- The position that `SyncRead` finds in an offset is computed in 32 bits.
unfoldable pub position_of : ℕ → ℕ
position_of offset = (offset % 2 ^ 12 + (2 ^ 32 - 1)) % 2 ^ 32

-- `TNCEntry tem{data[Position].key};` leaves the value 0.
unfoldable pub key_at : List Entry → ℕ → Outcome Entry
key_at entries pos = do e ← deref (get_elem? entries pos); ok (record { key = e.key; val = 0 })

module _ (nvm : Nvm) where
  unfoldable pub sync_write : ℕ → ℕ → Ssd nvm → StoreTier → Outcome (ℕ × StoreTier)
  unfolding roll_over append
  sync_write key1 value t s =
      append key1 value (
        if leb (calculate_page_capacity nvm 16) s.indexs
        then roll_over t.data_page_pointer s
        else s)

  unfoldable pub sync_delete : ℕ → Ssd nvm → StoreTier → Outcome (StoreTier × Ssd nvm)
  unfolding log_bytes set_log page_log_write
  sync_delete offset t s =
      let block_id = offset / 2 ^ 24 in
      let log = log_bytes 4 offset (s.buffer_log block_id) in
      if leb (calculate_page_capacity nvm 1) (length log)
      then (do (_, t') ← page_log_write nvm block_id log t; ok (set_log block_id [] s, t'))
      else ok (set_log block_id log s, t)

  -- The page number that `SyncRead` finds in an offset
  unfoldable pub page_of : ℕ → ℕ
  page_of offset = offset / 2 ^ 24 * nvm.nsectr + offset / 2 ^ 12 % 2 ^ 12

  unfoldable pub read_miss : ℕ → ℕ → Ssd nvm → StoreTier → Outcome (Entry × (StoreTier × Ssd nvm))
  unfolding key_at tnc_entry_read
  read_miss page pos t s = do
    (entries, t') ← tnc_entry_read nvm page t
    cache ← put s.lrucache page (record { page_id = page; payload = entries })
    e ← key_at entries pos
    ok (e, (record s { buffernumber = s.buffernumber + 1; lrucache = cache }, t'))

  unfoldable pub read_hit : ℕ → ℕ → Ssd nvm → StoreTier → Outcome (Entry × (StoreTier × Ssd nvm))
  unfolding key_at
  read_hit page pos t s = do
    (cache, values) ← get s.lrucache page
    entries ← deref values
    e ← key_at entries pos
    ok (e, (record s { lrucache = cache }, t))

  unfoldable pub sync_read : ℕ → Ssd nvm → StoreTier → Outcome (Entry × (StoreTier × Ssd nvm))
  unfolding page_of position_of read4buffer read_miss read_hit
  sync_read offset t s =
      let page = page_of offset in
      let pos = position_of offset in
      elim (page == s.wbuffer_id) [
        | true ↦ do e ← read4buffer s pos; ok (e, (s, t))
        | false ↦ elim (is_lru_page s.lrucache page) [
          | true ↦ read_hit page pos t s
          | false ↦ read_miss page pos t s
        ]
      ]
