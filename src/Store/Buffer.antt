-- ===== src/Store/Buffer.antt =====
-- src/Ti-OCSSD/StoreTier/syncstore.cpp: the buffered page, what is written to it is read from it.
use rexio.Base.{
  ℕ, ◌+◌, ◌-◌, ◌*◌, ◌/◌, ◌%◌, ◌^◌, ◌≤◌, ◌<◌, ◌≡◌, ◌≢◌, ◌↔◌, refl, sym, ap, ◌∙◌, ◌==◌, if◌then◌else◌,
  some, length, get_elem?, set, length-set, get_elem?-set_self, get_elem?-set_ne, arith,
}
use rexio.Outcome.{ok}
use rexio.Backend.Nvm.{Nvm}
use rexio.Backend.Entry.{Entry}
use rexio.Backend.State.{Ssd, calculate_page_capacity}
use rexio.Store.{StoreTier, sync_write, sync_read, roll_over, page_of, position_of}

module _ (nvm : Nvm) where
  -- The offset is that of the last value written to the buffered page.
  pub record IsValid (s : StoreTier) : Type 0 where
    pub sized : length s.page_data ≡ 1030
    pub bounded : s.indexs ≤ calculate_page_capacity nvm 16
    pub word : s.offset < 2 ^ 32
    pub slot : s.offset % 2 ^ 12 ≡ s.indexs
    pub paged : page_of nvm s.offset ≡ s.wbuffer_id

  -- `q` names a value of the buffered page.
  pub record Buffered (s : StoreTier) (q : ℕ) : Type 0 where
    pub here : page_of nvm q ≡ s.wbuffer_id
    pub written : 0 < q % 2 ^ 12
    pub before : q % 2 ^ 12 ≤ s.indexs

-- The masks of the roll, on a word with block `h` and slot `l`, leave block and page.
masks_lem :
    (h l page : ℕ)
    → h < 2 ^ 8
    → l < 2 ^ 12
    → page < 2 ^ 12
    → (h * 2 ^ 24 + l + page * 2 ^ 12) % 2 ^ 32 / 2 ^ 12 * 2 ^ 12 ≡ h * 2 ^ 24 + page * 2 ^ 12
masks_lem h l page a b c = omega arith

roll_over-offset :
    (d : ℕ) (s : StoreTier)
    → s.offset < 2 ^ 32
    → (roll_over d s).offset
      ≡ (s.offset / 2 ^ 24 + (if d % 4096 == 0 then 1 else 0)) % 2 ^ 8 * 2 ^ 24 + d % 4096 * 2 ^ 12
unfolding roll_over
roll_over-offset d s h =
    let moved = (s.offset + (if d % 4096 == 0 then 2 ^ 24 else 0)) % 2 ^ 32 in
    let block : moved / 2 ^ 24 ≡ (s.offset / 2 ^ 24 + (if d % 4096 == 0 then 1 else 0)) % 2 ^ 8 =
      ground arith in
    masks_lem (moved / 2 ^ 24) (moved % 2 ^ 12) (d % 4096) (omega arith) (omega arith) (omega arith)
    ∙ rw block

module _ (nvm : Nvm) (t : Ssd nvm) where
  position_lem : (q : ℕ) → 0 < q % 2 ^ 12 → position_of q ≡ q % 2 ^ 12 - 1
  unfolding position_of
  position_lem q h = omega arith

  pub sync_read-Buffered :
      (s : StoreTier) (q : ℕ) (e : Entry)
      → Buffered nvm s q
      → get_elem? s.page_data (q % 2 ^ 12 - 1) ≡ some e
      → sync_read nvm q t s ≡ ok (e, (s, t))
  unfolding sync_read
  sync_read-Buffered s q e b here = ground (arith, b.here, position_lem q b.written)

  abbrev pub written : ℕ → ℕ → StoreTier → StoreTier
  written k v s = record s {
    page_data = set s.page_data s.indexs (record { key = k; val = v });
    indexs = s.indexs + 1;
    offset = s.offset + 1;
  }

  module _ (s : StoreTier) (k v : ℕ) (valid : IsValid nvm s)
      (fits : calculate_page_capacity nvm 16 ≤ 1030)
      (room : s.indexs < calculate_page_capacity nvm 16) where
    next_lem :
        ((s.offset + 1) % 2 ^ 32 ≡ s.offset + 1)
        × ((s.offset + 1) % 2 ^ 12 ≡ s.indexs + 1)
        × (page_of nvm (s.offset + 1) ≡ s.wbuffer_id)
    unfolding page_of
    next_lem =
        let same_page : (s.offset + 1) / 2 ^ 12 ≡ s.offset / 2 ^ 12 = omega (arith, valid.slot) in
        let same_block : (s.offset + 1) / 2 ^ 24 ≡ s.offset / 2 ^ 24 = omega (arith, valid.slot) in
        (
          omega (arith, valid.slot, valid.word),
          omega (arith, valid.slot),
          rw (page_of, same_page, same_block) valid.paged,
        )

    pub sync_write-room : sync_write nvm k v t s ≡ ok (s.offset + 1, written k v s)
    unfolding sync_write
    sync_write-room = ground (arith, next_lem.0, valid.sized)

    pub written-IsValid : IsValid nvm (written k v s)
    written-IsValid = record {
      sized = length-set s.page_data s.indexs _ ∙ valid.sized;
      bounded = omega arith;
      word = omega (arith, next_lem.0);
      slot = next_lem.1;
      paged = next_lem.2;
    }

    -- A value written while the page has room is read back under the offset that the write returns,
    -- and every value written to the page before keeps its contents.
    pub sync_read-sync_write :
        (s' : StoreTier) × (sync_write nvm k v t s ≡ ok (s.offset + 1, s'))
        × IsValid nvm s'
        × (sync_read nvm (s.offset + 1) t s' ≡ ok (record { key = k; val = v }, (s', t)))
        × ((q : ℕ) (e : Entry)
            → Buffered nvm s q
            → get_elem? s.page_data (q % 2 ^ 12 - 1) ≡ some e
            → (sync_read nvm q t s ≡ ok (e, (s, t))) × (sync_read nvm q t s' ≡ ok (e, (s', t))))
    sync_read-sync_write =
        let (_, slot, paged) = next_lem in
        let here : (s.offset + 1) % 2 ^ 12 - 1 ≡ s.indexs = omega (arith, slot) in
        (
          written k v s,
          sync_write-room,
          written-IsValid,
          sync_read-Buffered (written k v s) (s.offset + 1) (record { key = k; val = v })
              (record { here = paged; written = omega (arith, slot); before = omega (arith, slot) })
              (rw here (
                get_elem?-set_self s.page_data s.indexs (record { key = k; val = v })
                  (omega (arith, valid.sized)))),
          λ q e b here. (
            sync_read-Buffered s q e b here,
            sync_read-Buffered (written k v s) q e
                (record { here = b.here; written = b.written; before = omega (arith, b.before) })
                (get_elem?-set_ne s.page_data {i = s.indexs} {j = q % 2 ^ 12 - 1} _
                    (λ same. omega (arith, b.before, b.written))
                  ∙ here),
          ),
        )

  -- The block of the page where the pointer of data pages stands, as the store tier counts blocks.
  abbrev pub next_block : StoreTier → ℕ
  next_block s = (s.offset / 2 ^ 24 + (if t.data_page_pointer % 4096 == 0 then 1 else 0)) % 2 ^ 8

  -- The store tier behind the first write to a new page.
  abbrev pub turned : ℕ → ℕ → StoreTier → StoreTier
  turned k v s = record s {
    page_data = set s.page_data 0 (record { key = k; val = v });
    indexs = 1;
    offset = next_block s * 2 ^ 24 + t.data_page_pointer % 4096 * 2 ^ 12 + 1;
    wbuffer_id = t.data_page_pointer;
  }

  module _ (s : StoreTier) (k v : ℕ) (valid : IsValid nvm s)
      (pos : 0 < calculate_page_capacity nvm 16)
      (full : s.indexs ≡ calculate_page_capacity nvm 16) where
    turned-offset : ((roll_over t.data_page_pointer s).offset + 1) % 2 ^ 32 ≡ (turned k v s).offset
    turned-offset = rw (roll_over-offset t.data_page_pointer s valid.word) (omega arith)

    sync_write-turned : sync_write nvm k v t s ≡ ok ((turned k v s).offset, turned k v s)
    unfolding sync_write
    sync_write-turned = ground (arith, turned-offset, valid.sized)

    turned-fields :
        ((turned k v s).offset % 2 ^ 12 ≡ 1)
        × (page_of nvm (turned k v s).offset
            ≡ next_block s * nvm.nsectr + t.data_page_pointer % 4096)
    unfolding page_of
    turned-fields =
        let o = (turned k v s).offset in
        let block : o / 2 ^ 24 ≡ next_block s = omega arith in
        let page : o / 2 ^ 12 % 2 ^ 12 ≡ t.data_page_pointer % 4096 = omega arith in
        (omega arith, rw (page_of, block, page))

    -- The write that follows a full page gives that page up and starts the next one: slot 1 of the
    -- page where the pointer of data pages stands, in the next block if that page is a block's
    -- first. The result is valid again exactly when the offset then names the page of the pointer.
    pub sync_write-full :
        (s' : StoreTier) × (sync_write nvm k v t s ≡ ok (s'.offset, s'))
        × (s'.offset % 2 ^ 12 ≡ 1)
        × (page_of nvm s'.offset ≡ next_block s * nvm.nsectr + t.data_page_pointer % 4096)
        × (s'.wbuffer_id ≡ t.data_page_pointer)
        × (get_elem? s'.page_data 0 ≡ some (record { key = k; val = v }))
        × (IsValid nvm s'
            ↔ (next_block s * nvm.nsectr + t.data_page_pointer % 4096 ≡ t.data_page_pointer))
    sync_write-full = (
      turned k v s,
      sync_write-turned,
      turned-fields.0,
      turned-fields.1,
      refl,
      get_elem?-set_self s.page_data 0 _ (omega (arith, valid.sized)),
      (
        λ valid'. sym turned-fields.1 ∙ valid'.paged,
        λ there. record {
          sized = length-set s.page_data 0 _ ∙ valid.sized;
          bounded = pos;
          word = omega arith;
          slot = turned-fields.0;
          paged = turned-fields.1 ∙ there;
        },
      ),
    )

    stuck_block :
        nvm.nsectr ≡ 4096
        → t.data_page_pointer ≡ s.wbuffer_id
        → t.data_page_pointer % 4096 ≡ 0
        → next_block s * nvm.nsectr + t.data_page_pointer % 4096 ≢ t.data_page_pointer
    unfolding page_of
    stuck_block width same first e =
        let old : s.offset / 2 ^ 24 * 4096 + s.offset / 2 ^ 12 % 2 ^ 12 ≡ s.wbuffer_id =
          ap (λ n. s.offset / 2 ^ 24 * n + s.offset / 2 ^ 12 % 2 ^ 12) (sym width) ∙ valid.paged in
        let new : next_block s * 4096 + t.data_page_pointer % 4096 ≡ t.data_page_pointer =
          ap (λ n. next_block s * n + t.data_page_pointer % 4096) (sym width) ∙ e in
        ground (arith, old, new)

    -- While the pointer of data pages stays at the page of the buffer, the first of its block, as it
    -- does when no page is written, the write behind a full page returns an offset that does not
    -- name the buffer: what is read under it is not looked up in the buffer.
    pub sync_write-stuck :
        nvm.nsectr ≡ 4096
        → t.data_page_pointer ≡ s.wbuffer_id
        → t.data_page_pointer % 4096 ≡ 0
        → (s' : StoreTier) × (sync_write nvm k v t s ≡ ok (s'.offset, s'))
          × (page_of nvm s'.offset ≢ s'.wbuffer_id)
    sync_write-stuck width same first =
        let (s', run, _, page, here, _, _) = sync_write-full in
        (s', run, λ e. stuck_block width same first (sym page ∙ e ∙ here))
