-- ===== src/Store/Log.antt =====
-- src/Ti-OCSSD/StoreTier/syncstore.cpp `SyncDelete` and src/Backend/SSDWrite/writer.cpp
-- `PageLogWrite`: the log of deleted offsets.
use rexio.Base.{
  ℕ, zero, suc, ◌+◌, ◌*◌, ◌/◌, ◌%◌, ◌^◌, ◌≤◌, ◌<◌, ◌≡◌, refl, sym, ap, ◌∙◌, leb, true, false, List,
  [], ◌∷◌, ◌++◌, length, take, drop, length-append, arith,
}
use mathlib.Core.Path.{ap₂}
use mathlib.Core.List.{append-nil, append_assoc}
use rexio.Outcome.{ok, fail, assertion}
use rexio.Backend.Nvm.{Nvm, Reliable}
use rexio.Backend.Codec.{to_bytes, of_bytes, of_bytes-to_bytes, length-to_bytes}
use rexio.Backend.State.{Ssd, calculate_page_capacity, addrs_from}
use rexio.Backend.Pages.{length-addrs_from}
use rexio.Backend.Eraser.{write_sectors}
use rexio.Backend.Writer.Log.{page_log_write, copy_to_buffer, log_log_page}
use rexio.Store.{StoreTier, sync_delete, log_bytes, set_log}

-- A log is the offsets one behind the other, four bytes each, lowest first.
unfoldable pub words : List ℕ → List ℕ
words [] = []
words (o ∷ os) = to_bytes 4 o ++ words os

unfoldable pub offsets : ℕ → List ℕ → List ℕ
offsets zero log = []
offsets (suc n) log = of_bytes (take 4 log) ∷ offsets n (drop 4 log)

abbrev pub AllOffsets : List ℕ → Type 0
AllOffsets [] = Unit
AllOffsets (o ∷ os) = (o < 2 ^ 32) × AllOffsets os

-- The offsets are read back from their log, whatever lies behind them.
pub offsets-words : (os rest : List ℕ) → AllOffsets os → offsets (length os) (words os ++ rest) ≡ os
unfolding offsets words to_bytes
offsets-words [] rest fit = refl
offsets-words (o ∷ os) rest fit =
    ap₂ ◌∷◌ (of_bytes-to_bytes 4 o fit.0) (offsets-words os rest fit.1)

length-words : (os : List ℕ) → length (words os) ≡ 4 * length os
unfolding words
length-words [] = refl
length-words (o ∷ os) =
    ground (arith, length-append (to_bytes 4 o) (words os), length-to_bytes 4 o, length-words os)

words-append : (os : List ℕ) (o : ℕ) → words (os ++ o ∷ []) ≡ words os ++ to_bytes 4 o
unfolding words
words-append [] o = append-nil (to_bytes 4 o)
words-append (p ∷ os) o =
    rw (words, words-append os o) (sym (append_assoc (to_bytes 4 p) (words os) (to_bytes 4 o)))

log_bytes_lem : (n o : ℕ) (log : List ℕ) → log_bytes n o log ≡ log ++ to_bytes n o
unfolding log_bytes to_bytes
log_bytes_lem zero o log = sym (append-nil log)
log_bytes_lem (suc n) o log =
    log_bytes_lem n (o / 2 ^ 8) (log ++ o % 2 ^ 8 ∷ [])
    ∙ append_assoc log (o % 2 ^ 8 ∷ []) (to_bytes n (o / 2 ^ 8))

take_all {ℓ} : {A : Type ℓ} (n : ℕ) (xs : List A) → length xs ≡ n → take n xs ≡ xs
take_all zero [] h = refl
take_all zero (x ∷ xs) h = absurd (omega arith)
take_all (suc n) [] h = refl
take_all (suc n) (x ∷ xs) h = ap (◌∷◌ x) (take_all n xs (omega arith))

module _ (nvm : Nvm) (block pointer : ℕ) (t : Ssd nvm) where
  log_log_page-chunk_log :
      (log_log_page nvm block pointer t).chunk_log block ≡ t.chunk_log block ++ pointer ∷ []
  unfolding log_log_page
  log_log_page-chunk_log = ground arith

  log_log_page-chunkusage :
      pointer ≤ 4092
      → (log_log_page nvm block pointer t).chunkusage block ≡ t.chunkusage block + nvm.ws_min
  unfolding log_log_page
  log_log_page-chunkusage h =
      let same : (pointer + 4096 * block) / 4096 ≡ block = omega arith in ground arith

module _ (nvm : Nvm) (block : ℕ) (log : List ℕ) (t : Ssd nvm) where
  abbrev pub log_addrs : List nvm.Addr
  log_addrs =
      addrs_from nvm (nvm.dev2gen (t.chunkusage block + 4096 * block)) (t.chunkusage block)
        nvm.ws_min

  abbrev pub log_buffer : List ℕ
  log_buffer = log ++ drop 16384 t.write_buf

  -- The backend behind the copy and the write.
  abbrev logged : Ssd nvm
  logged = record t {
    dev = (nvm.cmd_write t.dev log_addrs log_buffer).0;
    write_buf = log_buffer;
    counters = record t.counters { writes = t.counters.writes + 1 };
  }

  -- A block with room takes a full log to its next page: the device gets the log, the page is noted
  -- as a log page of the block, and the block is one page fuller.
  pub page_log_write_lem :
      length log ≡ 16384
      → t.chunkusage block ≤ 4092
      → (nvm.cmd_write t.dev log_addrs log_buffer).1 ≡ true
      → (t' : Ssd nvm) × (page_log_write nvm block log t ≡ ok (tt, t'))
        × (t'.dev ≡ (nvm.cmd_write t.dev log_addrs log_buffer).0)
        × (t'.write_buf ≡ log_buffer)
        × (t'.chunk_log block ≡ t.chunk_log block ++ t.chunkusage block ∷ [])
        × (t'.chunkusage block ≡ t.chunkusage block + nvm.ws_min)
  unfolding page_log_write
  page_log_write_lem full room accepted =
      let fits : leb (t.chunkusage block) 4092 ≡ true = ground arith in
      let whole : take 16384 log ≡ log = take_all 16384 log full in
      (
        log_log_page nvm block (t.chunkusage block) logged,
        rw (page_log_write, fits, copy_to_buffer, full, whole, write_sectors, accepted),
        refl,
        refl,
        log_log_page-chunk_log nvm block (t.chunkusage block) logged,
        log_log_page-chunkusage nvm block (t.chunkusage block) logged room,
      )

  -- A block that is out of room ends the program.
  pub page_log_write-no_room :
      4092 < t.chunkusage block → page_log_write nvm block log t ≡ fail assertion
  unfolding page_log_write
  page_log_write-no_room h =
      let no_room : leb (t.chunkusage block) 4092 ≡ false = ground arith in rw no_room

take-append_whole {ℓ} :
    {A : Type ℓ} (n : ℕ) (xs ys : List A) → length xs ≡ n → take n (xs ++ ys) ≡ xs
take-append_whole zero [] ys h = refl
take-append_whole zero (x ∷ xs) ys h = absurd (omega arith)
take-append_whole (suc n) [] ys h = absurd (omega arith)
take-append_whole (suc n) (x ∷ xs) ys h = ap (◌∷◌ x) (take-append_whole n xs ys (omega arith))

module _ (nvm : Nvm) (reliable : Reliable nvm) (block : ℕ) (log : List ℕ) (t : Ssd nvm) where
  -- A reliable device reads a log of a page back.
  read-log :
      length log ≡ calculate_page_capacity nvm 1
      → (nvm.cmd_write t.dev (log_addrs nvm block log t) (log_buffer nvm block log t)).1 ≡ true
      → nvm.cmd_read
          (nvm.cmd_write t.dev (log_addrs nvm block log t) (log_buffer nvm block log t)).0
          (log_addrs nvm block log t)
        ≡ (log, true)
  unfolding calculate_page_capacity
  read-log full accepted =
      let sectors =
        length-addrs_from nvm (nvm.dev2gen (t.chunkusage block + 4096 * block)) (t.chunkusage block)
          nvm.ws_min in
      let size : length log ≡ length (log_addrs nvm block log t) * nvm.nbytes =
        grind (arith, full, sectors) in
      let back =
        reliable.read-write t.dev (log_addrs nvm block log t) (log_buffer nvm block log t)
          accepted in
      back ∙ ap (λ l. (l, true)) (take-append_whole _ log (drop 16384 t.write_buf) size)

module _ (nvm : Nvm) (o : ℕ) (os : List ℕ) (t : Ssd nvm) (s : StoreTier)
    (before : s.buffer_log (o / 2 ^ 24) ≡ words os) where
  logged_bytes : log_bytes 4 o (s.buffer_log (o / 2 ^ 24)) ≡ words (os ++ o ∷ [])
  logged_bytes = log_bytes_lem 4 o _ ∙ ap (λ l. l ++ to_bytes 4 o) before ∙ sym (words-append os o)

  length-logged : length (words (os ++ o ∷ [])) ≡ 4 * length os + 4
  length-logged = ground (arith, length-words (os ++ o ∷ []), length-append os (o ∷ []))

  -- A deletion adds its offset to the log of its block, and touches no page while that log is below
  -- a page.
  pub sync_delete-room :
      4 * length os + 4 < calculate_page_capacity nvm 1
      → sync_delete nvm o t s ≡ ok (set_log (o / 2 ^ 24) (words (os ++ o ∷ [])) s, t)
  unfolding sync_delete
  sync_delete-room h =
      let room : leb (calculate_page_capacity nvm 1) (length (words (os ++ o ∷ []))) ≡ false =
        ground (arith, length-logged) in
      rw (sync_delete, logged_bytes, room)

  -- On a reliable device that takes the write, the deletion that fills a page of log writes it: a read
  -- of the block's next page, which is noted as a log page, hands out the offsets of the block in the
  -- order of their deletion; the block is one page fuller, and its log is empty again.
  pub sync_delete-full :
      Reliable nvm
      → 4 * length os + 4 ≡ 16384
      → calculate_page_capacity nvm 1 ≡ 16384
      → t.chunkusage (o / 2 ^ 24) ≤ 4092
      → AllOffsets (os ++ o ∷ [])
      → (nvm.cmd_write t.dev
          (log_addrs nvm (o / 2 ^ 24) (words (os ++ o ∷ [])) t)
          (log_buffer nvm (o / 2 ^ 24) (words (os ++ o ∷ [])) t)).1
        ≡ true
      → (t' : Ssd nvm) × (sync_delete nvm o t s ≡ ok (set_log (o / 2 ^ 24) [] s, t'))
        × ((bytes : List ℕ) × (nvm.cmd_read t'.dev
                (log_addrs nvm (o / 2 ^ 24) (words (os ++ o ∷ [])) t)
              ≡ (bytes, true))
            × (offsets (length (os ++ o ∷ [])) bytes ≡ os ++ o ∷ []))
        × (t'.chunk_log (o / 2 ^ 24) ≡ t.chunk_log (o / 2 ^ 24) ++ t.chunkusage (o / 2 ^ 24) ∷ [])
        × (t'.chunkusage (o / 2 ^ 24) ≡ t.chunkusage (o / 2 ^ 24) + nvm.ws_min)
  unfolding sync_delete
  sync_delete-full reliable full size room fit accepted =
      let log = words (os ++ o ∷ []) in
      let turn : leb (calculate_page_capacity nvm 1) (length log) ≡ true =
        ground (arith, length-logged) in
      let (t', run, device, _, noted, usage) =
        page_log_write_lem nvm (o / 2 ^ 24) log t (length-logged ∙ full) room accepted in
      (
        t',
        rw (sync_delete, logged_bytes, turn, run),
        (
          log,
          ap (λ d. nvm.cmd_read d (log_addrs nvm (o / 2 ^ 24) log t)) device
              ∙ read-log nvm reliable (o / 2 ^ 24) log t (omega (arith, length-logged, full, size))
                  accepted,
          ap (λ l. offsets (length (os ++ o ∷ [])) l) (sym (append-nil log))
              ∙ offsets-words (os ++ o ∷ []) [] fit,
        ),
        noted,
        usage,
      )
