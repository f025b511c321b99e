-- ===== src/Tests/StoreTier.antt =====
-- The theorems of the store tier and of the ring of sectors on the toy device.
use rexio.Base.{
  ℕ, ◌≡◌, ◌≢◌, ◌↔◌, refl, ◌+◌, ◌-◌, ◌*◌, ◌%◌, ◌^◌, ◌<◌, true, false, ltb, if◌then◌else◌, ◌==◌, List,
  [], ◌∷◌, length, replicate, arith, some, none, get_elem?, zero, suc, ap, length-replicate, ◌++◌,
}
use rexio.Outcome.{ok}
use rexio.Cache.Nodes.{update}
use rexio.Cache.Nodes.Laws.{find_key}
use rexio.Cache.Nodes.View.{lookup}
use rexio.Cache.Lru.{to_int, new}
use rexio.Cache.Lru.Order as Lru
use rexio.Cache.Lru.Runs.{node_of}
use rexio.Backend.Entry.{Entry, AllWords}
use rexio.Backend.State.{Ssd, calculate_page_capacity}
use rexio.Backend.Nvm.{Nvm}
use rexio.Backend.Eraser.{pointer_renew}
use rexio.Backend.Pointers.{pointer_renew_lem}
use rexio.Store.{StoreTier, sync_write, sync_read, sync_delete, set_log, page_of}
use rexio.Store.Buffer.{IsValid, Buffered, sync_read-sync_write, sync_write-full, sync_write-stuck}
use rexio.Store.Log.{words, offsets, offsets-words, AllOffsets, log_addrs, sync_delete-full}
use rexio.Store.Reread.{sync_read-programmed}
use rexio.Backend.Pages.{programmed}
use rexio.Tests.Toy.{device, device-Reliable, toy, toy-Reliable, blank, read_log, no_counts}

-- The last page of the ring: all of the first chunks are erased.
abbrev at_end : Ssd toy
at_end = record blank { sectorpointer = 923644; chunkusage = λ _. 4096 }

pointer_renew_lem_example :
    (s' : Ssd toy) × (pointer_renew toy 4 at_end ≡ ok (tt, s'))
    × (s'.sectorpointer ≡ 0)
    × ((c : ℕ) → s'.chunkusage c ≡ (if ltb c 150 then 0 else (4096 + (if 225 == c then 4 else 0))))
    × (s'.gpt 225 511 ≡ true)
    × (s'.data_page_pointer ≡ 0)
pointer_renew_lem_example = pointer_renew_lem toy 4 at_end

-- One value in the first page.
abbrev pub one : StoreTier
one = record {
  indexs = 1;
  offset = 1;
  page_data = record { key = 5; val = 50 } ∷ replicate 1029 (record { key = 0; val = 0 });
  wbuffer_id = 0;
  buffernumber = 0;
  buffer_log = λ _. [];
  lrucache = new 2;
}

pub one-IsValid : IsValid toy one
unfolding page_of calculate_page_capacity
one-IsValid = record {
  sized = refl;
  bounded = omega arith;
  word = omega arith;
  slot = refl;
  paged = refl;
}

sync_read-sync_write_example :
    (s' : StoreTier) × (sync_write toy 6 60 blank one ≡ ok (2, s'))
    × IsValid toy s'
    × (sync_read toy 2 blank s' ≡ ok (record { key = 6; val = 60 }, (s', blank)))
    × ((q : ℕ) (e : Entry)
        → Buffered toy one q
        → get_elem? one.page_data (q % 2 ^ 12 - 1) ≡ some e
        → (sync_read toy q blank one ≡ ok (e, (one, blank)))
          × (sync_read toy q blank s' ≡ ok (e, (s', blank))))
unfolding calculate_page_capacity
sync_read-sync_write_example =
    sync_read-sync_write toy blank one 6 60 one-IsValid (omega arith) (omega arith)

-- A full page, of two values.
abbrev two : StoreTier
two = record one { indexs = 2; offset = 2 }

two-IsValid : IsValid toy two
unfolding page_of calculate_page_capacity
two-IsValid = record {
  sized = refl;
  bounded = omega arith;
  word = omega arith;
  slot = refl;
  paged = refl;
}

sync_write-full_example :
    (s' : StoreTier) × (sync_write toy 6 60 blank two ≡ ok (s'.offset, s'))
    × (s'.offset % 2 ^ 12 ≡ 1)
    × (page_of toy s'.offset ≡ 4096)
    × (s'.wbuffer_id ≡ 0)
    × (get_elem? s'.page_data 0 ≡ some (record { key = 6; val = 60 }))
    × (IsValid toy s' ↔ (◌≡◌ {A = ℕ} 4096 0))
unfolding calculate_page_capacity
sync_write-full_example = sync_write-full toy blank two 6 60 two-IsValid (omega arith) refl

sync_write-stuck_example :
    (s' : StoreTier) × (sync_write toy 6 60 blank two ≡ ok (s'.offset, s'))
    × (page_of toy s'.offset ≢ s'.wbuffer_id)
unfolding calculate_page_capacity
sync_write-stuck_example =
    sync_write-stuck toy blank two 6 60 two-IsValid (omega arith) refl refl refl refl

-- A log that has one offset of block 1.
abbrev logged : StoreTier
logged = record one { buffer_log = λ b. if b == 1 then words (16781313 ∷ []) else [] }

offsets-words_example : offsets 2 (words (16781313 ∷ 7 ∷ []) ++ 9 ∷ []) ≡ 16781313 ∷ 7 ∷ []
offsets-words_example = offsets-words (16781313 ∷ 7 ∷ []) (9 ∷ []) (omega arith, (omega arith, tt))

-- Page 8 of block 0 is cached.
abbrev cached : StoreTier
cached = record one {
  lrucache = record {
    hash_map = update (λ _. none) 8 (some 0);
    capacity = 2;
    cache = record { addr = 0; node = node_of 8 (record { key = 9; val = 90 } ∷ []) } ∷ [];
    next = 1;
  };
}

cached-IsValid : Lru.IsValid cached.lrucache
unfolding update find_key to_int
cached-IsValid = record {
  falls = ground arith;
  distinct = ground arith;
  mapped = λ k. ground arith;
  bounded = omega arith;
}

-- Page 12 of block 0 takes two entries.
abbrev stocked : List Entry
stocked = record { key = 7; val = 70 } ∷ record { key = 8; val = 80 } ∷ []

abbrev after_write : Ssd toy
after_write = programmed toy stocked 12 blank

abbrev after_read : Ssd toy
after_read = record after_write { counters = record after_write.counters { reads = 1 } }

stocked-AllWords : AllWords stocked
stocked-AllWords = (
  record { key_fits = omega arith; val_fits = omega arith },
  (record { key_fits = omega arith; val_fits = omega arith }, tt),
)

stocked-fits : length stocked ≡ calculate_page_capacity toy 16
unfolding calculate_page_capacity
stocked-fits = refl

sync_read-programmed_example :
    (s' s'' : StoreTier) × (sync_read toy 49154 after_write cached
      ≡ ok (record { key = 8; val = 0 }, (s', after_read)))
    × (sync_read toy 49153 after_read s' ≡ ok (record { key = 7; val = 0 }, (s'', after_read)))
    × Lru.IsValid s''.lrucache
unfolding lookup to_int calculate_page_capacity
sync_read-programmed_example =
    sync_read-programmed toy toy-Reliable refl 0 12 (omega arith) stocked blank refl stocked-fits
      stocked-AllWords (omega arith) cached cached-IsValid (omega arith) (λ e. omega (arith, e))
      refl 1 0 (record { key = 8; val = 80 }) (record { key = 7; val = 70 }) (omega arith)
      (omega arith) refl refl

-- Pages of 16384 bytes, and the deletion that fills one with offsets.
abbrev wide : Nvm
wide = device 4096

abbrev wide_blank : Ssd wide
wide_blank = record {
  dev = [];
  write_buf = [];
  chunkusage = λ _. 8;
  gpt = λ _ _. false;
  sectorpointer = 0;
  data_page_pointer = 0;
  chunk_log = λ _. [];
  chunk_data = λ _. [];
  channel_current_pointer = [];
  counters = no_counts;
}

AllOffsets-replicate : (n o : ℕ) → o < 2 ^ 32 → AllOffsets (replicate n o ++ o ∷ [])
AllOffsets-replicate zero o h = (h, tt)
AllOffsets-replicate (suc n) o h = (h, AllOffsets-replicate n o h)

abbrev deleted : List ℕ
deleted = replicate 4095 4097

abbrev filled : StoreTier
filled = record one { buffer_log = λ _. words deleted }

sync_delete-full_example :
    (t' : Ssd wide) × (sync_delete wide 4097 wide_blank filled ≡ ok (set_log 0 [] filled, t'))
    × ((bytes : List ℕ) × (read_log 4096 t'.dev
            (log_addrs wide 0 (words (deleted ++ 4097 ∷ [])) wide_blank)
          ≡ (bytes, true))
        × (offsets (length (deleted ++ 4097 ∷ [])) bytes ≡ deleted ++ 4097 ∷ []))
    × (t'.chunk_log 0 ≡ 8 ∷ [])
    × (t'.chunkusage 0 ≡ 12)
unfolding calculate_page_capacity
sync_delete-full_example =
    sync_delete-full wide 4097 deleted wide_blank filled refl (device-Reliable 4096 (omega arith))
      (ap (λ n. 4 * n + 4) (length-replicate {A = ℕ} 4095 4097)) refl (omega arith)
      (AllOffsets-replicate 4095 4097 (omega arith)) refl
