-- ===== src/Tests/Parallel.antt =====
-- The theorems of the parallel writer, on a device with pages of 1024 entries.
use rexio.Base.{
  false, ℕ, zero, suc, ◌+◌, ◌*◌, ◌/◌, ◌%◌, ◌<◌, ◌≡◌, refl, ap, ◌==◌, ==_ne, some, List, [], ◌∷◌,
  length, get_elem?, arith,
}
use rexio.Outcome.{ok}
use rexio.Backend.Nvm.{Nvm}
use rexio.Backend.Entry.{Entry}
use rexio.Backend.State.{Ssd, addrs_from}
use rexio.Parallel.{
  Geo, CoordinatorParam, lun_width, channel_width, next_write_point, coordinator_write, read_points,
}
use rexio.Parallel.Plan.{next_write_point-wrap}
use rexio.Parallel.Threads.{Paged, Numbered, Holds}
use rexio.Parallel.Pages.{pages_of}
use rexio.Parallel.Coordinator.{coordinator_write_lem}
use rexio.Tests.Toy.{device, device-Reliable, blank_of, read_log, same_list}

abbrev pub wide : Nvm
wide = device 4096

same_sector : (p q : ℕ) → p / 4096 * 4096 + p % 4096 ≡ q / 4096 * 4096 + q % 4096 → p ≡ q
same_sector p q e = omega (arith, e)

pub wide-Paged : Paged wide
unfolding read_log same_list addrs_from
wide-Paged = record {
  width = refl;
  accepts = λ d addrs buf. refl;
  isolated = λ d p q buf _ _ ne.
      let other : (p / 4096 * 4096 + p % 4096 == q / 4096 * 4096 + q % 4096) ≡ false =
        ==_ne (p / 4096 * 4096 + p % 4096) (q / 4096 * 4096 + q % 4096)
          (λ e. ne (same_sector p q e)) in
      rw other refl;
}

abbrev pub numbered : ℕ → ℕ → List Entry
numbered zero n = []
numbered (suc count) n = record { key = n; val = 7 } ∷ numbered count (n + 1)

pub length-numbered : (count n : ℕ) → length (numbered count n) ≡ count
length-numbered zero n = refl
length-numbered (suc count) n = ap suc (length-numbered count (n + 1))

numbered-Numbered : (count n : ℕ) → Numbered n (numbered count n)
numbered-Numbered zero n = tt
numbered-Numbered (suc count) n = (refl, (λ e. omega (arith, e)), numbered-Numbered count (n + 1))

-- Two channels of four luns, of two chunks each, and two threads.
abbrev pub geo : Geo
geo = record { npunit = 4; nchunk = 2; max_os_threads = 2 }

abbrev pub start : Ssd wide
start = record (blank_of 4096) { channel_current_pointer = 0 ∷ 32768 ∷ [] }

coordinator_write_lem_example :
    (param : CoordinatorParam) × (s' : Ssd wide) × (coordinator_write wide geo
        (numbered 2048 1)
        0
        start
      ≡ ok (param, s'))
    × (get_elem? s'.channel_current_pointer 0 ≡ some param.end_page)
    × ((k : ℕ)
        → k < 2
        → (p : ℕ) × (b : List Entry) × (get_elem? (read_points wide geo 2 0 param.start_page) k
            ≡ some p)
          × (get_elem? (pages_of wide 2 (numbered 2048 1)) k ≡ some b)
          × Holds wide s'.dev p b)
unfolding lun_width
coordinator_write_lem_example =
    coordinator_write_lem wide (device-Reliable 4096 (omega arith)) wide-Paged refl geo 0 refl
      (omega arith) 2 (omega arith) refl 1 (omega arith) refl 1 0 0 (numbered 2048 1) start
      (length-numbered 2048 1) (numbered-Numbered 2048 1) (omega arith) (omega arith) refl refl

next_write_point-wrap_example :
    (next_write_point wide geo 1 (8192 * 6 + 4) ≡ 8) × (8 < channel_width wide geo)
unfolding lun_width
next_write_point-wrap_example =
    next_write_point-wrap wide geo 1 6 4 refl (omega arith) (omega arith) (omega arith)
      (omega arith)
