-- ===== src/Parallel.antt =====
-- src/Backend/SSDWrite/parallel_writer.cpp: the coordinator that writes the entries of a run to the
-- parallel units of a channel, a batch of threads at a time, and the pages that it reads for a run.
-- The threads of a batch write to pages of their own, and stand in the order in which they are made.
pub mod Plan
pub mod Threads
pub mod Reached
pub mod Batch
pub mod Buffers
pub mod Pages
pub mod Rounds
pub mod Coordinator
pub mod ReadMode
use rexio.Base.{
  ℕ, zero, suc, ◌+◌, ◌-◌, ◌*◌, ◌/◌, ◌%◌, ltb, leb, ◌==◌, if◌then◌else◌, not, ◌||◌, Bool, true,
  false, List, [], ◌∷◌, length, take, drop, get_elem?, set,
}
use rexio.Outcome.{fail, ok, undefined, unfinished}
use rexio.Backend.Nvm.{Nvm}
use rexio.Backend.Entry.{Entry, uint64_max}
use rexio.Backend.Codec.{encode}
use rexio.Backend.State.{Ssd, Io, ◌>>=◌, ◌>>◌, return, modify, count, demand, exit_with, addrs_from}
use rexio.Backend.Eraser.{write_sectors}

-- What `nvm_geo` says of the device beside the record `Nvm`, and the number of threads.
pub record Geo : Type 0 where
  pub npunit : ℕ
  pub nchunk : ℕ
  pub max_os_threads : ℕ

pub record CoordinatorParam : Type 0 where
  pub start_page : ℕ
  pub end_page : ℕ

module _ (nvm : Nvm) where
  abbrev pub page_capacity : ℕ
  page_capacity = nvm.ws_min * nvm.nbytes / 16

  -- The loop that compares the first 1024 entries of a buffer with their place; `exit(0)`.
  unfoldable pub check_keys : ℕ → ℕ → List Entry → Io nvm (Unit {0})
  check_keys zero s buffer = return tt
  check_keys (suc n) s [] = λ _. fail undefined
  check_keys (suc n) s (e ∷ es) = elim (e.key == s) [
    | true ↦ check_keys n (s + 1) es
    | false ↦ exit_with 0
  ]

  -- The read behind the write of a thread; what it reads is only compared for a message.
  unfoldable pub read_back : ℕ → Io nvm (Unit {0})
  unfolding addrs_from
  read_back page_num s =
      let (bytes, done) =
        nvm.cmd_read s.dev (addrs_from nvm (nvm.dev2gen page_num) (page_num % 4096) nvm.ws_min) in
      elim done [
        | true ↦ ok (tt, record s { counters = record s.counters { reads = s.counters.reads + 1 } })
        | false ↦ exit_with 4598 s
      ]

  unfoldable pub parallel_write_into_pu : List Entry → ℕ → ℕ → Io nvm (Unit {0})
  unfolding write_sectors read_back
  parallel_write_into_pu buffer page_num size = do
    check_keys 1024 size buffer
    elim (page_num == uint64_max) [
      | true ↦ return tt
      | false ↦ do
        check_keys 1024 size buffer
        done ← write_sectors nvm page_num (page_num % 4096) (encode buffer)
        elim done [
          | true ↦ do
            count (λ c. record c { writes = c.writes + 1 })
            check_keys 1024 size buffer
            read_back page_num
          | false ↦ exit_with 4598
        ]
    ]

  -- The loop over the copy of a page, whose first key is to be `n`; `exit(EXIT_FAILURE)`.
  unfoldable pub check_copy : ℕ → List Entry → Io nvm (Unit {0})
  check_copy n [] = return tt
  check_copy n (e ∷ es) = elim (not (e.key == n) || (e.key == 0) || (e.val == 0)) [
    | true ↦ exit_with 1
    | false ↦ check_copy (n + 1) es
  ]

  -- The pages of a batch, `count` of them, from the entry with the number `i` on.
  unfoldable pub copy_pages : ℕ → ℕ → List Entry → Io nvm (List (List Entry))
  unfolding check_copy
  copy_pages zero i run_data = return []
  copy_pages (suc count) i run_data = do
    check_copy (i + 1) (take page_capacity run_data)
    rest ← copy_pages count (i + page_capacity) (drop page_capacity run_data)
    return (take page_capacity run_data ∷ rest)

  module _ (geo : Geo) where
    unfoldable pub lun_width : ℕ
    lun_width = geo.nchunk * nvm.nsectr

    unfoldable pub channel_width : ℕ
    unfolding lun_width
    channel_width = lun_width * geo.npunit

    -- The threads of a batch: one lun further on, and a page of entries further on, each.
    unfoldable pub write_threads : List (List Entry) → ℕ → ℕ → Io nvm (Unit {0})
    unfolding parallel_write_into_pu lun_width
    write_threads [] page size = return tt
    write_threads (buffer ∷ buffers) page size = do
      parallel_write_into_pu buffer page size
      write_threads buffers (page + lun_width) (size + page_capacity)

    -- Where the pointer of a channel stands behind a batch.
    unfoldable pub next_write_point : ℕ → ℕ → ℕ
    unfolding lun_width channel_width
    next_write_point num_pug point =
        let next = point + geo.max_os_threads * lun_width in
        if leb ((num_pug + 1) * channel_width) next
        then next % ((num_pug + 1) * channel_width) + nvm.ws_min
        else next

    -- The loop over the batches of threads; a batch that is not whole uses buffers that nobody set.
    -- The fuel is the number of buffers.
    unfoldable pub write_buffers : ℕ → ℕ → List (List Entry) → ℕ → Io nvm (Unit {0})
    unfolding write_threads next_write_point
    write_buffers fuel num_pug [] size = return tt
    write_buffers zero num_pug (b ∷ bs) size = λ _. fail unfinished
    write_buffers (suc fuel) num_pug (b ∷ bs) size =
        let group = take geo.max_os_threads (b ∷ bs) in
        elim (length group == geo.max_os_threads) [
          | false ↦ λ _. fail undefined
          | true ↦ do
            s ← (λ s. ok (s, s))
            point ← demand (get_elem? s.channel_current_pointer num_pug)
            write_threads group point (size + 1)
            modify λ s. record s {
              channel_current_pointer =
                  set s.channel_current_pointer num_pug (next_write_point num_pug point);
            }
            write_buffers fuel num_pug (drop geo.max_os_threads (b ∷ bs))
                (size + geo.max_os_threads * page_capacity)
        ]

    -- The outer loop over the rounds of at most `nchunk` pages, from the entry with the number `i` on.
    unfoldable pub write_rounds : ℕ → ℕ → ℕ → List Entry → Io nvm (Unit {0})
    unfolding copy_pages write_buffers
    write_rounds fuel num_pug i [] = return tt
    write_rounds zero num_pug i (e ∷ es) = λ _. fail unfinished
    write_rounds (suc fuel) num_pug i (e ∷ es) = do
      let run_data = e ∷ es
      let round = geo.nchunk * page_capacity
      let batch_pages =
          if ltb (length run_data) round then length run_data / page_capacity else geo.nchunk
      buffers ← copy_pages batch_pages i run_data
      write_buffers (length buffers) num_pug buffers i
      write_rounds fuel num_pug (i + round) (drop round run_data)

    -- `parallel_coordinator` in its write mode.
    unfoldable pub coordinator_write : List Entry → ℕ → Io nvm CoordinatorParam
    unfolding write_rounds
    coordinator_write run_data num_pug = do
      s ← (λ s. ok (s, s))
      start ← demand (get_elem? s.channel_current_pointer num_pug)
      write_rounds (length run_data) num_pug 0 run_data
      s' ← (λ s. ok (s, s))
      end ← demand (get_elem? s'.channel_current_pointer num_pug)
      return (record { start_page = start; end_page = end })

    -- The pages of the read mode, one after the other.
    unfoldable pub next_read_point : ℕ → ℕ → ℕ
    unfolding lun_width channel_width
    next_read_point num_pug point =
        if leb ((num_pug + 1) * channel_width) (point + lun_width)
        then (point + lun_width) % ((num_pug + 1) * channel_width) + nvm.ws_min
        else point + lun_width

    unfoldable pub read_points : ℕ → ℕ → ℕ → List ℕ
    unfolding next_read_point
    read_points zero num_pug point = []
    read_points (suc n) num_pug point =
        point ∷ read_points n num_pug (next_read_point num_pug point)

-- Where the channels start, as `main` sets them.
unfoldable pub channel_starts : ℕ → ℕ → ℕ → List ℕ
channel_starts zero start width = []
channel_starts (suc n) start width = start ∷ channel_starts n (start + width) width
