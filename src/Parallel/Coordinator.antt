-- ===== src/Parallel/Coordinator.antt =====
-- src/Backend/SSDWrite/parallel_writer.cpp: the write mode of the coordinator, and the pages at which
-- the read mode finds what was written.
use rexio.Base.{
  ℕ, ◌+◌, ◌*◌, ◌%◌, ◌<◌, ◌≤◌, ◌≡◌, refl, ap, ◌∙◌, some, List, length, get_elem?, get_elem?_in,
  arith,
}
use rexio.Outcome.{ok}
use rexio.Backend.Nvm.{Nvm, Reliable}
use rexio.Backend.Entry.{Entry, uint64_max}
use rexio.Backend.State.{Ssd, ◌>>=◌, ◌>>◌}
use rexio.Parallel.{Geo, CoordinatorParam, page_capacity, lun_width, coordinator_write, read_points}
use rexio.Parallel.Plan.{luns, length-read_points}
use rexio.Parallel.Threads.{Paged, Numbered, Holds}
use rexio.Parallel.Rounds.{write_rounds-Reached}
use rexio.Parallel.Pages.{pages_of, length-pages_of}

module _ (nvm : Nvm) (reliable : Reliable nvm) (paged : Paged nvm) (wide : page_capacity nvm ≡ 1024)
    (geo : Geo) (num_pug : ℕ) (whole : nvm.nsectr % nvm.ws_min ≡ 0)
    (finite : lun_width nvm geo * luns nvm geo num_pug ≤ uint64_max) (rows : ℕ)
    (threads : 0 < geo.max_os_threads) (batches : luns nvm geo num_pug ≡ geo.max_os_threads * rows)
    (c : ℕ) (some_chunk : 0 < c) (chunks : geo.nchunk ≡ geo.max_os_threads * c) where
  abbrev t : ℕ
  t = geo.max_os_threads

  abbrev l : ℕ
  l = lun_width nvm geo

  module _ (m v r : ℕ) (run_data : List Entry) (s : Ssd nvm)
      (full : length run_data ≡ page_capacity nvm * (t * m)) (keys : Numbered 1 run_data)
      (inside : v < rows) (room : r + nvm.ws_min * m < l) (aligned : r % nvm.ws_min ≡ 0)
      (pointer : get_elem? s.channel_current_pointer num_pug ≡ some (l * (t * v) + r)) where
    -- Let the device take every write and keep other pages as they are, a page hold 1024 entries, the
    -- threads divide the luns up to the end of the channel and the rounds, and the pointer stand at
    -- the first lun of a batch with a row left for each batch of the run. A run of whole batches, with
    -- the keys from 1 on and no value 0, is then written without an end of the program; the pointer
    -- stands at the end page; and each page that the read mode goes to from the start page on holds
    -- the entries of the run that stand at its place.
    pub coordinator_write_lem :
        (param : CoordinatorParam) × (s' : Ssd nvm) × (coordinator_write nvm geo run_data num_pug s
          ≡ ok (param, s'))
        × (get_elem? s'.channel_current_pointer num_pug ≡ some param.end_page)
        × ((k : ℕ)
            → k < t * m
            → (p : ℕ) × (b : List Entry) × (get_elem?
                  (read_points nvm geo (t * m) num_pug param.start_page)
                  k
                ≡ some p)
              × (get_elem? (pages_of nvm (t * m) run_data) k ≡ some b)
              × Holds nvm s'.dev p b)
    unfolding coordinator_write
    coordinator_write_lem =
        let (s', runs, work) =
          write_rounds-Reached nvm reliable paged wide geo num_pug whole finite rows threads batches
            c some_chunk chunks (length run_data) m v r 0 run_data s (omega arith) full keys inside
            room aligned pointer in
        (
          record { start_page = l * (t * v) + r; end_page = l * (t * work.lun) + work.row },
          s',
          rw (coordinator_write, ◌>>=◌, ◌>>◌, pointer, runs, work.pointer) refl,
          work.pointer,
          λ k below.
              let bs = pages_of nvm (t * m) run_data in
              let size : length bs + 0 ≡ t * m =
                omega (arith, length-pages_of nvm (t * m) run_data) in
              let start = l * (t * v) + r in
              let (b, buffer) =
                get_elem?_in bs k (omega (arith, below, length-pages_of nvm (t * m) run_data)) in
              let (p, page) =
                get_elem?_in (read_points nvm geo (t * m) num_pug start) k
                  (omega (arith, below, length-read_points nvm geo num_pug (t * m) start)) in
              let at = ap (λ n. get_elem? (read_points nvm geo n num_pug start) k) size ∙ page in
              (p, b, page, buffer, (work.held 0 k p b buffer at).0),
        )
