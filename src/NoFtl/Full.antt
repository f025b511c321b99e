-- ===== src/NoFtl/Full.antt =====
-- src/LSMTree-NoFTL/run.cpp over src/Backend/SSDWrite/parallel_writer.cpp: the put that fills a run.
use rexio.Base.{
  ℕ, zero, suc, ◌+◌, ◌*◌, ◌/◌, ◌%◌, ◌<◌, ◌≤◌, ◌≡◌, refl, sym, ap, ◌∙◌, ◌==◌, ltb, lt→ltb, ==_ne,
  true, false, some, List, [], ◌∷◌, ◌++◌, length, length-append, get_elem?, max, min, arith,
}
use rexio.Base.Powers.{mod_unique}
use rexio.Outcome.{ok, fail, undefined}
use rexio.Backend.Nvm.{Nvm, Reliable}
use rexio.Backend.Entry.{Entry, uint64_max, find}
use rexio.Backend.State.{Ssd, ◌>>=◌, ◌>>◌, modulo, calculate_page_capacity}
use rexio.Parallel.{Geo, CoordinatorParam, page_capacity, lun_width, coordinator_write, read_points}
use rexio.Parallel.Plan.{luns}
use rexio.Parallel.Threads.{Paged, Numbered, Holds}
use rexio.Parallel.Pages.{pages_of}
use rexio.Parallel.Coordinator.{coordinator_write_lem}
use rexio.NoFtl.Run.{
  NoFtlRun, noftl_data_write, noftl_run_put, noftl_value_in_memory, noftl_run_get,
}

modulo_whole : {nvm : Nvm} (n c k : ℕ) (s : Ssd nvm) → 0 < c → n ≡ c * k → modulo n c s ≡ ok (0, s)
modulo_whole n zero k s pos e = absurd (omega arith)
modulo_whole n (suc c) k s pos e =
    ap (λ m. ok (m, s)) (mod_unique n (suc c) k 0 (omega (arith, e)) pos)

module _ (nvm : Nvm) (reliable : Reliable nvm) (paged : Paged nvm) (wide : page_capacity nvm ≡ 1024)
    (geo : Geo) (r : NoFtlRun) (whole : nvm.nsectr % nvm.ws_min ≡ 0)
    (finite : lun_width nvm geo * luns nvm geo r.num_pu ≤ uint64_max) (rows : ℕ)
    (threads : 0 < geo.max_os_threads) (batches : luns nvm geo r.num_pu ≡ geo.max_os_threads * rows)
    (c : ℕ) (some_chunk : 0 < c) (chunks : geo.nchunk ≡ geo.max_os_threads * c) where
  abbrev t : ℕ
  t = geo.max_os_threads

  capacity : calculate_page_capacity nvm 16 ≡ 1024
  unfolding calculate_page_capacity
  capacity = ap (λ n. n / 16) (grind arith) ∙ wide

  module _ (m v row : ℕ) (e : Entry) (s : Ssd nvm) (last : r.size + 1 ≡ r.max_size)
      (full : length (r.rundata ++ e ∷ []) ≡ page_capacity nvm * (t * m))
      (keys : Numbered 1 (r.rundata ++ e ∷ [])) (inside : v < rows)
      (room : row + nvm.ws_min * m < lun_width nvm geo) (aligned : row % nvm.ws_min ≡ 0)
      (pointer : get_elem? s.channel_current_pointer r.num_pu
        ≡ some (lun_width nvm geo * (t * v) + row))
      (unset : r.page_pointers ≡ []) where
    -- The run behind the put.
    abbrev written : CoordinatorParam → NoFtlRun
    written param = record r {
      rundata = [];
      max_key = max e.key r.max_key;
      min_key = min e.key r.min_key;
      size = r.size + 1;
      fence_pointers = r.fence_pointers ++ e.key ∷ [];
      run_param = some param;
    }

    put_runs :
        (param : CoordinatorParam) (s' : Ssd nvm)
        → coordinator_write nvm geo (r.rundata ++ e ∷ []) r.num_pu s ≡ ok (param, s')
        → noftl_run_put nvm geo e r s ≡ ok (written param, s')
    unfolding noftl_run_put noftl_data_write
    put_runs param s' runs =
        let below : ltb r.size r.max_size ≡ true = lt→ltb r.size r.max_size (omega (arith, last)) in
        let top : (r.size + 1 == r.max_size) ≡ true = ground (arith, last) in
        let pos : 0 < calculate_page_capacity nvm 16 = omega (arith, capacity) in
        let pages : length (r.rundata ++ e ∷ []) ≡ calculate_page_capacity nvm 16 * (t * m) =
          full ∙ ap (λ n. n * (t * m)) (wide ∙ sym capacity) in
        let rest =
          modulo_whole (length (r.rundata ++ e ∷ [])) (calculate_page_capacity nvm 16) (t * m) s pos
            pages in
        rw (noftl_run_put, ◌>>=◌, ◌>>◌, below, top, noftl_data_write, rest, ◌>>=◌, runs) refl

    read_stops :
        (param : CoordinatorParam) (key : ℕ) (s' : Ssd nvm)
        → min e.key r.min_key ≤ key
        → key ≤ max e.key r.max_key
        → noftl_run_get nvm geo key (written param) s' ≡ fail undefined
    unfolding noftl_run_get noftl_value_in_memory find
    read_stops param key s' low high =
        let filled : (r.size + 1 == 0) ≡ false = ground arith in
        let not_below : ltb key (min e.key r.min_key) ≡ false = ground (arith, low) in
        let not_above : ltb (max e.key r.max_key) key ≡ false = ground (arith, high) in
        let fences : (length (r.fence_pointers ++ e.key ∷ []) == 0) ≡ false =
          ==_ne (length (r.fence_pointers ++ e.key ∷ [])) 0
            (λ empty. omega (arith, empty, length-append r.fence_pointers (e.key ∷ []))) in
        rw (noftl_run_get, filled, fences, not_below, not_above, unset, noftl_value_in_memory, find)
          refl

    -- On the device of the write mode's theorem, the put that fills a run of whole batches, whose keys
    -- count from 1, writes its entries: each page of the read mode from the start page on holds those
    -- at its place, and the run is full and keeps none in memory. A read of a key between its bounds
    -- then ends in undefined behaviour.
    pub noftl_run_put-full :
        (r' : NoFtlRun) × (s' : Ssd nvm) × (param : CoordinatorParam) × (noftl_run_put nvm geo e r s
          ≡ ok (r', s'))
        × (r'.size ≡ r'.max_size)
        × (r'.rundata ≡ [])
        × ((k : ℕ)
            → k < t * m
            → (p : ℕ) × (b : List Entry) × (get_elem?
                  (read_points nvm geo (t * m) r.num_pu param.start_page)
                  k
                ≡ some p)
              × (get_elem? (pages_of nvm (t * m) (r.rundata ++ e ∷ [])) k ≡ some b)
              × Holds nvm s'.dev p b)
        × ((key : ℕ)
            → r'.min_key ≤ key
            → key ≤ r'.max_key
            → noftl_run_get nvm geo key r' s' ≡ fail undefined)
    noftl_run_put-full =
        let (param, s', runs, end, held) =
          coordinator_write_lem nvm reliable paged wide geo r.num_pu whole finite rows threads
            batches c some_chunk chunks m v row (r.rundata ++ e ∷ []) s full keys inside room
            aligned pointer in
        (
          written param,
          s',
          param,
          put_runs param s' runs,
          last,
          refl,
          held,
          λ key low high. read_stops param key s' low high,
        )
