-- ===== src/Parallel/Batch.antt =====
-- src/Backend/SSDWrite/parallel_writer.cpp: one batch of threads, with the move of the pointer behind it.
use rexio.Base.{
  ℕ, suc, ◌+◌, ◌*◌, ◌%◌, ◌<◌, ◌≤◌, ◌≡◌, ◌≢◌, sym, ap, ◌∙◌, ◌==◌, ==_refl, ==_ne, Bool-cases, inl,
  inr, none, some, List, length, get_elem?, get_elem?-lt, get_elem?-set_self, set, arith,
}
use rexio.Base.Powers.{mod_add}
use native.Mathlib.Nat.{mul-le-mul_left}
use rexio.Outcome.{ok}
use rexio.Backend.Nvm.{Nvm, Reliable}
use rexio.Backend.Entry.{Entry, uint64_max}
use rexio.Backend.Pages.{page_addrs}
use rexio.Backend.State.{Ssd}
use rexio.Parallel.{Geo, page_capacity, lun_width, write_threads, next_write_point, read_points}
use rexio.Parallel.Plan.{
  rank, rank-spot, luns, arrive, next_write_point-arrive, read_points-in, read_points-behind,
}
use rexio.Parallel.Threads.{Paged, FullPages, write_threads_lem, spot_aligned}
use rexio.Parallel.Reached.{Reached}

some_injective {ℓ} : {A : Type ℓ} {x y : A} → some x ≡ some y → x ≡ y
some_injective {x} h = ap (λ o. elim o [ none ↦ x | some z ↦ z ]) h

row_later : (r w ws x : ℕ) → 0 < ws → x ≡ w → r * w + x ≤ (r + ws) * w
row_later r w ws x pos e =
    let wide : w * 1 ≤ w * ws = mul-le-mul_left w pos in
    let sum : (r + ws) * w ≡ r * w + w * ws = grind arith in omega (arith, wide, sum, e)

module _ (nvm : Nvm) (reliable : Reliable nvm) (paged : Paged nvm) (wide : page_capacity nvm ≡ 1024)
    (geo : Geo) (num_pug : ℕ) (whole : nvm.nsectr % nvm.ws_min ≡ 0)
    (finite : lun_width nvm geo * luns nvm geo num_pug ≤ uint64_max) (rows : ℕ)
    (threads : 0 < geo.max_os_threads)
    (batches : luns nvm geo num_pug ≡ geo.max_os_threads * rows) where
  abbrev t : ℕ
  t = geo.max_os_threads

  abbrev l : ℕ
  l = lun_width nvm geo

  abbrev w : ℕ
  w = luns nvm geo num_pug

  -- Where the pointer stands behind batch `v` of row `r`.
  landing :
      (v r : ℕ)
      → v < rows
      → r % nvm.ws_min ≡ 0
      → (lun : ℕ) × (row : ℕ) × (arrive nvm geo num_pug (t * v + t) r ≡ l * (t * lun) + row)
        × (lun < rows)
        × (row % nvm.ws_min ≡ 0)
        × (row ≤ r + nvm.ws_min)
        × (r * w + (t * v + t) ≤ row * w + t * lun)
  landing v r inside aligned =
      let next : t * v + t ≡ t * suc v = grind arith in
      elim (Bool-cases (suc v == rows)) [
        | inl last ↦
            let e : suc v ≡ rows = ground (arith, last) in
            let all : t * v + t ≡ w = next ∙ ap (λ n. t * n) e ∙ sym batches in
            (
              0,
              r + nvm.ws_min,
              rw (all, ==_refl w) (omega arith),
              omega (arith, inside),
              mod_add r nvm.ws_min reliable.ws_min_pos ∙ aligned,
              omega arith,
              omega (arith, row_later r w nvm.ws_min (t * v + t) reliable.ws_min_pos all),
            )
        | inr more ↦
            let below : suc v < rows = ground (arith, more, inside) in
            let wide : t * suc (suc v) ≤ t * rows = mul-le-mul_left t below in
            let not_last : t * v + t ≢ w = λ e. grind (arith, e, wide, threads, batches) in
            (
              suc v,
              r,
              rw (==_ne (t * v + t) w not_last) (ap (λ n. l * n + r) next),
              below,
              aligned,
              omega arith,
              omega (arith, next),
            )
      ]

  -- One batch, and its place in the reads.
  pub batch-Reached :
      (v r size : ℕ) (group : List (List Entry)) (s : Ssd nvm)
      → v < rows
      → r < l
      → r % nvm.ws_min ≡ 0
      → length group ≡ t
      → FullPages nvm size group
      → get_elem? s.channel_current_pointer num_pug ≡ some (l * (t * v) + r)
      → (s₁ : Ssd nvm) × (write_threads nvm geo group (l * (t * v) + r) size s ≡ ok (tt, s₁))
        × (s₁.channel_current_pointer ≡ s.channel_current_pointer)
        × Reached nvm reliable paged wide geo num_pug whole finite rows v r 1 group s (record s₁ {
          channel_current_pointer =
              set s₁.channel_current_pointer num_pug
                (next_write_point nvm geo num_pug (l * (t * v) + r));
        })
  batch-Reached v r size group s inside h aligned many full pointer =
      let upto : t * suc v ≤ t * rows = mul-le-mul_left t inside in
      let fits : t * v + t ≤ w = grind (arith, upto, batches) in
      let (s₁, runs, same, kept, held) =
        write_threads_lem nvm reliable paged wide geo num_pug whole finite group (t * v) r size s h
          aligned (omega (arith, fits, many)) full in
      let (lun, row, lands, inside', aligned', near, later) = landing v r inside aligned in
      let start : t * v < w = omega (arith, fits, threads) in
      let next = next_write_point-arrive nvm geo num_pug (t * v) r h start fits in
      (
        s₁,
        runs,
        same,
        record {
          lun = lun;
          row = row;
          many = omega (arith, many);
          inside = inside';
          aligned = aligned';
          bounded = omega (arith, near);
          later = omega (arith, later);
          pointer =
              get_elem?-set_self s₁.channel_current_pointer num_pug
                (next_write_point nvm geo num_pug (l * (t * v) + r))
                (ground
                  (arith, ap length same, get_elem?-lt s.channel_current_pointer num_pug pointer))
              ∙ ap some (next ∙ lands);
          continues = λ n k. rw many (
              read_points-behind nvm geo num_pug t n (t * v) r k h start fits
              ∙ ap (λ p. get_elem? (read_points nvm geo n num_pug p) k) lands);
          kept = kept;
          held = λ n k p b here page.
              let below : k < length group = get_elem?-lt group k here in
              let low : t * v + k < w = omega (arith, below, many, fits) in
              let at =
                read_points-in nvm geo num_pug (length group + n) (t * v) r k h low
                  (omega (arith, below)) in
              let e : l * (t * v + k) + r ≡ p = some_injective (sym at ∙ page) in
              (
                ap (λ q. nvm.cmd_read s₁.dev (page_addrs nvm q)) (sym e) ∙ held k b here,
                ap (λ q. q % nvm.ws_min) (sym e)
                    ∙ spot_aligned nvm reliable paged wide geo num_pug whole finite (t * v + k) r
                        aligned,
                omega (arith, ap (rank l w) e, rank-spot l w (t * v + k) r h, below, many, later),
              );
        },
      )
