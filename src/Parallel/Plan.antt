-- ===== src/Parallel/Plan.antt =====
-- src/Backend/SSDWrite/parallel_writer.cpp: the pages that the pointers of a channel run through. A
-- page is a lun number `u` and a sector `r` in the lun; a channel's window has `luns` luns.
use rexio.Base.{
  ℕ, zero, suc, ◌+◌, ◌*◌, ◌/◌, ◌%◌, ◌<◌, ◌≤◌, ◌≡◌, refl, ap, ◌∙◌, leb, ◌==◌, ==_refl, ==_ne,
  if◌then◌else◌, Bool-cases, inl, inr, some, length, get_elem?, arith,
}
use rexio.Base.Powers.{mod_unique}
use native.Mathlib.Nat.{mul-le-mul_left}
use rexio.Backend.Nvm.{Nvm}
use rexio.Parallel.{Geo, lun_width, channel_width, next_write_point, next_read_point, read_points}

pub spot-mod : (l u r : ℕ) → r < l → (l * u + r) % l ≡ r
spot-mod l u r h = mod_unique (l * u + r) l u r refl h

pub spot-div : (l u r : ℕ) → r < l → (l * u + r) / l ≡ u
spot-div l u r h = grind arith

-- The first sector of lun `u` and the next ones, in the order in which the pages are written.
abbrev pub rank : ℕ → ℕ → ℕ → ℕ
rank l luns p = p % l * luns + p / l

pub rank-spot : (l luns u r : ℕ) → r < l → rank l luns (l * u + r) ≡ r * luns + u
rank-spot l luns u r h = rw (spot-mod l u r h, spot-div l u r h)

-- A step of `n` luns, with the wrap of the source.
abbrev wrapped : ℕ → ℕ → ℕ → ℕ
wrapped size ws next = if leb size next then next % size + ws else next

wrapped_over : (size ws next : ℕ) → size ≤ next → wrapped size ws next ≡ next % size + ws
wrapped_over size ws next h = ground arith

wrapped_under : (size ws next : ℕ) → next < size → wrapped size ws next ≡ next
wrapped_under size ws next h = ground arith

wrapped-last :
    (l w ws u r n : ℕ) → r < l → u < w → u + n ≡ w → wrapped (l * w) ws (l * u + r + n * l) ≡ r + ws
wrapped-last l w ws u r n h inside e =
    let luns : l * u + r + n * l ≡ l * (u + n) + r = grind arith in
    let sum : l * u + r + n * l ≡ l * w * 1 + r = luns ∙ ap (λ m. l * m + r) e ∙ omega arith in
    let wide : l * 1 ≤ l * w = mul-le-mul_left l (omega (arith, inside)) in
    let rest : (l * u + r + n * l) % (l * w) ≡ r =
      mod_unique (l * u + r + n * l) (l * w) 1 r sum (omega (arith, wide, h)) in
    let over : l * w ≤ l * u + r + n * l = omega (arith, sum) in
    wrapped_over (l * w) ws (l * u + r + n * l) over ∙ ap (λ m. m + ws) rest

wrapped-inside :
    (l w ws u r n : ℕ)
    → r < l
    → u + n < w
    → wrapped (l * w) ws (l * u + r + n * l) ≡ l * (u + n) + r
wrapped-inside l w ws u r n h inside =
    let wide : l * (u + n + 1) ≤ l * w = mul-le-mul_left l (omega (arith, inside)) in
    let sum : l * u + r + n * l ≡ l * (u + n) + r = grind arith in
    let under : l * u + r + n * l < l * w = grind (arith, wide, h) in
    wrapped_under (l * w) ws (l * u + r + n * l) under ∙ sum

module _ (nvm : Nvm) (geo : Geo) (num_pug : ℕ) where
  abbrev pub luns : ℕ
  luns = (num_pug + 1) * geo.npunit

  -- The spot, or the first one of the next row of pages behind the last lun.
  abbrev pub arrive : ℕ → ℕ → ℕ
  arrive u r = if u == luns then r + nvm.ws_min else lun_width nvm geo * u + r

  window : (num_pug + 1) * channel_width nvm geo ≡ lun_width nvm geo * luns
  unfolding channel_width
  window = grind arith

  -- A step of `n` luns that does not go behind the last one.
  step-arrive :
      (u r n : ℕ)
      → r < lun_width nvm geo
      → u < luns
      → u + n ≤ luns
      → wrapped
          (lun_width nvm geo * luns)
          nvm.ws_min
          (lun_width nvm geo * u + r + n * lun_width nvm geo)
        ≡ arrive (u + n) r
  step-arrive u r n h inside fits = elim (Bool-cases (u + n == luns)) [
    | inl last ↦
        wrapped-last (lun_width nvm geo) luns nvm.ws_min u r n h inside (ground (arith, last))
        ∙ ground (arith, last)
    | inr more ↦
        wrapped-inside (lun_width nvm geo) luns nvm.ws_min u r n h (ground (arith, more, fits))
        ∙ ground (arith, more)
  ]

  next_read_point-arrive :
      (u r : ℕ)
      → r < lun_width nvm geo
      → u < luns
      → next_read_point nvm geo num_pug (lun_width nvm geo * u + r) ≡ arrive (suc u) r
  unfolding next_read_point
  next_read_point-arrive u r h inside = rw window (
      ap (wrapped (lun_width nvm geo * luns) nvm.ws_min) (omega arith)
      ∙ step-arrive u r 1 h inside (omega (arith, inside))
      ∙ ap (λ n. arrive n r) (omega arith))

  pub next_write_point-arrive :
      (u r : ℕ)
      → r < lun_width nvm geo
      → u < luns
      → u + geo.max_os_threads ≤ luns
      → next_write_point nvm geo num_pug (lun_width nvm geo * u + r)
        ≡ arrive (u + geo.max_os_threads) r
  unfolding next_write_point
  next_write_point-arrive u r h inside fits =
      rw window (step-arrive u r geo.max_os_threads h inside fits)

  -- The read mode meets the next spots of a row, and stands at the next row behind the last one.
  pub read_points-in :
      (n u r k : ℕ)
      → r < lun_width nvm geo
      → u + k < luns
      → k < n
      → get_elem? (read_points nvm geo n num_pug (lun_width nvm geo * u + r)) k
        ≡ some (lun_width nvm geo * (u + k) + r)
  unfolding read_points
  read_points-in zero u r k h inside l = absurd (omega arith)
  read_points-in (suc n) u r zero h inside l =
      ap (λ m. some (lun_width nvm geo * m + r)) (omega arith)
  read_points-in (suc n) u r (suc k) h inside l =
      let next : next_read_point nvm geo num_pug (lun_width nvm geo * u + r)
          ≡ lun_width nvm geo * suc u + r =
        next_read_point-arrive u r h (omega (arith, inside))
        ∙ rw (==_ne (suc u) luns (λ e. omega (arith, e, inside))) refl in
      rw next (
        read_points-in n (suc u) r k h (omega (arith, inside)) (omega arith)
        ∙ ap (λ m. some (lun_width nvm geo * m + r)) (omega arith))

  pub read_points-behind :
      (j n u r k : ℕ)
      → r < lun_width nvm geo
      → u < luns
      → u + j ≤ luns
      → get_elem? (read_points nvm geo (j + n) num_pug (lun_width nvm geo * u + r)) (j + k)
        ≡ get_elem? (read_points nvm geo n num_pug (arrive (u + j) r)) k
  unfolding read_points
  read_points-behind zero n u r k h inside fits =
      let same : u + 0 ≡ u = omega arith in
      let steps : 0 + n ≡ n = omega arith in
      let index : 0 + k ≡ k = omega arith in
      rw (same, steps, index, ==_ne u luns (λ e. omega (arith, e, inside))) refl
  read_points-behind (suc j) n u r k h inside fits =
      let steps : suc j + n ≡ suc (j + n) = omega arith in
      let index : suc j + k ≡ suc (j + k) = omega arith in
      let there : u + suc j ≡ suc u + j = omega arith in
      rw (steps, index, there, next_read_point-arrive u r h inside)
        (elim (Bool-cases (suc u == luns)) [
          | inl last ↦
              let none_left : j ≡ 0 = ground (arith, last, fits) in
              let same : suc u + 0 ≡ suc u = omega arith in
              let steps : 0 + n ≡ n = omega arith in
              let index : 0 + k ≡ k = omega arith in rw (none_left, same, steps, index) refl
          | inr more ↦
              let next : arrive (suc u) r ≡ lun_width nvm geo * suc u + r = rw more refl in
              rw next (
                read_points-behind j n (suc u) r k h (ground (arith, more, inside))
                  (omega (arith, fits)))
        ])

  pub length-read_points : (n point : ℕ) → length (read_points nvm geo n num_pug point) ≡ n
  unfolding read_points
  length-read_points zero point = refl
  length-read_points (suc n) point =
      ap suc (length-read_points n (next_read_point nvm geo num_pug point))

  -- Behind the last lun of its window the pointer of every channel moves to the first lun of the
  -- device: for a channel other than 0 whose row is not the last of a lun, to a page of channel 0.
  pub next_write_point-wrap :
      (u r : ℕ)
      → u + geo.max_os_threads ≡ luns
      → 0 < geo.max_os_threads
      → 0 < num_pug
      → 0 < geo.npunit
      → r + nvm.ws_min < lun_width nvm geo
      → (next_write_point nvm geo num_pug (lun_width nvm geo * u + r) ≡ r + nvm.ws_min)
        × (r + nvm.ws_min < channel_width nvm geo)
  unfolding channel_width
  next_write_point-wrap u r last threads later some_lun room =
      let wide : lun_width nvm geo * 1 ≤ lun_width nvm geo * geo.npunit =
        mul-le-mul_left (lun_width nvm geo) some_lun in
      (
        next_write_point-arrive u r (omega (arith, room)) (omega (arith, last, threads))
              (omega (arith, last))
            ∙ rw (last, ==_refl luns) refl,
        omega (arith, wide, room),
      )
