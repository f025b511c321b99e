-- ===== src/Parallel/Rounds.antt =====
-- src/Backend/SSDWrite/parallel_writer.cpp: the rounds of the write mode, and the pages at which the
-- read mode finds what was written.
use rexio.Base.{
  ℕ, zero, suc, ◌+◌, ◌-◌, ◌*◌, ◌/◌, ◌%◌, ◌<◌, ◌≤◌, ◌≡◌, refl, sym, ap, ◌∙◌, ltb, leb, leb→le,
  if◌then◌else◌, Bool-cases, inl, inr, some, List, [], ◌∷◌, ◌++◌, length, drop, length-drop,
  get_elem?, arith,
}
use mathlib.Core.Path.{subst}
use native.Mathlib.Nat.{mul-le-mul_left}
use rexio.Outcome.{ok}
use rexio.Backend.Nvm.{Nvm, Reliable}
use rexio.Backend.Entry.{Entry, uint64_max}
use rexio.Backend.State.{Ssd, ◌>>=◌, ◌>>◌}
use rexio.Parallel.{Geo, page_capacity, lun_width, write_buffers, write_rounds}
use rexio.Parallel.Plan.{luns, spot-div}
use rexio.Parallel.Threads.{Paged, Numbered}
use rexio.Parallel.Reached.{Reached, Reached-append}
use rexio.Parallel.Buffers.{idle-Reached, write_buffers-Reached}
use rexio.Parallel.Pages.{
  pages_of, length-pages_of, pages_of_add, Numbered-drop, copy_pages_lem, pages_of-FullPages,
}

mul_parts : (a m c d : ℕ) → m ≡ c + d → a * c + a * d ≡ a * m
mul_parts a m c d e =
    let sum : a * c + a * d ≡ a * (c + d) = grind arith in sum ∙ ap (λ n. a * n) (sym e)

module _ (nvm : Nvm) (reliable : Reliable nvm) (paged : Paged nvm) (wide : page_capacity nvm ≡ 1024)
    (geo : Geo) (num_pug : ℕ) (whole : nvm.nsectr % nvm.ws_min ≡ 0)
    (finite : lun_width nvm geo * luns nvm geo num_pug ≤ uint64_max) (rows : ℕ)
    (threads : 0 < geo.max_os_threads)
    (batches : luns nvm geo num_pug ≡ geo.max_os_threads * rows) where
  abbrev t : ℕ
  t = geo.max_os_threads

  abbrev l : ℕ
  l = lun_width nvm geo

  abbrev cap : ℕ
  cap = page_capacity nvm

  abbrev Work : ℕ → ℕ → ℕ → List (List Entry) → Ssd nvm → Ssd nvm → Type 0
  Work v r m bs s s' = Reached nvm reliable paged wide geo num_pug whole finite rows v r m bs s s'

  -- A round of `m` batches.
  round-Reached :
      (m v r i : ℕ) (es : List Entry) (s : Ssd nvm)
      → Numbered (i + 1) es
      → cap * (t * m) ≤ length es
      → v < rows
      → r + nvm.ws_min * m < l
      → r % nvm.ws_min ≡ 0
      → get_elem? s.channel_current_pointer num_pug ≡ some (l * (t * v) + r)
      → (s' : Ssd nvm) × (write_buffers nvm geo
            (length (pages_of nvm (t * m) es))
            num_pug
            (pages_of nvm (t * m) es)
            i
            s
          ≡ ok (tt, s'))
        × Work v r m (pages_of nvm (t * m) es) s s'
  round-Reached m v r i es s keys enough inside room aligned pointer =
      write_buffers-Reached nvm reliable paged wide geo num_pug whole finite rows threads batches
        (length (pages_of nvm (t * m) es)) m (pages_of nvm (t * m) es) v r i s (omega arith)
        (length-pages_of nvm (t * m) es) inside room aligned
        (pages_of-FullPages nvm (t * m) (i + 1) es wide keys enough) pointer

  write_rounds_step :
      (fuel i count : ℕ) (e : Entry) (es : List Entry) (s s' : Ssd nvm)
      → (if ltb (length (e ∷ es)) (geo.nchunk * cap) then length (e ∷ es) / cap else geo.nchunk)
        ≡ count
      → Numbered (i + 1) (e ∷ es)
      → write_buffers nvm geo
          (length (pages_of nvm count (e ∷ es)))
          num_pug
          (pages_of nvm count (e ∷ es))
          i
          s
        ≡ ok (tt, s')
      → write_rounds nvm geo (suc fuel) num_pug i (e ∷ es) s
        ≡ write_rounds nvm geo fuel num_pug
            (i + geo.nchunk * cap)
            (drop (geo.nchunk * cap) (e ∷ es))
            s'
  unfolding write_rounds
  write_rounds_step fuel i count e es s s' batch keys runs =
      rw (write_rounds, batch, ◌>>=◌, ◌>>◌, copy_pages_lem nvm count i (e ∷ es) s keys, runs) refl

  no_batch : (m : ℕ) → 0 ≡ cap * (t * m) → m ≡ 0
  no_batch zero h = refl
  no_batch (suc m) h =
      let one_batch : 1 ≤ t * suc m = grind (arith, threads) in
      let one_page : cap * 1 ≤ cap * (t * suc m) = mul-le-mul_left cap one_batch in
      absurd (omega (arith, one_page, h, wide))

  some_round : (c : ℕ) → 0 < c → geo.nchunk ≡ t * c → 0 < geo.nchunk * cap
  some_round c h e = grind (arith, threads, wide, h, e)

  module _ (c : ℕ) (some_chunk : 0 < c) (chunks : geo.nchunk ≡ t * c) where
    drop_all {ℓ} : {A : Type ℓ} (n : ℕ) (xs : List A) → length xs ≤ n → drop n xs ≡ []
    drop_all zero [] h = refl
    drop_all zero (x ∷ xs) h = absurd (omega arith)
    drop_all (suc n) [] h = refl
    drop_all (suc n) (x ∷ xs) h = drop_all n xs (omega arith)

    -- A round that is not whole: its pages are all that are left.
    part_round :
        (m k : ℕ)
        → k ≡ cap * (t * m)
        → m < c
        → ((if ltb k (geo.nchunk * cap) then k / cap else geo.nchunk) ≡ t * m)
          × (k ≤ geo.nchunk * cap)
    part_round m k e below =
        let pages : t * (m + 1) ≤ t * c = mul-le-mul_left t (omega (arith, below)) in
        let fewer : t * m < geo.nchunk = grind (arith, pages, chunks, threads) in
        let bytes : cap * (t * m + 1) ≤ cap * geo.nchunk =
          mul-le-mul_left cap (omega (arith, fewer)) in
        let short : k < geo.nchunk * cap = grind (arith, bytes, e, wide) in
        let pos : 0 < cap = omega (arith, wide) in
        let quotient : k / cap ≡ t * m =
          ap (λ n. n / cap) (e ∙ omega arith) ∙ spot-div cap (t * m) 0 pos in
        (ground (arith, short, quotient), omega (arith, short))

    whole_round :
        (d k : ℕ)
        → k ≡ cap * (t * (c + d))
        → ((if ltb k (geo.nchunk * cap) then k / cap else geo.nchunk) ≡ t * c)
          × (k - geo.nchunk * cap ≡ cap * (t * d))
          × (cap * (t * c) ≤ k)
    whole_round d k e =
        let sum : cap * (t * (c + d)) ≡ cap * (t * c) + cap * (t * d) = grind arith in
        let round : geo.nchunk * cap ≡ cap * (t * c) = grind (arith, chunks) in
        (ground (arith, e, sum, round, chunks), omega (arith, e, sum, round), omega (arith, e, sum))

    pages_join :
        (m d : ℕ) (es : List Entry)
        → m ≡ c + d
        → pages_of nvm (t * c) es ++ pages_of nvm (t * d) (drop (geo.nchunk * cap) es)
          ≡ pages_of nvm (t * m) es
    pages_join m d es e =
        let sum : t * c + t * d ≡ t * m = mul_parts t m c d e in
        rw chunks (sym (pages_of_add nvm (t * c) (t * d) es) ∙ ap (λ n. pages_of nvm n es) sum)

    pub write_rounds-Reached :
        (fuel m v r i : ℕ) (es : List Entry) (s : Ssd nvm)
        → length es ≤ fuel
        → length es ≡ cap * (t * m)
        → Numbered (i + 1) es
        → v < rows
        → r + nvm.ws_min * m < l
        → r % nvm.ws_min ≡ 0
        → get_elem? s.channel_current_pointer num_pug ≡ some (l * (t * v) + r)
        → (s' : Ssd nvm) × (write_rounds nvm geo fuel num_pug i es s ≡ ok (tt, s'))
          × Work v r m (pages_of nvm (t * m) es) s s'
    unfolding write_rounds
    write_rounds-Reached fuel m v r i [] s enough many keys inside room aligned pointer =
        let nothing : m ≡ 0 = no_batch m many in
        let no_page : t * m ≡ 0 = grind (arith, nothing) in
        (
          s,
          refl,
          subst (λ n. Work v r n (pages_of nvm (t * m) []) s s) (sym nothing)
              (subst (λ n. Work v r 0 (pages_of nvm n []) s s) (sym no_page)
                (idle-Reached nvm reliable paged wide geo num_pug whole finite rows threads batches
                  v r s inside aligned pointer)),
        )
    write_rounds-Reached zero m v r i (e ∷ es) s enough many keys inside room aligned pointer =
        absurd (omega arith)
    write_rounds-Reached (suc fuel) m v r i (e ∷ es) s enough many keys inside room aligned
          pointer =
        let all = e ∷ es in
        let k = geo.nchunk * cap in
        elim (Bool-cases (leb c m)) [
          | inr below ↦
              let (count, short) = part_round m (length all) many (ground (arith, below)) in
              let (s', runs, work) =
                round-Reached m v r i all s keys (omega (arith, many)) inside room aligned
                  pointer in
              (
                s',
                write_rounds_step fuel i (t * m) e es s s' count keys runs
                    ∙ ap (λ ds. write_rounds nvm geo fuel num_pug (i + k) ds s')
                        (drop_all k all short),
                work,
              )
          | inl above ↦
              let d = m - c in
              let m_sum : m ≡ c + d = omega (arith, leb→le c m above) in
              let (count, left, filled) =
                whole_round d (length all) (many ∙ ap (λ n. cap * (t * n)) m_sum) in
              let room_sum : nvm.ws_min * m ≡ nvm.ws_min * c + nvm.ws_min * d =
                sym (mul_parts nvm.ws_min m c d m_sum) in
              let (s₁, runs, one) =
                round-Reached c v r i all s keys filled inside (omega (arith, room, room_sum))
                  aligned pointer in
              let (s', rest, two) =
                write_rounds-Reached fuel d one.lun one.row (i + k) (drop k all) s₁
                  (omega (arith, length-drop k all, enough, some_round c some_chunk chunks))
                  (length-drop k all ∙ left)
                  (subst (λ n. Numbered n (drop k all)) (omega arith)
                    (Numbered-drop k (i + 1) all keys))
                  one.inside (omega (arith, one.bounded, room, room_sum)) one.aligned one.pointer in
              (
                s',
                write_rounds_step fuel i (t * c) e es s s₁ count keys runs ∙ rest,
                subst (λ n. Work v r n (pages_of nvm (t * m) all) s s') (sym m_sum)
                    (subst (λ ps. Work v r (c + d) ps s s') (pages_join m d all m_sum)
                      (Reached-append nvm reliable paged wide geo num_pug whole finite rows v r c d
                        (pages_of nvm (t * c) all) (pages_of nvm (t * d) (drop k all)) s s₁ s' one
                        two)),
              )
        ]
