-- ===== src/Parallel/Buffers.antt =====
-- src/Backend/SSDWrite/parallel_writer.cpp: the loop over the batches of a round.
use rexio.Base.{
  ℕ, zero, suc, ◌+◌, ◌*◌, ◌%◌, ◌<◌, ◌≤◌, ◌≡◌, refl, sym, ◌∙◌, ◌==◌, true, some, List, [], ◌∷◌,
  length, get_elem?, take, drop, length-take, length-drop, take-append-drop, set, arith,
}
use mathlib.Core.Path.{subst}
use rexio.Outcome.{ok}
use rexio.Backend.Nvm.{Nvm, Reliable}
use rexio.Backend.Entry.{Entry, uint64_max}
use rexio.Backend.State.{Ssd, ◌>>=◌, ◌>>◌}
use rexio.Parallel.{Geo, page_capacity, lun_width, write_threads, next_write_point, write_buffers}
use rexio.Parallel.Plan.{luns}
use rexio.Parallel.Threads.{Paged, FullPages}
use rexio.Parallel.Reached.{Reached, Reached-append}
use rexio.Parallel.Batch.{batch-Reached}

FullPages-take :
    (nvm : Nvm) (k n : ℕ) (bs : List (List Entry))
    → FullPages nvm n bs
    → FullPages nvm n (take k bs)
FullPages-take nvm zero n bs h = tt
FullPages-take nvm (suc k) n [] h = tt
FullPages-take nvm (suc k) n (b ∷ bs) h =
    (h.0, h.1, FullPages-take nvm k (n + page_capacity nvm) bs h.2)

FullPages-drop :
    (nvm : Nvm) (k n : ℕ) (bs : List (List Entry))
    → FullPages nvm n bs
    → FullPages nvm (n + k * page_capacity nvm) (drop k bs)
FullPages-drop nvm zero n bs h = subst (λ m. FullPages nvm m bs) (omega arith) h
FullPages-drop nvm (suc k) n [] h = tt
FullPages-drop nvm (suc k) n (b ∷ bs) h =
    subst (λ m. FullPages nvm m (drop k bs)) (grind arith)
      (FullPages-drop nvm k (n + page_capacity nvm) bs h.2)

module _ (nvm : Nvm) (reliable : Reliable nvm) (paged : Paged nvm) (wide : page_capacity nvm ≡ 1024)
    (geo : Geo) (num_pug : ℕ) (whole : nvm.nsectr % nvm.ws_min ≡ 0)
    (finite : lun_width nvm geo * luns nvm geo num_pug ≤ uint64_max) (rows : ℕ)
    (threads : 0 < geo.max_os_threads)
    (batches : luns nvm geo num_pug ≡ geo.max_os_threads * rows) where
  abbrev t : ℕ
  t = geo.max_os_threads

  abbrev l : ℕ
  l = lun_width nvm geo

  abbrev Work : ℕ → ℕ → ℕ → List (List Entry) → Ssd nvm → Ssd nvm → Type 0
  Work v r m bs s s' = Reached nvm reliable paged wide geo num_pug whole finite rows v r m bs s s'

  -- No work.
  pub idle-Reached :
      (v r : ℕ) (s : Ssd nvm)
      → v < rows
      → r % nvm.ws_min ≡ 0
      → get_elem? s.channel_current_pointer num_pug ≡ some (l * (t * v) + r)
      → Work v r 0 [] s s
  idle-Reached v r s inside aligned pointer = record {
    lun = v;
    row = r;
    many = omega arith;
    inside = inside;
    aligned = aligned;
    bounded = omega arith;
    later = omega arith;
    pointer = pointer;
    continues = λ n k.
        let steps : 0 + n ≡ n = omega arith in
        let index : 0 + k ≡ k = omega arith in rw (steps, index) refl;
    kept = λ q at before. refl;
    held = λ n k p b here page. absurd (cc here);
  }

  write_buffers_step :
      (fuel size point : ℕ) (b : List Entry) (bs : List (List Entry)) (s s₁ : Ssd nvm)
      → length (take t (b ∷ bs)) ≡ t
      → get_elem? s.channel_current_pointer num_pug ≡ some point
      → write_threads nvm geo (take t (b ∷ bs)) point (size + 1) s ≡ ok (tt, s₁)
      → write_buffers nvm geo (suc fuel) num_pug (b ∷ bs) size s
        ≡ write_buffers nvm geo fuel num_pug
            (drop t (b ∷ bs))
            (size + t * page_capacity nvm)
            (record s₁ {
              channel_current_pointer =
                  set s₁.channel_current_pointer num_pug (next_write_point nvm geo num_pug point);
            })
  unfolding write_buffers
  write_buffers_step fuel size point b bs s s₁ group pointer runs =
      let whole_group : (length (take t (b ∷ bs)) == t) ≡ true = ground (arith, group) in
      rw (write_buffers, whole_group, ◌>>=◌, ◌>>◌, pointer, runs) refl

  none_left : (m : ℕ) → 0 ≡ t * m → m ≡ 0
  none_left zero h = refl
  none_left (suc m) h = absurd (grind (arith, h, threads))

  pub write_buffers-Reached :
      (fuel m : ℕ) (bs : List (List Entry)) (v r size : ℕ) (s : Ssd nvm)
      → length bs ≤ fuel
      → length bs ≡ t * m
      → v < rows
      → r + nvm.ws_min * m < l
      → r % nvm.ws_min ≡ 0
      → FullPages nvm (size + 1) bs
      → get_elem? s.channel_current_pointer num_pug ≡ some (l * (t * v) + r)
      → (s' : Ssd nvm) × (write_buffers nvm geo fuel num_pug bs size s ≡ ok (tt, s'))
        × Work v r m bs s s'
  unfolding write_buffers
  write_buffers-Reached fuel m [] v r size s enough many inside room aligned full pointer = (
    s,
    refl,
    subst (λ n. Work v r n [] s s) (sym (none_left m many))
        (idle-Reached v r s inside aligned pointer),
  )
  write_buffers-Reached zero m (b ∷ bs) v r size s enough many inside room aligned full pointer =
      absurd (omega arith)
  write_buffers-Reached (suc fuel) zero (b ∷ bs) v r size s enough many inside room aligned full
        pointer =
      absurd (omega (arith, many))
  write_buffers-Reached (suc fuel) (suc m) (b ∷ bs) v r size s enough many inside room aligned full
        pointer =
      let all = b ∷ bs in
      let tm : t * suc m ≡ t + t * m = grind arith in
      let wm : nvm.ws_min * suc m ≡ nvm.ws_min + nvm.ws_min * m = grind arith in
      let group : length (take t all) ≡ t = omega (arith, length-take t all, many, tm) in
      let (s₁, runs, same, one) =
        batch-Reached nvm reliable paged wide geo num_pug whole finite rows threads batches v r
          (size + 1) (take t all) s inside (omega (arith, room)) aligned group
          (FullPages-take nvm t (size + 1) all full) pointer in
      let s₂ = record s₁ {
        channel_current_pointer =
            set s₁.channel_current_pointer num_pug
              (next_write_point nvm geo num_pug (l * (t * v) + r));
      } in
      let (s', rest, two) =
        write_buffers-Reached fuel m (drop t all) one.lun one.row (size + t * page_capacity nvm) s₂
          (omega (arith, length-drop t all, enough, threads))
          (omega (arith, length-drop t all, many, tm)) one.inside
          (omega (arith, one.bounded, room, wm)) one.aligned
          (subst (λ n. FullPages nvm n (drop t all)) (omega arith)
            (FullPages-drop nvm t (size + 1) all full))
          one.pointer in
      (
        s',
        write_buffers_step fuel size (l * (t * v) + r) b bs s s₁ group pointer runs ∙ rest,
        subst (λ n. Work v r n all s s') (omega arith)
            (subst (λ cs. Work v r (1 + m) cs s s') (take-append-drop t all)
              (Reached-append nvm reliable paged wide geo num_pug whole finite rows v r 1 m
                (take t all) (drop t all) s s₂ s' one two)),
      )
