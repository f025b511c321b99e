-- ===== src/Parallel/Threads.antt =====
-- src/Backend/SSDWrite/parallel_writer.cpp: what a batch of threads leaves on the device.
use rexio.Base.{
  ℕ, zero, suc, ◌+◌, ◌*◌, ◌/◌, ◌%◌, ◌<◌, ◌≤◌, ◌≡◌, ◌≢◌, refl, ap, ◌∙◌, ◌==◌, ==_ne, true, none,
  some, List, [], ◌∷◌, length, take, get_elem?, arith,
}
use rexio.Base.Powers.{mod_unique, div_mod}
use native.Mathlib.Nat.{mul-le-mul_left}
use mathlib.Core.Path.{subst}
use rexio.Outcome.{ok}
use rexio.Backend.Nvm.{Nvm, Reliable}
use rexio.Backend.Entry.{Entry, uint64_max}
use rexio.Backend.Codec.{encode, length-encode}
use rexio.Backend.State.{Ssd, ◌>>=◌, ◌>>◌, >>=-ok}
use rexio.Backend.Eraser.{write_sectors}
use rexio.Backend.Pages.{page_addrs, length-addrs_from}
use rexio.Parallel.{
  Geo, page_capacity, check_keys, read_back, parallel_write_into_pu, lun_width, write_threads,
}
use rexio.Parallel.Plan.{rank, rank-spot, luns}

-- A device that takes every write, and keeps other pages as they are.
pub record Paged (nvm : Nvm) : Type 0 where
  pub width : nvm.nsectr ≡ 4096
  pub accepts :
      (d : nvm.Dev) (addrs : List nvm.Addr) (buf : List ℕ) → (nvm.cmd_write d addrs buf).1 ≡ true
  pub isolated :
      (d : nvm.Dev) (p q : ℕ) (buf : List ℕ)
      → p % nvm.ws_min ≡ 0
      → q % nvm.ws_min ≡ 0
      → p ≢ q
      → nvm.cmd_read (nvm.cmd_write d (page_addrs nvm p) buf).0 (page_addrs nvm q)
        ≡ nvm.cmd_read d (page_addrs nvm q)

-- Entries with the keys from `n` on, and values other than 0.
abbrev pub Numbered : ℕ → List Entry → Type 0
Numbered n [] = Unit
Numbered n (e ∷ es) = (e.key ≡ n) × (e.val ≢ 0) × Numbered (n + 1) es

-- Full pages of them.
abbrev pub FullPages : Nvm → ℕ → List (List Entry) → Type 0
FullPages nvm n [] = Unit
FullPages nvm n (b ∷ bs) =
    (length b ≡ 1024) × Numbered n b × FullPages nvm (n + page_capacity nvm) bs

-- What holds of the first element and of the others, at their places, holds of all.
pub by_place {ℓ κ} :
    {A : Type ℓ} (P : ℕ → A → Type κ) (x : A) (xs : List A)
    → P 0 x
    → ((k : ℕ) (y : A) → get_elem? xs k ≡ some y → P (suc k) y)
    → (k : ℕ) (y : A) → get_elem? (x ∷ xs) k ≡ some y
    → P k y
by_place P x xs first others zero y h =
    subst (P 0) (ap (λ o. elim o [ none ↦ x | some z ↦ z ]) h) first
by_place P x xs first others (suc k) y h = others k y h

take-long {ℓ} : {A : Type ℓ} (n : ℕ) (xs : List A) → length xs ≤ n → take n xs ≡ xs
take-long zero [] h = refl
take-long zero (x ∷ xs) h = absurd (omega arith)
take-long (suc n) [] h = refl
take-long (suc n) (x ∷ xs) h = ap (◌∷◌ x) (take-long n xs (omega arith))

pub mod_zero : (m n u r w : ℕ) → 0 < w → n % w ≡ 0 → r % w ≡ 0 → (m * n * u + r) % w ≡ 0
mod_zero m n u r w pos hn hr =
    let whole : n ≡ w * (n / w) = omega (arith, div_mod n w, hn) in
    let rest : r ≡ w * (r / w) = omega (arith, div_mod r w, hr) in
    let sum : m * n * u + r ≡ w * (m * (n / w) * u + r / w) + 0 =
      ap (λ k. m * k * u + r) whole ∙ ap (λ k. m * (w * (n / w)) * u + k) rest ∙ grind arith in
    mod_unique (m * n * u + r) w (m * (n / w) * u + r / w) 0 sum pos

module _ (nvm : Nvm) where
  check_keys_lem :
      (n s : ℕ) (es : List Entry) (st : Ssd nvm)
      → n ≤ length es
      → Numbered s es
      → check_keys nvm n s es st ≡ ok (tt, st)
  unfolding check_keys
  check_keys_lem zero s es st h keys = refl
  check_keys_lem (suc n) s [] st h keys = absurd (omega arith)
  check_keys_lem (suc n) s (e ∷ es) st h keys =
      let same : (e.key == s) ≡ true = ground (arith, keys.0) in
      rw (check_keys, same) (check_keys_lem n (s + 1) es st (omega arith) keys.2)

  -- The backend behind a thread.
  abbrev pub wrote : List Entry → ℕ → Ssd nvm → Ssd nvm
  wrote b p s = record s {
    dev = (nvm.cmd_write s.dev (page_addrs nvm p) (encode b)).0;
    counters = record s.counters { writes = s.counters.writes + 1; reads = s.counters.reads + 1 };
  }

  -- The page holds the bytes of the entries.
  abbrev pub Holds : nvm.Dev → ℕ → List Entry → Type 0
  Holds d p b = nvm.cmd_read d (page_addrs nvm p) ≡ (encode b, true)

  module _ (reliable : Reliable nvm) (paged : Paged nvm) (wide : page_capacity nvm ≡ 1024) where
    Holds-wrote :
        (b : List Entry) (p : ℕ) (s : Ssd nvm) → length b ≡ 1024 → Holds (wrote b p s).dev p b
    Holds-wrote b p s h =
        let fits : length (encode b) ≤ nvm.ws_min * nvm.nbytes =
          omega (arith, length-encode b, wide, h) in
        reliable.read-write s.dev (page_addrs nvm p) (encode b)
          (paged.accepts s.dev (page_addrs nvm p) (encode b))
        ∙ rw (length-addrs_from nvm (nvm.dev2gen p) (p % 4096) nvm.ws_min)
            (rw (take-long (nvm.ws_min * nvm.nbytes) (encode b) fits) refl)

    parallel_write_into_pu_lem :
        (b : List Entry) (p size : ℕ) (s : Ssd nvm)
        → length b ≡ 1024
        → Numbered size b
        → p ≢ uint64_max
        → parallel_write_into_pu nvm b p size s ≡ ok (tt, wrote b p s)
    unfolding parallel_write_into_pu write_sectors read_back
    parallel_write_into_pu_lem b p size s h keys real =
        let check = λ (st : Ssd nvm). check_keys_lem 1024 size b st (omega (arith, h)) keys in
        rw
          (
            ◌>>=◌,
            ◌>>◌,
            check s,
            ==_ne p uint64_max real,
            check s,
            paged.accepts,
            check,
            read_back,
            reliable.read-write s.dev (page_addrs nvm p) (encode b)
                (paged.accepts s.dev (page_addrs nvm p) (encode b)),
          )
          refl

    module _ (geo : Geo) (num_pug : ℕ) (whole : nvm.nsectr % nvm.ws_min ≡ 0)
        (finite : lun_width nvm geo * luns nvm geo num_pug ≤ uint64_max) where
      abbrev l : ℕ
      l = lun_width nvm geo

      abbrev w : ℕ
      w = luns nvm geo num_pug

      -- Pages before a place in the order are as they were.
      abbrev pub Kept : ℕ → Ssd nvm → Ssd nvm → Type 0
      Kept place s s' =
          (q : ℕ)
          → q % nvm.ws_min ≡ 0
          → rank (lun_width nvm geo) (luns nvm geo num_pug) q < place
          → nvm.cmd_read s'.dev (page_addrs nvm q) ≡ nvm.cmd_read s.dev (page_addrs nvm q)

      pub spot_aligned : (u r : ℕ) → r % nvm.ws_min ≡ 0 → (l * u + r) % nvm.ws_min ≡ 0
      unfolding lun_width
      spot_aligned u r h = mod_zero geo.nchunk nvm.nsectr u r nvm.ws_min reliable.ws_min_pos whole h

      spot_real : (u r : ℕ) → r < l → u < w → l * u + r ≢ uint64_max
      spot_real u r h inside e =
          let wide : l * (u + 1) ≤ l * w = mul-le-mul_left l (omega (arith, inside)) in
          let sum : l * (u + 1) ≡ l * u + l = grind arith in omega (arith, wide, sum, e, h, finite)

      Kept-wrote :
          (b : List Entry) (u r : ℕ) (s : Ssd nvm)
          → r < l
          → r % nvm.ws_min ≡ 0
          → Kept (r * w + u) s (wrote b (l * u + r) s)
      Kept-wrote b u r s h aligned q at before =
          paged.isolated s.dev (l * u + r) q (encode b) (spot_aligned u r aligned) at
            (λ e. omega (arith, before, ap (rank l w) e, rank-spot l w u r h))

      pub write_threads_lem :
          (bs : List (List Entry)) (u r size : ℕ) (s : Ssd nvm)
          → r < l
          → r % nvm.ws_min ≡ 0
          → u + length bs ≤ w
          → FullPages nvm size bs
          → (s' : Ssd nvm) × (write_threads nvm geo bs (l * u + r) size s ≡ ok (tt, s'))
            × (s'.channel_current_pointer ≡ s.channel_current_pointer)
            × Kept (r * w + u) s s'
            × ((k : ℕ) (b : List Entry)
                → get_elem? bs k ≡ some b
                → Holds s'.dev (l * (u + k) + r) b)
      unfolding write_threads
      write_threads_lem [] u r size s h aligned fits full =
          (s, refl, refl, λ q at before. refl, λ k b here. absurd (cc here))
      write_threads_lem (b ∷ bs) u r size s h aligned fits full =
          let first =
            parallel_write_into_pu_lem b (l * u + r) size s full.0 full.1
              (spot_real u r h (omega (arith, fits))) in
          let s₁ = wrote b (l * u + r) s in
          let next : l * u + r + l ≡ l * suc u + r = grind arith in
          let (s', runs, same, kept, held) =
            write_threads_lem bs (suc u) r (size + page_capacity nvm) s₁ h aligned
              (omega (arith, fits)) full.2 in
          (
            s',
            >>=-ok (parallel_write_into_pu nvm b (l * u + r) size)
                  (λ _. write_threads nvm geo bs (l * u + r + l) (size + page_capacity nvm)) first
                ∙ ap (λ p. write_threads nvm geo bs p (size + page_capacity nvm) s₁) next
                ∙ runs,
            same,
            λ q at before.
                kept q at (omega (arith, before)) ∙ Kept-wrote b u r s h aligned q at before,
            by_place (λ k c. Holds s'.dev (l * (u + k) + r) c) b bs
                (ap (λ n. nvm.cmd_read s'.dev (page_addrs nvm (l * n + r))) (omega arith)
                  ∙ kept (l * u + r) (spot_aligned u r aligned) (omega (arith, rank-spot l w u r h))
                  ∙ Holds-wrote b (l * u + r) s full.0)
                (λ k c here.
                  ap (λ n. nvm.cmd_read s'.dev (page_addrs nvm (l * n + r))) (omega arith)
                  ∙ held k c here),
          )
