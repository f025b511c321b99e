-- ===== src/Parallel/Reached.antt =====
-- src/Backend/SSDWrite/parallel_writer.cpp: what a number of whole batches leaves behind, and that
-- such stretches of work can be put together.
use rexio.Base.{
  ℕ, zero, suc, ◌+◌, ◌*◌, ◌%◌, ◌<◌, ◌≤◌, ◌≡◌, ◌⊎◌, inl, inr, sym, ap, ◌∙◌, some, List, [], ◌∷◌,
  ◌++◌, length, length-append, get_elem?, arith,
}
use rexio.Backend.Nvm.{Nvm, Reliable}
use rexio.Backend.Entry.{Entry, uint64_max}
use rexio.Backend.State.{Ssd}
use rexio.Parallel.{Geo, page_capacity, lun_width, read_points}
use rexio.Parallel.Plan.{rank, luns}
use rexio.Parallel.Threads.{Paged, Holds, Kept}

append-cases {ℓ} :
    {A : Type ℓ} (xs ys : List A) (k : ℕ) (y : A)
    → get_elem? (xs ++ ys) k ≡ some y
    → (get_elem? xs k ≡ some y) ⊎ ((j : ℕ) × (k ≡ length xs + j) × (get_elem? ys j ≡ some y))
append-cases [] ys k y h = inr (k, omega arith, h)
append-cases (x ∷ xs) ys zero y h = inl h
append-cases (x ∷ xs) ys (suc k) y h = elim (append-cases xs ys k y h) [
  | inl in_first ↦ inl in_first
  | inr (j, e, in_second) ↦ inr (j, omega (arith, e), in_second)
]

module _ (nvm : Nvm) (reliable : Reliable nvm) (paged : Paged nvm) (wide : page_capacity nvm ≡ 1024)
    (geo : Geo) (num_pug : ℕ) (whole : nvm.nsectr % nvm.ws_min ≡ 0)
    (finite : lun_width nvm geo * luns nvm geo num_pug ≤ uint64_max) (rows : ℕ) where
  abbrev t : ℕ
  t = geo.max_os_threads

  -- The `n` pages that the read mode meets from batch `v` of row `r` on.
  abbrev pub pages_from : ℕ → ℕ → ℕ → List ℕ
  pages_from n v r =
      read_points nvm geo n num_pug (lun_width nvm geo * (geo.max_os_threads * v) + r)

  abbrev pub place : ℕ → ℕ → ℕ
  place v r = r * luns nvm geo num_pug + geo.max_os_threads * v

  -- From batch `v` of row `r`, `m` batches have written the buffers to the next pages.
  pub record Reached (v r m : ℕ) (bs : List (List Entry)) (s s' : Ssd nvm) : Type 0 where
    pub lun : ℕ
    pub row : ℕ
    pub many : length bs ≡ geo.max_os_threads * m
    pub inside : lun < rows
    pub aligned : row % nvm.ws_min ≡ 0
    pub bounded : row ≤ r + nvm.ws_min * m
    pub later : place v r ≤ place lun row
    pub pointer :
        get_elem? s'.channel_current_pointer num_pug
        ≡ some (lun_width nvm geo * (geo.max_os_threads * lun) + row)
    pub continues :
        (n k : ℕ)
        → get_elem? (pages_from (length bs + n) v r) (length bs + k)
          ≡ get_elem? (pages_from n lun row) k
    pub kept : Kept nvm reliable paged wide geo num_pug whole finite (place v r) s s'
    pub held :
        (n k p : ℕ) (b : List Entry)
        → get_elem? bs k ≡ some b
        → get_elem? (pages_from (length bs + n) v r) k ≡ some p
        → Holds nvm s'.dev p b
          × (p % nvm.ws_min ≡ 0)
          × (rank (lun_width nvm geo) (luns nvm geo num_pug) p < place lun row)

  pub Reached-append :
      (v r m₁ m₂ : ℕ) (bs₁ bs₂ : List (List Entry)) (s₁ s₂ s₃ : Ssd nvm)
      → (one : Reached v r m₁ bs₁ s₁ s₂) → Reached one.lun one.row m₂ bs₂ s₂ s₃
      → Reached v r (m₁ + m₂) (bs₁ ++ bs₂) s₁ s₃
  Reached-append v r m₁ m₂ bs₁ bs₂ s₁ s₂ s₃ one two =
      let total = length-append bs₁ bs₂ in
      let split : (n : ℕ) → length (bs₁ ++ bs₂) + n ≡ length bs₁ + (length bs₂ + n) =
        λ n. omega (arith, total) in
      record {
        lun = two.lun;
        row = two.row;
        many = grind (arith, total, one.many, two.many);
        inside = two.inside;
        aligned = two.aligned;
        bounded = grind (arith, one.bounded, two.bounded);
        later = omega (arith, one.later, two.later);
        pointer = two.pointer;
        continues = λ n k.
            rw (split n, split k) (one.continues (length bs₂ + n) (length bs₂ + k))
            ∙ two.continues n k;
        kept =
            λ q at before. two.kept q at (omega (arith, before, one.later)) ∙ one.kept q at before;
        held = λ n k p b here page. elim (append-cases bs₁ bs₂ k b here) [
          | inl first ↦
              let (holds, at, before) =
                one.held (length bs₂ + n) k p b first
                  (ap (λ c. get_elem? (pages_from c v r) k) (sym (split n)) ∙ page) in
              (two.kept p at before ∙ holds, at, omega (arith, before, two.later))
          | inr (j, e, second) ↦ two.held n j p b second (
              sym (one.continues (length bs₂ + n) j)
              ∙ ap (λ c. get_elem? (pages_from c v r) (length bs₁ + j)) (sym (split n))
              ∙ ap (get_elem? (pages_from (length (bs₁ ++ bs₂) + n) v r)) (sym e)
              ∙ page)
        ];
      }
