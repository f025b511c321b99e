-- ===== src/Parallel/Pages.antt =====
-- src/Backend/SSDWrite/parallel_writer.cpp: the copies of the entries of a run, page by page.
use rexio.Base.{
  ℕ, zero, suc, ◌+◌, ◌*◌, ◌<◌, ◌≤◌, ◌≡◌, refl, sym, ap, ◌∙◌, ◌==◌, ==_ne, true, false, List, [],
  ◌∷◌, ◌++◌, length, take, drop, length-take, length-drop, arith,
}
use mathlib.Core.Path.{subst}
use rexio.Outcome.{ok}
use rexio.Backend.Nvm.{Nvm}
use rexio.Backend.Entry.{Entry}
use rexio.Backend.State.{Ssd, ◌>>=◌, ◌>>◌}
use rexio.Parallel.{page_capacity, check_copy, copy_pages}
use rexio.Parallel.Threads.{Numbered, FullPages}

-- The first `count` pages of the entries.
abbrev pub pages_of : Nvm → ℕ → List Entry → List (List Entry)
pages_of nvm zero es = []
pages_of nvm (suc count) es =
    take (page_capacity nvm) es ∷ pages_of nvm count (drop (page_capacity nvm) es)

pub length-pages_of :
    (nvm : Nvm) (count : ℕ) (es : List Entry) → length (pages_of nvm count es) ≡ count
length-pages_of nvm zero es = refl
length-pages_of nvm (suc count) es =
    ap suc (length-pages_of nvm count (drop (page_capacity nvm) es))

drop_nil {ℓ} : (A : Type ℓ) (n : ℕ) → drop {A = A} n [] ≡ []
drop_nil A zero = refl
drop_nil A (suc n) = refl

drop_add {ℓ} : {A : Type ℓ} (m n : ℕ) (xs : List A) → drop n (drop m xs) ≡ drop (m + n) xs
drop_add zero n xs = let same : 0 + n ≡ n = omega arith in rw same refl
drop_add {A} (suc m) n [] = drop_nil A n ∙ sym (drop_nil A (suc m + n))
drop_add (suc m) n (x ∷ xs) =
    let same : suc m + n ≡ suc (m + n) = omega arith in rw same (drop_add m n xs)

pub pages_of_add :
    (nvm : Nvm) (m n : ℕ) (es : List Entry)
    → pages_of nvm (m + n) es
      ≡ pages_of nvm m es ++ pages_of nvm n (drop (m * page_capacity nvm) es)
pages_of_add nvm zero n es =
    let same : 0 + n ≡ n = omega arith in
    let nothing : 0 * page_capacity nvm ≡ 0 = omega arith in rw (same, nothing) refl
pages_of_add nvm (suc m) n es =
    let same : suc m + n ≡ suc (m + n) = omega arith in
    let more : page_capacity nvm + m * page_capacity nvm ≡ suc m * page_capacity nvm =
      grind arith in
    rw same (
      ap (◌∷◌ (take (page_capacity nvm) es)) (
        pages_of_add nvm m n (drop (page_capacity nvm) es)
        ∙ ap (λ ds. pages_of nvm m (drop (page_capacity nvm) es) ++ pages_of nvm n ds)
            (drop_add (page_capacity nvm) (m * page_capacity nvm) es ∙ ap (λ k. drop k es) more)))

Numbered-take : (k n : ℕ) (es : List Entry) → Numbered n es → Numbered n (take k es)
Numbered-take zero n es h = tt
Numbered-take (suc k) n [] h = tt
Numbered-take (suc k) n (e ∷ es) h = (h.0, h.1, Numbered-take k (n + 1) es h.2)

pub Numbered-drop : (k n : ℕ) (es : List Entry) → Numbered n es → Numbered (n + k) (drop k es)
Numbered-drop zero n es h = subst (λ m. Numbered m es) (omega arith) h
Numbered-drop (suc k) n [] h = tt
Numbered-drop (suc k) n (e ∷ es) h =
    subst (λ m. Numbered m (drop k es)) (omega arith) (Numbered-drop k (n + 1) es h.2)

module _ (nvm : Nvm) where
  check_copy_lem :
      (n : ℕ) (es : List Entry) (s : Ssd nvm)
      → 0 < n
      → Numbered n es
      → check_copy nvm n es s ≡ ok (tt, s)
  unfolding check_copy
  check_copy_lem n [] s pos keys = refl
  check_copy_lem n (e ∷ es) s pos keys =
      let right : (e.key == n) ≡ true = ground (arith, keys.0) in
      let filled : (e.key == 0) ≡ false = ground (arith, keys.0, pos) in
      let valued : (e.val == 0) ≡ false = ==_ne e.val 0 keys.1 in
      rw (check_copy, right, filled, valued) (check_copy_lem (n + 1) es s (omega arith) keys.2)

  pub copy_pages_lem :
      (count i : ℕ) (es : List Entry) (s : Ssd nvm)
      → Numbered (i + 1) es
      → copy_pages nvm count i es s ≡ ok (pages_of nvm count es, s)
  unfolding copy_pages
  copy_pages_lem zero i es s keys = refl
  copy_pages_lem (suc count) i es s keys =
      let cap = page_capacity nvm in
      let rest =
        copy_pages_lem count (i + cap) (drop cap es) s (
          subst (λ m. Numbered m (drop cap es)) (omega arith)
            (Numbered-drop cap (i + 1) es keys)) in
      rw
        (
          copy_pages,
          ◌>>=◌,
          ◌>>◌,
          check_copy_lem (i + 1) (take cap es) s (omega arith) (Numbered-take cap (i + 1) es keys),
          rest,
        )
        refl

  pub pages_of-FullPages :
      (count n : ℕ) (es : List Entry)
      → page_capacity nvm ≡ 1024
      → Numbered n es
      → page_capacity nvm * count ≤ length es
      → FullPages nvm n (pages_of nvm count es)
  pages_of-FullPages zero n es wide keys h = tt
  pages_of-FullPages (suc count) n es wide keys h =
      let cap = page_capacity nvm in
      let more : cap * suc count ≡ cap + cap * count = grind arith in
      (
        omega (arith, length-take cap es, more, h, wide),
        Numbered-take cap n es keys,
        pages_of-FullPages count (n + cap) (drop cap es) wide (Numbered-drop cap n es keys)
            (omega (arith, length-drop cap es, more, h)),
      )
