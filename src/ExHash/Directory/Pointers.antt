-- ===== src/ExHash/Directory/Pointers.antt =====
-- src/MultiHash/ExtendibleHash/ExHash.cpp: what `grow` and the loops of `split` and `merge` make of the
-- vector of pointers.
use rexio.Base.{
  ℕ, zero, suc, ◌+◌, ◌-◌, ◌*◌, ◌%◌, ◌^◌, ◌≤◌, ◌<◌, ◌≡◌, inl, inr, refl, sym, ap, ◌∙◌, ltb, ◌==◌,
  if◌then◌else◌, Bool, not, ◌&&◌, some, List, [], ◌∷◌, ◌++◌, length, get_or, set, get_elem?,
  length-set, length-append, get_or-set_self, get_or-set_ne, get_or-append_left,
  get_or-append_right, get_elem?-append_middle, append_assoc, append-[], Bool-cases, arith,
}
use rexio.Base.Powers.{mod_sub, mod_add, mod_gap}
use mathlib.Core.Path.{subst}
use rexio.Outcome.{ok}
use rexio.Backend.Nvm.{Nvm}
use rexio.Backend.State.{Ssd, ◌>>=◌}
use rexio.ExHash.Directory.{
  Directory, shift, push_copies, grow, assign_at, assign_down, assign_up, repoint,
}

-- `bs` read through, where `i` may lie behind its end.
abbrev pub at : List ℕ → ℕ → ℕ
at bs i = get_or bs i 0

pub at-double : (bs : List ℕ) (i : ℕ) → i < 2 * length bs → at (bs ++ bs) i ≡ at bs (i % length bs)
at-double bs i h = elim (Bool-cases (ltb i (length bs))) [
  | inl low ↦
      let same : i % length bs ≡ i = grind arith in
      rw same (get_or-append_left bs bs i 0 (ground arith))
  | inr high ↦
      let above : length bs ≤ i = ground arith in
      let same : i % length bs ≡ i - length bs = grind arith in
      let split : i ≡ length bs + (i - length bs) = omega arith in
      rw same (ap (at (bs ++ bs)) split ∙ get_or-append_right bs bs (i - length bs) 0)
]

-- `bs'` is `bs` with `p` at the places that a test names.
pub record Repoints (p : ℕ) (chosen : ℕ → Bool) (bs bs' : List ℕ) : Type 0 where
  pub sized : length bs' ≡ length bs
  pub pointers : (j : ℕ) → j < length bs → at bs' j ≡ (if chosen j then p else at bs j)

module _ (nvm : Nvm) where
  pub shift_lem : (depth : ℕ) (s : Ssd nvm) → depth < 31 → shift nvm depth s ≡ ok (2 ^ depth, s)
  unfolding shift
  shift_lem depth s h = ground (arith, h)

  push_copies-append :
      (ys zs : List ℕ) (s : Ssd nvm)
      → push_copies nvm (length zs) (length ys) ((ys ++ zs) ++ ys) s
        ≡ ok ((ys ++ zs) ++ (ys ++ zs), s)
  unfolding push_copies
  push_copies-append ys [] s = rw (append-[] ys)
  push_copies-append ys (z ∷ zs) s =
      let w = ys ++ (z ∷ zs) in
      let next : get_elem? (w ++ ys) (length ys) ≡ some z =
        ap (λ l. get_elem? l (length ys)) (sym (append_assoc ys (z ∷ zs) ys))
        ∙ get_elem?-append_middle ys (zs ++ ys) z in
      let one_more : length (ys ++ z ∷ []) ≡ length ys + 1 = length-append ys (z ∷ []) in
      let rest =
        subst
          (λ u.
            push_copies nvm (length zs) (length (ys ++ z ∷ [])) (u ++ (ys ++ z ∷ [])) s
            ≡ ok (u ++ u, s))
          (sym (append_assoc ys (z ∷ []) zs)) (push_copies-append (ys ++ z ∷ []) zs s) in
      rw (push_copies, ◌>>=◌, next)
        (ap (λ l. push_copies nvm (length zs) (length ys + 1) l s)
            (sym (append_assoc w ys (z ∷ [])))
          ∙ subst (λ n. push_copies nvm (length zs) n (w ++ (ys ++ z ∷ [])) s ≡ ok (w ++ w, s))
              one_more rest)

  pub assign_at-Repoints :
      (i p : ℕ) (bs : List ℕ) (s : Ssd nvm)
      → i < length bs
      → (assign_at nvm i p bs s ≡ ok (set bs i p, s)) × Repoints p (λ j. j == i) bs (set bs i p)
  unfolding assign_at
  assign_at-Repoints i p bs s h = (
    ground arith,
    record {
      sized = length-set bs i p;
      pointers = λ j low. ground (arith, get_or-set_self bs i p 0 h, get_or-set_ne bs i j p 0);
    },
  )

  assign_down-Repoints :
      (fuel from step p : ℕ) (bs : List ℕ) (s : Ssd nvm)
      → from < fuel
      → 0 < step
      → from ≤ length bs
      → (bs' : List ℕ) × (assign_down nvm fuel from step p bs s ≡ ok (bs', s))
        × Repoints p (λ j. ltb j from && (j % step == from % step)) bs bs'
  unfolding assign_down
  assign_down-Repoints zero from step p bs s f pos low = absurd (omega arith)
  assign_down-Repoints (suc fuel) from step p bs s f pos low = elim (Bool-cases (ltb from step)) [
    | inl stop ↦ (
      bs,
      rw (assign_down, stop),
      record { sized = refl; pointers = λ j h. ground (arith, mod_gap from j step pos) },
    )
    | inr more ↦
        let enough : step ≤ from = ground arith in
        let (run, one) = assign_at-Repoints (from - step) p bs s (omega arith) in
        let (bs', rest, k) =
          assign_down-Repoints fuel (from - step) step p (set bs (from - step) p) s (omega arith)
            pos (omega (arith, one.sized)) in
        (
          bs',
          rw (assign_down, more, ◌>>=◌, run) rest,
          record {
            sized = k.sized ∙ one.sized;
            pointers = λ j h. ground (
              arith,
              k.pointers j (omega (arith, h, one.sized)),
              one.pointers j h,
              mod_gap from j step pos,
              mod_sub from step pos enough,
            );
          },
        )
  ]

  assign_up-Repoints :
      (fuel from step limit p : ℕ) (bs : List ℕ) (s : Ssd nvm)
      → from < limit
      → limit ≤ from + fuel
      → 0 < step
      → limit ≤ length bs
      → (bs' : List ℕ) × (assign_up nvm fuel from step limit p bs s ≡ ok (bs', s))
        × Repoints p (λ j. ltb from j && ltb j limit && (j % step == from % step)) bs bs'
  unfolding assign_up
  assign_up-Repoints zero from step limit p bs s inside f pos low = absurd (omega arith)
  assign_up-Repoints (suc fuel) from step limit p bs s inside f pos low =
      elim (Bool-cases (ltb (from + step) limit)) [
        | inr stop ↦ (
          bs,
          rw (assign_up, stop),
          record { sized = refl; pointers = λ j h. ground (arith, mod_gap j from step pos) },
        )
        | inl more ↦
            let (run, one) = assign_at-Repoints (from + step) p bs s (ground arith) in
            let (bs', rest, k) =
              assign_up-Repoints fuel (from + step) step limit p (set bs (from + step) p) s
                (ground arith) (omega arith) pos (omega (arith, one.sized)) in
            (
              bs',
              rw (assign_up, more, ◌>>=◌, run) rest,
              record {
                sized = k.sized ∙ one.sized;
                pointers = λ j h. ground (
                  arith,
                  k.pointers j (omega (arith, h, one.sized)),
                  one.pointers j h,
                  mod_gap j from step pos,
                  mod_add from step pos,
                );
              },
            )
      ]

  module _ (d : Directory) (s : Ssd nvm) (sized : length d.buckets ≡ 2 ^ d.global_depth) where
    pub grow_lem :
        d.global_depth < 31
        → grow nvm d s
          ≡ ok (record d { buckets = d.buckets ++ d.buckets; global_depth = d.global_depth + 1 }, s)
    unfolding grow
    grow_lem narrow = rw (
      grow,
      ◌>>=◌,
      shift_lem d.global_depth s narrow,
      ← sized,
      ap (λ l. push_copies nvm (length d.buckets) 0 l s) (sym (append-[] d.buckets))
          ∙ push_copies-append [] d.buckets s,
    )

    -- The two loops give the pointer to every place that is whole steps away.
    pub repoint-Repoints :
        (from step p : ℕ)
        → from < 2 ^ d.global_depth
        → 0 < step
        → (bs : List ℕ) × (repoint nvm from step (2 ^ d.global_depth) p d s
            ≡ ok (record d { buckets = bs }, s))
          × Repoints p (λ j. (j % step == from % step) && not (j == from)) d.buckets bs
    unfolding repoint
    repoint-Repoints from step p inside pos =
        let (b₁, down, k₁) =
          assign_down-Repoints (from + 1) from step p d.buckets s (omega arith) pos
            (omega (arith, sized)) in
        let (b₂, up, k₂) =
          assign_up-Repoints (2 ^ d.global_depth + 1) from step (2 ^ d.global_depth) p b₁ s inside
            (omega arith) pos (omega (arith, sized, k₁.sized)) in
        (
          b₂,
          rw (repoint, ◌>>=◌, down, up),
          record {
            sized = k₂.sized ∙ k₁.sized;
            pointers = λ j h.
                ground (arith, k₁.pointers j h, k₂.pointers j (omega (arith, h, k₁.sized)), sized);
          },
        )
