-- ===== src/ExHash/Directory/Places.antt =====
-- src/MultiHash/ExtendibleHash/ExHash.cpp: when the directory is consistent, and `split` up to the loop
-- that inserts the old entries again.
use rexio.Base.{
  ℕ, ◌+◌, ◌-◌, ◌*◌, ◌%◌, ◌^◌, ◌≤◌, ◌<◌, ◌≡◌, ◌≢◌, ◌↔◌, ◌⊎◌, ap, ◌∙◌, ltb, ◌==◌, if◌then◌else◌, some,
  length, get_or, arith,
}
use rexio.Base.Powers.{
  mod_double, mod_mod_pow, pow-pos, pow_split, pow_next, flipped, flipped-lt, flipped-mod,
  flipped-ne,
}
use native.Mathlib.Decide.{ℕ_discrete}
use rexio.ExHash.Bucket.{ExBucket, new_ex_bucket, increase_depth, allclear}
use rexio.ExHash.Directory.{Directory, turn_bit}

abbrev pub pointer : Directory → ℕ → ℕ
pointer d i = get_or d.buckets i 0

-- The place that differs in the top bit of a depth.
abbrev pub paired : ℕ → ℕ → ℕ
paired n depth = turn_bit n (2 ^ (depth - 1))

-- Place `i` leads to bucket `b`, and shares it with the places that agree with it in the lower bits that
-- the bucket counts.
pub record Place (d : Directory) (i : ℕ) (b : ExBucket) : Type 0 where
  pub held : d.store (pointer d i) ≡ some b
  pub shallow : b.depth ≤ d.global_depth
  pub known : pointer d i < d.next
  pub shared :
      (j : ℕ)
      → j < 2 ^ d.global_depth
      → (pointer d j ≡ pointer d i) ↔ (j % 2 ^ b.depth ≡ i % 2 ^ b.depth)

pub record IsValid (d : Directory) : Type 0 where
  pub sized : length d.buckets ≡ 2 ^ d.global_depth
  pub placed : (i : ℕ) → i < 2 ^ d.global_depth → (b : ExBucket) × Place d i b

-- `d'` is `d` behind the division of the bucket `b` at place `n`.
pub record Divided (n : ℕ) (b : ExBucket) (d d' : Directory) : Type 0 where
  pub deep :
      d'.global_depth
      ≡ (if ltb d.global_depth (b.depth + 1) then d.global_depth + 1 else d.global_depth)
  pub sized_after : length d'.buckets ≡ 2 ^ d'.global_depth
  pub pointers :
      (j : ℕ)
      → j < 2 ^ d'.global_depth
      → pointer d' j ≡ (
          if j % 2 ^ (b.depth + 1) == paired n (b.depth + 1) % 2 ^ (b.depth + 1)
          then d.next
          else pointer d (j % 2 ^ d.global_depth))
  pub store_after :
      (q : ℕ)
      → d'.store q ≡ (
          if q == pointer d n
          then some (allclear (increase_depth b))
          else (if q == d.next
              then some (new_ex_bucket (b.depth + 1) d.bucket_size)
              else d.store q))
  pub next_after : d'.next ≡ d.next + 1

module _ (n : ℕ) (b : ExBucket) where
  -- The step between the places of the bucket before, and behind the division.
  abbrev pub old_step : ℕ
  old_step = 2 ^ b.depth

  abbrev pub step : ℕ
  step = 2 ^ (b.depth + 1)

  abbrev pub pair : ℕ
  pair = paired n (b.depth + 1)

  pub pair-flipped : pair ≡ flipped n old_step
  unfolding turn_bit
  pair-flipped =
      let same : b.depth + 1 - 1 ≡ b.depth = omega arith in ap (λ k. flipped n (2 ^ k)) same

  -- The pair lies in the directory.
  pub pair-lt : (k : ℕ) → n < 2 ^ k → b.depth + 1 ≤ k → pair < 2 ^ k
  pair-lt k low deep =
      let whole : 2 ^ k ≡ 2 * 2 ^ b.depth * 2 ^ (k - (b.depth + 1)) =
        pow_split (b.depth + 1) k deep ∙ ap (λ m. m * 2 ^ (k - (b.depth + 1))) (pow_next b.depth) in
      let bound =
        flipped-lt n (2 ^ b.depth) (2 ^ (k - (b.depth + 1))) (pow-pos b.depth)
          (omega (arith, low, whole)) in
      omega (arith, bound, whole, pair-flipped)

  pub pair-old_step : pair % old_step ≡ n % old_step
  pair-old_step = ap (λ k. k % old_step) pair-flipped ∙ flipped-mod n old_step (pow-pos b.depth)

  pub pair-step : pair % step ≢ n % step
  pair-step = rw (pair-flipped, pow_next b.depth) (flipped-ne n old_step (pow-pos b.depth))

  step_cases : (j : ℕ) → (j % step ≡ j % old_step) ⊎ (j % step ≡ j % old_step + old_step)
  step_cases j = rw (pow_next b.depth) (mod_double j old_step (pow-pos b.depth))

  step_low : (j : ℕ) → j % old_step < old_step
  step_low j = let pos = pow-pos b.depth in grind arith

  -- A place agrees with `n` in the bits of before if it agrees with `n` or with its pair in one more.
  pub old_step_iff :
      (j : ℕ) → (j % old_step ≡ n % old_step) ↔ ((j % step ≡ n % step) ⊎ (j % step ≡ pair % step))
  old_step_iff j = ground (
    arith,
    step_cases j,
    step_cases n,
    step_cases pair,
    pair-old_step,
    pair-step,
    step_low j,
    step_low n,
  )

module _ (n : ℕ) (b : ExBucket) (d d' : Directory) (valid : IsValid d)
    (inside : n < 2 ^ d.global_depth) (here : Place d n b) (a : Divided n b d d') where
  -- The place of before behind a place.
  abbrev old : ℕ → ℕ
  old j = j % 2 ^ d.global_depth

  old_inside : (j : ℕ) → old j < 2 ^ d.global_depth
  old_inside j = let pos = pow-pos d.global_depth in grind arith

  old_known : (j : ℕ) → pointer d (old j) < d.next
  old_known j = (valid.placed (old j) (old_inside j)).1.known

  deeper : (d.global_depth ≤ d'.global_depth) × (b.depth + 1 ≤ d'.global_depth)
  deeper = ground (arith, a.deep, here.shallow)

  -- The places that led to the bucket agree with `n` or with its pair.
  old_own :
      (j : ℕ)
      → (pointer d (old j) ≡ pointer d n)
        ↔ ((j % step n b ≡ n % step n b) ⊎ (j % step n b ≡ pair n b % step n b))
  old_own j = ground (
    arith,
    here.shared (old j) (old_inside j),
    mod_mod_pow j b.depth d.global_depth here.shallow,
    old_step_iff n b j,
  )

  new_Place :
      (i : ℕ)
      → i < 2 ^ d'.global_depth
      → i % step n b ≡ pair n b % step n b
      → Place d' i (new_ex_bucket (b.depth + 1) d.bucket_size)
  unfolding new_ex_bucket
  new_Place i low same =
      let there : pointer d' i ≡ d.next = ground (arith, a.pointers i low) in
      record {
        held = rw (there, a.store_after d.next) (ground (arith, here.known));
        shallow = deeper.1;
        known = omega (arith, there, a.next_after);
        shared = λ j h. ground (arith, there, a.pointers j h, old_known j);
      }

  split_Place :
      (i : ℕ)
      → i < 2 ^ d'.global_depth
      → i % step n b ≢ pair n b % step n b
      → pointer d (old i) ≡ pointer d n
      → Place d' i (allclear (increase_depth b))
  unfolding allclear increase_depth
  split_Place i low differs same =
      let there : pointer d' i ≡ pointer d n = ground (arith, a.pointers i low) in
      record {
        held = rw (there, a.store_after (pointer d n)) (ground arith);
        shallow = deeper.1;
        known = omega (arith, there, a.next_after, here.known);
        shared = λ j h.
            ground (arith, there, a.pointers j h, old_own j, old_own i, here.known, pair-step n b);
      }

  keep_Place :
      (i : ℕ)
      → i < 2 ^ d'.global_depth
      → i % step n b ≢ pair n b % step n b
      → pointer d (old i) ≢ pointer d n
      → (c : ExBucket) → Place d (old i) c
      → Place d' i c
  keep_Place i low differs other c k =
      let there : pointer d' i ≡ pointer d (old i) = ground (arith, a.pointers i low) in
      record {
        held = rw (there, a.store_after (pointer d (old i))) (ground (arith, k.held, k.known));
        shallow = omega (arith, k.shallow, deeper);
        known = omega (arith, there, a.next_after, k.known);
        shared = λ j h. ground (
          arith,
          there,
          a.pointers j h,
          old_own j,
          k.known,
          k.shared (old j) (old_inside j),
          mod_mod_pow j c.depth d.global_depth k.shallow,
          mod_mod_pow i c.depth d.global_depth k.shallow,
        );
      }

  pub Divided-IsValid : IsValid d'
  Divided-IsValid = record {
    sized = a.sized_after;
    placed = λ i low. elim (ℕ_discrete (i % step n b) (pair n b % step n b)) [
      | yes same ↦ (_, new_Place i low same)
      | no differs ↦ elim (ℕ_discrete (pointer d (old i)) (pointer d n)) [
        | yes own ↦ (_, split_Place i low differs own)
        | no other ↦
            let (c, k) = valid.placed (old i) (old_inside i) in
            (c, keep_Place i low differs other c k)
      ]
    ];
  }
