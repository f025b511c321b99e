-- ===== src/SkipList/Level.antt =====
-- src/Ti-OCSSD/MemoryTier/MemTier.cpp `RandomLevel`, src/Ti-OCSSD/MemoryTier/Node.cpp: the levels of a
-- new node, and a new list.
use rexio.Base.{
  ℕ, zero, suc, ◌+◌, ◌/◌, ◌≤◌, ◌<◌, ◌≡◌, refl, ltb, false, ◌&&◌, inl, inr, Bool-cases, Option, [],
  arith, List,
}
use rexio.Outcome.{fail, undefined}
use rexio.SkipList.{
  TncSkiplist, max_level1, level_from, random_level, tskiplist_create, advance, forward_at,
  descend_update,
}
use rexio.SkipList.Order.{first}
use rexio.SkipList.Walk.{IsValid}

-- `r` levels come of the random numbers, from `v` on.
abbrev Grown : ℕ → (ℕ → ℕ) → ℕ → ℕ → Type 0
Grown p rands v r =
    (v ≤ r)
    × (r ≤ max_level1)
    × ((j : ℕ) → v + j < r → rands j < p)
    × (r < max_level1 → (j : ℕ) → v + j ≡ r → p ≤ rands j)

Grown-stop :
    (p : ℕ) (rands : ℕ → ℕ) (v : ℕ)
    → v ≤ max_level1
    → (v < max_level1 → p ≤ rands 0)
    → Grown p rands v v
Grown-stop p rands v low stop = (
  omega arith,
  low,
  λ j h. absurd (omega arith),
  λ room j e. Grown-at j (omega (arith, e)) (stop room),
)
  where
    Grown-at : (j : ℕ) → j ≡ 0 → p ≤ rands 0 → p ≤ rands j
    Grown-at zero e h = h
    Grown-at (suc j) e h = absurd (omega (arith, e))

Grown-step :
    (p : ℕ) (rands : ℕ → ℕ) (v r : ℕ)
    → rands 0 < p
    → Grown p (λ j. rands (suc j)) (v + 1) r
    → Grown p rands v r
Grown-step p rands v r h (low, high, below, next) = (omega arith, high, before, after)
  where
    before : (j : ℕ) → v + j < r → rands j < p
    before zero lt = h
    before (suc j) lt = below j (omega arith)

    after : r < max_level1 → (j : ℕ) → v + j ≡ r → p ≤ rands j
    after room zero e = absurd (omega arith)
    after room (suc j) e = next room j (omega arith)

level_from_lem :
    (fuel p : ℕ) (rands : ℕ → ℕ) (v : ℕ)
    → v ≤ max_level1
    → max_level1 ≤ v + fuel
    → Grown p rands v (level_from fuel p rands v)
unfolding level_from
level_from_lem zero p rands v low enough = Grown-stop p rands v low (λ room. absurd (omega arith))
level_from_lem (suc fuel) p rands v low enough =
    elim (Bool-cases (ltb (rands 0) p && ltb v max_level1)) [
      | inl grows ↦
          let under : rands 0 < p = ground arith in
          let room : v < max_level1 = ground arith in
          rw grows (
            Grown-step p rands v _ under
              (level_from_lem fuel p (λ j. rands (suc j)) (v + 1) (omega arith) (omega arith)))
      | inr stays ↦ rw stays (Grown-stop p rands v low (λ room. ground arith))
    ]

-- The number of levels of a new node lies between 1 and 32; up to it the random numbers were below a
-- quarter of their range, and the next one was not, unless it is 32.
pub random_level_lem :
    (rand_max : ℕ) (rands : ℕ → ℕ)
    → (0 < random_level rand_max rands)
      × (random_level rand_max rands ≤ max_level1)
      × ((j : ℕ) → 1 + j < random_level rand_max rands → rands j < rand_max / 4)
      × (random_level rand_max rands < max_level1
          → (j : ℕ) → 1 + j ≡ random_level rand_max rands
          → rand_max / 4 ≤ rands j)
unfolding random_level
random_level_lem rand_max rands =
    let (pos, low, below, next) =
      level_from_lem 32 (rand_max / 4) rands 1 (omega arith) (omega arith) in
    (pos, low, below, next)

-- A new list is valid, without nodes.
pub tskiplist_create-IsValid : (memory depth : ℕ) → IsValid (tskiplist_create memory depth) []
unfolding tskiplist_create first
tskiplist_create-IsValid memory depth = record {
  chain = λ i h. refl;
  rises = tt;
  bounded = omega arith;
  head_levels = refl;
  head_key = refl;
  head_flag = refl;
  capped = tt;
  level_fits = omega arith;
  allocated = tt;
  head_allocated = omega arith;
  distinct = tt;
  off_head = tt;
}

module _ (sl : TncSkiplist) (k : ℕ) where
  advance-no_level :
      (fuel i p : ℕ)
      → 0 < fuel
      → (sl.nodes p).max_level ≤ i
      → advance fuel i k sl p ≡ fail undefined
  unfolding advance forward_at
  advance-no_level zero i p pos h = absurd (omega arith)
  advance-no_level (suc fuel) i p pos h =
      let out : ltb i (sl.nodes p).max_level ≡ false = ground arith in rw out

  -- On a valid list that has reached level 32, the descent of an insertion reads a pointer that the
  -- head does not have.
  pub descend_update-full :
      (order : List ℕ) (update : ℕ → Option ℕ)
      → IsValid sl order
      → sl.level ≡ max_level1
      → descend_update (suc sl.level) k sl sl.head update ≡ fail undefined
  unfolding descend_update
  descend_update-full order update valid full =
      let stuck =
        advance-no_level sl.next sl.level sl.head (omega (arith, valid.head_allocated))
          (omega (arith, full, valid.head_levels)) in
      rw (descend_update, stuck)
