-- ===== src/ExHash/Directory/Merge.antt =====
-- src/MultiHash/ExtendibleHash/ExHash.cpp `merge`, on a consistent directory.
use rexio.Base.{
  ℕ, ◌+◌, ◌-◌, ◌%◌, ◌^◌, ◌<◌, ◌≡◌, ◌≢◌, ◌⊎◌, ◌↔◌, refl, sym, ap, ◌∙◌, ◌==◌, if◌then◌else◌, true,
  not, ◌&&◌, none, some, List, length, set, arith,
}
use rexio.Base.Powers.{pow-pos}
use mathlib.Core.Path.{subst}
use native.Mathlib.Decide.{ℕ_discrete}
use rexio.Outcome.{ok}
use rexio.Backend.Nvm.{Nvm}
use rexio.Backend.State.{Ssd, ◌>>=◌, write_at}
use rexio.ExHash.Bucket.{ExBucket, decrease_depth}
use rexio.ExHash.Directory.{Directory, set_bucket, assign_at, repoint, delete_bucket, merge}
use rexio.ExHash.Directory.Pointers.{shift_lem, Repoints, assign_at-Repoints, repoint-Repoints}
use rexio.ExHash.Directory.Places.{
  paired, pointer, Place, IsValid, pair, pair-lt, pair-step, old_step_iff,
}
use rexio.ExHash.Directory.Divide.{pair_index_lem, bucket_at_lem}

-- `d'` is `d` behind the merge of the bucket at place `n` into `c`, the bucket at its pair.
pub record Merged (n depth : ℕ) (c : ExBucket) (d d' : Directory) : Type 0 where
  pub depth_kept : d'.global_depth ≡ d.global_depth
  pub sized_after : length d'.buckets ≡ length d.buckets
  pub pointers :
      (j : ℕ)
      → j < length d.buckets
      → pointer d' j
        ≡ (if j % 2 ^ depth == n % 2 ^ depth then pointer d (paired n depth) else pointer d j)
  pub store_after :
      (q : ℕ)
      → d'.store q ≡ (
          if q == pointer d n
          then none
          else (if q == pointer d (paired n depth) then some (decrease_depth c) else d.store q))
  pub next_after : d'.next ≡ d.next

module _ (n : ℕ) (b c : ExBucket) (m : ℕ) (e : b.depth ≡ m + 1) (d : Directory) (valid : IsValid d)
    (narrow : d.global_depth < 31) (inside : n < 2 ^ d.global_depth) (here : Place d n b)
    (there : Place d (paired n b.depth) c) (level : c.depth ≡ b.depth) where
  abbrev lower : ExBucket
  lower = record b { depth = m }

  abbrev partner : ℕ
  partner = paired n b.depth

  abbrev step : ℕ
  step = 2 ^ b.depth

  partner-pair : partner ≡ pair n lower
  partner-pair = ap (paired n) e

  partner-step : partner % step ≢ n % step
  partner-step = rw (e) (pair-step n lower)

  partner-lt : partner < 2 ^ d.global_depth
  partner-lt =
      omega (
        arith,
        partner-pair,
        pair-lt n lower d.global_depth inside (omega (arith, e, here.shallow)),
      )

  half_iff :
      (j : ℕ) → (j % 2 ^ m ≡ n % 2 ^ m) ↔ ((j % step ≡ n % step) ⊎ (j % step ≡ partner % step))
  half_iff = rw e (old_step_iff n lower)

  apart : pointer d partner ≢ pointer d n
  apart h = partner-step ((here.shared partner partner-lt).0 h)

  own : (j : ℕ) → j < 2 ^ d.global_depth → (pointer d j ≡ pointer d n) ↔ (j % step ≡ n % step)
  own j low = here.shared j low

  pair_own :
      (j : ℕ)
      → j < 2 ^ d.global_depth
      → (pointer d j ≡ pointer d partner) ↔ (j % step ≡ partner % step)
  pair_own j low =
      subst (λ k. (pointer d j ≡ pointer d partner) ↔ (j % 2 ^ k ≡ partner % 2 ^ k)) level
        (there.shared j low)

  module _ (d' : Directory) (a : Merged n b.depth c d d') where
    wide : (j : ℕ) → j < 2 ^ d'.global_depth → j < 2 ^ d.global_depth
    wide j low = subst (λ k. j < 2 ^ k) a.depth_kept low

    moved :
        (j : ℕ)
        → j < 2 ^ d.global_depth
        → pointer d' j ≡ (if j % step == n % step then pointer d partner else pointer d j)
    moved j low = a.pointers j (omega (arith, low, valid.sized))

    -- The places that lead to the merged bucket are those that agree with `n` in one bit less.
    merged_iff :
        (j : ℕ)
        → j < 2 ^ d.global_depth
        → (pointer d' j ≡ pointer d partner) ↔ (j % 2 ^ m ≡ n % 2 ^ m)
    merged_iff j low = ground (arith, moved j low, half_iff j, pair_own j low, own j low)

    merged_Place :
        (i : ℕ) → i < 2 ^ d.global_depth → i % 2 ^ m ≡ n % 2 ^ m → Place d' i (decrease_depth c)
    unfolding decrease_depth
    merged_Place i low half =
        let goes : pointer d' i ≡ pointer d partner = (merged_iff i low).1 half in
        let less : c.depth - 1 ≡ m = omega (arith, level, e) in
        record {
          held = rw goes (ground (arith, a.store_after (pointer d partner), apart));
          shallow = omega (arith, less, e, here.shallow, a.depth_kept);
          known = omega (arith, goes, there.known, a.next_after);
          shared = λ j h. rw (goes, less, half) (merged_iff j (wide j h));
        }

    kept_Place :
        (i : ℕ)
        → i < 2 ^ d.global_depth
        → i % 2 ^ m ≢ n % 2 ^ m
        → (x : ExBucket) → Place d i x
        → Place d' i x
    kept_Place i low other x k =
        let stays : pointer d' i ≡ pointer d i = ground (arith, moved i low, half_iff i) in
        let not_own : pointer d i ≢ pointer d n = ground (arith, own i low, half_iff i) in
        let not_pair : pointer d i ≢ pointer d partner =
          ground (arith, pair_own i low, half_iff i) in
        record {
          held = rw stays (ground (arith, a.store_after (pointer d i), k.held));
          shallow = omega (arith, k.shallow, a.depth_kept);
          known = omega (arith, stays, k.known, a.next_after);
          shared = λ j h.
              ground (arith, stays, moved j (wide j h), own j (wide j h), k.shared j (wide j h));
        }

    pub Merged-IsValid : IsValid d'
    Merged-IsValid = record {
      sized = a.sized_after ∙ valid.sized ∙ ap (λ k. 2 ^ k) (sym a.depth_kept);
      placed = λ i h.
          let low = wide i h in
          elim (ℕ_discrete (i % 2 ^ m) (n % 2 ^ m)) [
            | yes half ↦ (_, merged_Place i low half)
            | no other ↦ let (x, k) = valid.placed i low in (x, kept_Place i low other x k)
          ];
    }

  module _ (nvm : Nvm) (s : Ssd nvm) where
    abbrev d₁ : Directory
    d₁ = delete_bucket (pointer d n) (set_bucket (pointer d partner) (decrease_depth c) d)

    first :
        (assign_at nvm n (pointer d partner) d.buckets s
          ≡ ok (set d.buckets n (pointer d partner), s))
        × Repoints (pointer d partner) (λ j. j == n) d.buckets (set d.buckets n (pointer d partner))
    first =
        assign_at-Repoints nvm n (pointer d partner) d.buckets s
          (omega (arith, inside, valid.sized))

    abbrev d₂ : Directory
    d₂ = record d₁ { buckets = set d.buckets n (pointer d partner) }

    rest :
        (bs : List ℕ) × (repoint nvm n step (2 ^ d.global_depth) (pointer d partner) d₂ s
          ≡ ok (record d₂ { buckets = bs }, s))
        × Repoints (pointer d partner) (λ j. (j % step == n % step) && not (j == n)) d₂.buckets bs
    unfolding set_bucket delete_bucket
    rest =
        repoint-Repoints nvm d₂ s (first.1.sized ∙ valid.sized) n step (pointer d partner) inside
          (pow-pos b.depth)

    merge_runs : merge nvm n d s ≡ ok (record d₂ { buckets = rest.0 }, s)
    unfolding merge
    merge_runs =
        let one = bucket_at_lem nvm n d b s (omega (arith, inside, valid.sized)) here.held in
        let two =
          bucket_at_lem nvm partner d c s (omega (arith, partner-lt, valid.sized)) there.held in
        let same : (c.depth == b.depth) ≡ true = ground (arith, level) in
        let shallow : b.depth < 31 = omega (arith, here.shallow, narrow) in
        let turned = pair_index_lem nvm n b.depth s (omega (arith, e)) (omega (arith, shallow)) in
        let diff = shift_lem nvm b.depth s shallow in
        let size = shift_lem nvm d.global_depth s narrow in
        rw (merge, ◌>>=◌, one, turned, diff, size, two, same, first.0, rest.1)

    merged : Merged n b.depth c d (record d₂ { buckets = rest.0 })
    unfolding set_bucket delete_bucket write_at
    merged = record {
      depth_kept = refl;
      sized_after = rest.2.sized ∙ first.1.sized;
      pointers = λ j low.
          ground
            (arith, rest.2.pointers j (omega (arith, low, first.1.sized)), first.1.pointers j low);
      store_after = λ q. refl;
      next_after = refl;
    }

    -- On a consistent directory below depth 31, the merge of a bucket into the bucket of its pair, which
    -- is as deep, never faults and keeps the directory consistent: the places of the bucket lead to
    -- the other one, which is one bit less deep, the bucket is deleted, and no place leads to it.
    pub merge_lem :
        (d' : Directory) × (merge nvm n d s ≡ ok (d', s)) × IsValid d' × Merged n b.depth c d d'
    merge_lem = (
      record d₂ { buckets = rest.0 },
      merge_runs,
      Merged-IsValid (record d₂ { buckets = rest.0 }) merged,
      merged,
    )
