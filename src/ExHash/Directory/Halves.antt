-- ===== src/ExHash/Directory/Halves.antt =====
-- src/MultiHash/ExtendibleHash/ExHash.cpp `split`: where the keys of the divided bucket lead, and that both
-- halves have room for them.
use rexio.Base.{
  ℕ, ◌+◌, ◌%◌, ◌^◌, ◌≤◌, ◌<◌, ◌≡◌, ◌≢◌, ◌↔◌, refl, sym, ◌∙◌, ◌==◌, if◌then◌else◌, some, List, [],
  ◌∷◌, arith,
}
use rexio.Base.Powers.{mod_mod_pow, pow-pos}
use native.Mathlib.Decide.{ℕ_discrete}
use rexio.Backend.Entry.{Entry}
use rexio.ExHash.Bucket.{ExBucket, new_ex_bucket, increase_depth, allclear}
use rexio.ExHash.Directory.{Directory}
use rexio.ExHash.Directory.Places.{
  pointer, Place, Divided, old_step, step, pair, pair-step, old_step_iff,
}
use rexio.ExHash.Directory.Insert.{place}
use rexio.ExHash.Directory.Fill.{leads, load, Room}

-- The keys agree with `n` in the lower bits that the step counts.
abbrev pub AllAgree : ℕ → ℕ → List Entry → Type 0
AllAgree n m [] = Unit
AllAgree n m (e ∷ es) = (e.key % m ≡ n % m) × AllAgree n m es

-- How many keys agree with `n`.
abbrev pub share : ℕ → ℕ → List Entry → ℕ
share n m [] = 0
share n m (e ∷ es) = (if e.key % m == n % m then 1 else 0) + share n m es

module _ (n : ℕ) (b : ExBucket) (d d' : Directory) (here : Place d n b) (a : Divided n b d d') where
  deeper : (d.global_depth ≤ d'.global_depth) × (b.depth + 1 ≤ d'.global_depth)
  deeper = ground (arith, a.deep, here.shallow)

  -- Where a key leads behind the division.
  pub leads-Divided :
      (key : ℕ)
      → leads d' key ≡ (if key % step n b == pair n b % step n b then d.next else leads d key)
  leads-Divided key =
      let low : place d' key < 2 ^ d'.global_depth =
        let pos = pow-pos d'.global_depth in grind arith in
      a.pointers (place d' key) low
      ∙ rw
          (
            mod_mod_pow key (b.depth + 1) d'.global_depth deeper.1,
            mod_mod_pow key d.global_depth d'.global_depth deeper.0,
          )
          refl

  place_inside : (key : ℕ) → place d key < 2 ^ d.global_depth
  place_inside key = let pos = pow-pos d.global_depth in grind arith

  -- The keys of the bucket are those that agree with `n`.
  leads_iff : (key : ℕ) → (leads d key ≡ pointer d n) ↔ (key % old_step n b ≡ n % old_step n b)
  leads_iff key = ground (
    arith,
    here.shared (place d key) (place_inside key),
    mod_mod_pow key b.depth d.global_depth here.shallow,
  )

  pub load-Divided :
      (p : ℕ) (es : List Entry)
      → AllAgree n (old_step n b) es
      → load d' p es ≡ (
          if p == d.next
          then share (pair n b) (step n b) es
          else (if p == pointer d n then share n (step n b) es else 0))
  load-Divided p [] agree = ground arith
  load-Divided p (e ∷ es) (own, agree) =
      let rest = load-Divided p es agree in
      let lead = leads-Divided e.key in
      let lead_own = leads_iff e.key in
      let sides = old_step_iff n b e.key in
      let apart = pair-step n b in
      let known = here.known in ground (arith, rest, lead, lead_own, sides, own, apart, known)

  -- Each bucket that an entry goes to is one of the two, empty, and takes as many as agree with it.
  pub Room-Divided :
      (es : List Entry)
      → AllAgree n (old_step n b) es
      → share n (step n b) es < b.maxsize
      → share (pair n b) (step n b) es < d.bucket_size
      → Room d' es
  unfolding allclear increase_depth new_ex_bucket
  Room-Divided es agree fits fits_pair p c held some_ =
      let l = load-Divided p es agree in
      let known = here.known in
      elim (ℕ_discrete p (pointer d n)) [
        | yes own ↦
            let same : some c ≡ some (allclear (increase_depth b)) =
              sym held ∙ a.store_after p ∙ ground (arith, own) in
            let size : c.size ≡ 0 = grind (arith, same) in
            let maxsize : c.maxsize ≡ b.maxsize = grind (arith, same) in
            ground (arith, l, own, known, size, maxsize, fits)
        | no other ↦
            let next : p ≡ d.next = ground (arith, l, other, some_) in
            let same : some c ≡ some (new_ex_bucket (b.depth + 1) d.bucket_size) =
              sym held ∙ a.store_after p ∙ ground (arith, other, next) in
            let size : c.size ≡ 0 = grind (arith, same) in
            let maxsize : c.maxsize ≡ d.bucket_size = grind (arith, same) in
            ground (arith, l, other, next, size, maxsize, fits_pair)
      ]

  -- The other buckets keep their places.
  pub leads_away : (q : ℕ) → leads d q ≢ pointer d n → leads d' q ≡ leads d q
  leads_away q other = ground (arith, leads-Divided q, leads_iff q, old_step_iff n b q, other)
