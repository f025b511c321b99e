-- ===== src/ExHash/Directory/Divide.antt =====
-- src/MultiHash/ExtendibleHash/ExHash.cpp: `split` up to the loop that inserts the old entries again runs
-- without a fault on a consistent directory.
use rexio.Base.{
  ℕ, zero, suc, ◌-◌, ◌+◌, ◌%◌, ◌^◌, ◌≤◌, ◌<◌, ◌≡◌, ◌≢◌, inl, inr, sym, ap, ◌∙◌, ltb, ◌==◌,
  if◌then◌else◌, Bool, not, ◌&&◌, some, List, ◌++◌, length, set, length-append, get_elem?-get_or,
  Bool-cases, arith,
}
use rexio.Base.Powers.{pow-pos, pow_next}
use native.Mathlib.Nat.{pow-le-pow_right}
use rexio.Outcome.{ok}
use rexio.Backend.Nvm.{Nvm}
use rexio.Backend.Entry.{Entry}
use rexio.Backend.State.{Ssd, ◌>>=◌, return, write_at}
use rexio.ExHash.Bucket.{ExBucket, new_ex_bucket, increase_depth, allclear, get_data}
use rexio.ExHash.Directory.{
  Directory, set_bucket, pair_index, bucket_at, grow, assign_at, repoint, split_directory,
}
use rexio.ExHash.Directory.Pointers.{
  at-double, Repoints, shift_lem, grow_lem, assign_at-Repoints, repoint-Repoints,
}
use rexio.ExHash.Directory.Places.{
  paired, pointer, Place, IsValid, Divided, Divided-IsValid, pair, step, pair-lt, pair-step,
}

module _ (nvm : Nvm) where
  pub pair_index_lem :
      (n depth : ℕ) (s : Ssd nvm)
      → 0 < depth
      → depth < 32
      → pair_index nvm n depth s ≡ ok (paired n depth, s)
  unfolding pair_index
  pair_index_lem n zero s pos h = absurd (omega arith)
  pair_index_lem n (suc depth) s pos h =
      let same : suc depth - 1 ≡ depth = omega arith in
      rw (pair_index, ◌>>=◌, shift_lem nvm depth s (omega arith), same)

  pub bucket_at_lem :
      (n : ℕ) (d : Directory) (b : ExBucket) (s : Ssd nvm)
      → n < length d.buckets
      → d.store (pointer d n) ≡ some b
      → bucket_at nvm n d s ≡ ok ((pointer d n, b), s)
  unfolding bucket_at
  bucket_at_lem n d b s h held = rw (bucket_at, ◌>>=◌, get_elem?-get_or d.buckets n 0 h, held)

module _ (nvm : Nvm) (n : ℕ) (b : ExBucket) (d : Directory) (s s' : Ssd nvm) (es : List Entry)
    (valid : IsValid d) (narrow : d.global_depth < 30) (inside : n < 2 ^ d.global_depth)
    (here : Place d n b) (kept : get_data nvm (increase_depth b) s ≡ ok (es, s')) where
  abbrev d₁ : Directory
  d₁ = set_bucket (pointer d n) (increase_depth b) d

  abbrev deeper : Bool
  deeper = ltb d.global_depth (b.depth + 1)

  abbrev d₂ : Directory
  d₂ =
      if deeper
      then record d₁ { buckets = d.buckets ++ d.buckets; global_depth = d.global_depth + 1 }
      else d₁

  grows : (if deeper then grow nvm d₁ else return d₁) s ≡ ok (d₂, s)
  unfolding set_bucket
  grows = elim (Bool-cases deeper) [
    | inl h ↦ rw h (grow_lem nvm d₁ s valid.sized (omega (arith, narrow)))
    | inr h ↦ rw h
  ]

  record Grown : Type 0 where
    depth_grown : d₂.global_depth ≡ (if deeper then d.global_depth + 1 else d.global_depth)
    sized_grown : length d₂.buckets ≡ 2 ^ d₂.global_depth
    pointers_grown :
        (j : ℕ) → j < 2 ^ d₂.global_depth → pointer d₂ j ≡ pointer d (j % 2 ^ d.global_depth)
    store_grown :
        (q : ℕ) → d₂.store q ≡ (if q == pointer d n then some (increase_depth b) else d.store q)
    next_grown : d₂.next ≡ d.next
    same_size : d₂.bucket_size ≡ d.bucket_size

  grown : Grown
  unfolding set_bucket write_at
  grown = record {
    depth_grown = elim (Bool-cases deeper) [ inl h ↦ rw h | inr h ↦ rw h ];
    sized_grown = elim (Bool-cases deeper) [
      | inl h ↦
          rw h
            (omega (arith, length-append d.buckets d.buckets, valid.sized, pow_next d.global_depth))
      | inr h ↦ rw h valid.sized
    ];
    pointers_grown = elim (Bool-cases deeper) [
      | inl h ↦ rw h λ j low.
          at-double d.buckets j (omega (arith, low, valid.sized, pow_next d.global_depth))
          ∙ ap (λ k. pointer d (j % k)) valid.sized
      | inr h ↦
          rw h λ j low.
            let same : j % 2 ^ d.global_depth ≡ j = grind arith in ap (pointer d) (sym same)
    ];
    store_grown = λ q. elim (Bool-cases deeper) [ inl h ↦ rw h | inr h ↦ rw h ];
    next_grown = elim (Bool-cases deeper) [ inl h ↦ rw h | inr h ↦ rw h ];
    same_size = elim (Bool-cases deeper) [ inl h ↦ rw h | inr h ↦ rw h ];
  }

  depths : (d.global_depth ≤ d₂.global_depth) × (b.depth + 1 ≤ d₂.global_depth)
  depths = ground (arith, grown.depth_grown, here.shallow)

  n_inside : n < 2 ^ d₂.global_depth
  n_inside = omega (arith, inside, pow-le-pow_right {n = 2} (omega arith) depths.0)

  pair_inside : pair n b < 2 ^ d₂.global_depth
  pair_inside = pair-lt n b d₂.global_depth n_inside depths.1

  abbrev paired_buckets : List ℕ
  paired_buckets = set d₂.buckets (pair n b) d₂.next

  pairs :
      (assign_at nvm (pair n b) d₂.next d₂.buckets s ≡ ok (paired_buckets, s))
      × Repoints d₂.next (λ j. j == pair n b) d₂.buckets paired_buckets
  pairs =
      assign_at-Repoints nvm (pair n b) d₂.next d₂.buckets s
        (omega (arith, pair_inside, grown.sized_grown))

  -- The directory with the new bucket.
  abbrev d₃ : Directory
  d₃ = record (set_bucket d₂.next (new_ex_bucket (b.depth + 1) d₂.bucket_size) d₂) {
    buckets = paired_buckets;
    next = d₂.next + 1;
  }

  d₃-store :
      (q : ℕ)
      → d₃.store q ≡ (
          if q == d₂.next
          then some (new_ex_bucket (b.depth + 1) d₂.bucket_size)
          else (if q == pointer d n then some (increase_depth b) else d.store q))
  unfolding set_bucket write_at
  d₃-store q =
      ap (λ o. if q == d₂.next then some (new_ex_bucket (b.depth + 1) d₂.bucket_size) else o)
        (grown.store_grown q)

  d₃-sized : length d₃.buckets ≡ 2 ^ d₃.global_depth
  unfolding set_bucket
  d₃-sized = omega (arith, pairs.1.sized, grown.sized_grown)

  n_not_pair : n ≢ pair n b
  n_not_pair e = pair-step n b (ap (λ k. k % step n b) (sym e))

  d₃-pointer : pointer d₃ n ≡ pointer d n
  d₃-pointer =
      let low : n % 2 ^ d.global_depth ≡ n = grind arith in
      ground (
        arith,
        pairs.1.pointers n (omega (arith, n_inside, grown.sized_grown)),
        grown.pointers_grown n n_inside,
        n_not_pair,
        ap (pointer d) low,
      )

  d₃-bucket : bucket_at nvm n d₃ s ≡ ok ((pointer d n, increase_depth b), s)
  d₃-bucket =
      bucket_at_lem nvm n d₃ (increase_depth b) s
        (omega (arith, n_inside, pairs.1.sized, grown.sized_grown))
        (ground (arith, d₃-store (pointer d n), d₃-pointer, here.known, grown.next_grown))
      ∙ ap (λ q. ok ((q, increase_depth b), s)) d₃-pointer

  abbrev d₄ : Directory
  d₄ = set_bucket (pointer d n) (allclear (increase_depth b)) d₃

  d₄-sized : length d₄.buckets ≡ 2 ^ d₄.global_depth
  unfolding set_bucket
  d₄-sized = d₃-sized

  ends :
      (bs : List ℕ) × (repoint nvm (pair n b) (step n b) (2 ^ d₂.global_depth) d₂.next d₄ s'
        ≡ ok (record d₄ { buckets = bs }, s'))
      × Repoints d₂.next
          (λ j. (j % step n b == pair n b % step n b) && not (j == pair n b))
          d₄.buckets
          bs
  unfolding set_bucket
  ends =
      repoint-Repoints nvm d₄ s' d₄-sized (pair n b) (step n b) d₂.next pair_inside
        (pow-pos (b.depth + 1))

  bound : d₂.global_depth < 31
  bound = ground (arith, grown.depth_grown, narrow)

  split_directory-runs : split_directory nvm n d s ≡ ok ((es, record d₄ { buckets = ends.0 }), s')
  unfolding split_directory
  split_directory-runs =
      let first = bucket_at_lem nvm n d b s (omega (arith, inside, valid.sized)) here.held in
      let turned =
        pair_index_lem nvm n (b.depth + 1) s (omega arith) (omega (arith, depths.1, bound)) in
      let diff = shift_lem nvm (b.depth + 1) s' (omega (arith, depths.1, bound)) in
      let size = shift_lem nvm d₂.global_depth s' bound in
      rw
        (split_directory, ◌>>=◌, first, grows, turned, pairs.0, d₃-bucket, kept, diff, size, ends.1)

  divided : Divided n b d (record d₄ { buckets = ends.0 })
  unfolding set_bucket write_at
  divided = record {
    deep = grown.depth_grown;
    sized_after = omega (arith, ends.2.sized, d₄-sized);
    pointers = λ j low. ground (
      arith,
      ends.2.pointers j (omega (arith, low, d₄-sized)),
      pairs.1.pointers j (omega (arith, low, grown.sized_grown)),
      grown.pointers_grown j low,
      grown.next_grown,
    );
    store_after = λ q. ground (
      arith,
      d₃-store q,
      grown.next_grown,
      ap (λ m. some (new_ex_bucket (b.depth + 1) m)) grown.same_size,
    );
    next_after = omega (arith, grown.next_grown);
  }

  -- On a consistent directory below depth 30, the division of a bucket never faults, if its page, where
  -- it has one, is read. It hands out the entries of the bucket, and the directory is consistent
  -- again: the bucket and a new one, both one bit deeper and both empty, share the places of the
  -- bucket, and all other places lead where they led; the directory doubles when the bucket was as
  -- deep as it.
  pub split_directory_lem :
      (d' : Directory) × (split_directory nvm n d s ≡ ok ((es, d'), s'))
      × IsValid d'
      × Divided n b d d'
  split_directory_lem = (
    record d₄ { buckets = ends.0 },
    split_directory-runs,
    Divided-IsValid n b d (record d₄ { buckets = ends.0 }) valid inside here divided,
    divided,
  )
