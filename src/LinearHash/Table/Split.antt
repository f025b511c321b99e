-- ===== src/LinearHash/Table/Split.antt =====
-- src/MultiHash/LinearHash/LiHash.cpp `split`: what becomes of the buckets, the flags, and the two numbers.
use rexio.Base.{
  ℕ, zero, suc, ◌+◌, ◌*◌, ◌^◌, ◌≤◌, ◌<◌, ◌≡◌, ◌≢◌, ◌⊎◌, ==_refl, ==_ne, inl, inr, refl, sym, ap,
  ◌∙◌, ltb, ◌==◌, if◌then◌else◌, Bool, true, false, ◌&&◌, some, List, [], length, get_elem?, get_or,
  set, length-set, get_or-set_self, get_or-set_ne, get_elem?-lt, Bool-cases, arith,
}
use mathlib.Core.Path.{subst}
use native.Mathlib.Decide.{ℕ_discrete}
use rexio.Outcome.{ok}
use rexio.Backend.Nvm.{Nvm}
use rexio.Backend.Entry.{Entry, uint64_max}
use rexio.Backend.State.{Ssd, Io, ◌>>=◌, ◌>>◌, return, write_at, calculate_page_capacity}
use rexio.Backend.Reader.{page_read}
use rexio.LinearHash.Bucket.{LBucket, new_bucket, get_bucket_read, bucket_erase}
use rexio.LinearHash.Table.{LinearHashTable, put_bucket, flag_at, move_entries, all_split, split}
use rexio.LinearHash.Table.Places.{IsValid}
use rexio.LinearHash.Table.Share.{share, taken}
use rexio.LinearHash.Table.Move.{content, Shares, move_entries-Shares}

-- All of the flags from `i` on, `n` of them.
abbrev pub every : ℕ → ℕ → (ℕ → Bool) → Bool
every zero i f = true
every (suc n) i f = f i && every n (i + 1) f

-- A full bucket without its entries, with its page.
abbrev pub emptied : LBucket → LBucket
emptied b = record b { bucket = []; size = 0 }

-- Whether the buckets below `h1` are all split when `i` is, which ends the round.
abbrev pub last : ℕ → LinearHashTable → Bool
last i t = every t.h1 0 (write_at t.split_flag i true)

module _ (nvm : Nvm) where
  -- `t'` is `t` behind the split of bucket `i`, which was `b`, with the entries `es` in its page.
  pub record HasSplit (i : ℕ) (b : LBucket) (es : List Entry) (t t' : LinearHashTable)
      : Type 0 where
    pub contents :
        (j : ℕ)
        → content nvm t' j ≡ taken (share t.h2 j es) (if j == i then emptied b else content nvm t j)
    pub reached : (j : ℕ) → 0 < length (share t.h2 j es) → j < length t'.bucket_table
    pub grown :
        (length t'.bucket_table ≡ length t.bucket_table)
        ⊎ (length t.bucket_table + t.h1 ≤ length t'.bucket_table)
    pub h1_after : t'.h1 ≡ (if last i t then 2 * t.h1 else t.h1)
    pub h2_after : t'.h2 ≡ (if last i t then 2 * t.h2 else t.h2)
    pub flags_after :
        (j : ℕ)
        → t'.split_flag j ≡ (if last i t then false else (if j == i then true else t.split_flag j))

  -- No bucket is filled by the entries that it gets; the one that is split starts empty.
  abbrev pub HasRoom : ℕ → List Entry → LinearHashTable → Type 0
  HasRoom i es t =
      (j : ℕ)
      → 0 < length (share t.h2 j es)
      → (if j == i then 0 else (content nvm t j).size) + length (share t.h2 j es)
        < calculate_page_capacity nvm 16

  all_split-every :
      (n i : ℕ) (t : LinearHashTable) (s : Ssd nvm)
      → i + n ≤ 65535
      → all_split nvm n i t s ≡ ok (every n i t.split_flag, s)
  unfolding all_split flag_at
  all_split-every zero i t s h = refl
  all_split-every (suc n) i t s h =
      let low : ltb i 65535 ≡ true = ground arith in
      elim (Bool-cases (t.split_flag i)) [
        | inl set ↦ rw (all_split, ◌>>=◌, low, set) (all_split-every n (i + 1) t s (omega arith))
        | inr open_ ↦ rw (all_split, ◌>>=◌, low, open_)
      ]

  module _ (i : ℕ) (b : LBucket) (es : List Entry) (t : LinearHashTable) (s s' : Ssd nvm)
      (valid : IsValid t) (there : get_elem? t.bucket_table i ≡ some b) (below : i < t.h1)
      (stored : b.bucket ≡ []) (paged : b.page_num ≢ uint64_max)
      (full : b.size ≡ calculate_page_capacity nvm 16)
      (read : page_read nvm b.page_num s ≡ ok (es, s')) where
    get_bucket_read_page : get_bucket_read nvm b s ≡ ok (es, s')
    unfolding get_bucket_read
    get_bucket_read_page =
        let sized : (b.size == calculate_page_capacity nvm 16) ≡ true = ground arith in
        let page : (b.page_num == uint64_max) ≡ false = ground arith in
        rw (get_bucket_read, ◌>>=◌, ◌>>◌, sized, stored, page) read

    bucket_erase_page : bucket_erase nvm b s' ≡ ok ((emptied b), s')
    unfolding bucket_erase
    bucket_erase_page =
        rw (bucket_erase, stored) (λ k. ok (record b { bucket = stored k; size = 0 }, s'))

    -- The table when the loop over the old entries begins.
    abbrev marked : LinearHashTable
    marked = record (put_bucket i (emptied b) t) { split_flag = write_at t.split_flag i true }

    marked-length : length marked.bucket_table ≡ length t.bucket_table
    unfolding put_bucket
    marked-length = length-set t.bucket_table i (emptied b)

    marked-content :
        (j : ℕ) → content nvm marked j ≡ (if j == i then (emptied b) else content nvm t j)
    unfolding put_bucket
    marked-content j =
        let inside : i < length t.bucket_table = get_elem?-lt t.bucket_table i there in
        elim (ℕ_discrete i j) [
          | yes same ↦
              subst (λ j. content nvm marked j ≡ (if j == i then (emptied b) else content nvm t j))
                same (rw (==_refl i) (get_or-set_self t.bucket_table i (emptied b) _ inside))
          | no differs ↦
              rw (==_ne j i (λ e. differs (sym e)))
                (get_or-set_ne t.bucket_table i j (emptied b) _ differs)
        ]

    if_size :
        (c : Bool) (d : LBucket) → (if c then (emptied b) else d).size ≡ (if c then 0 else d.size)
    if_size true d = refl
    if_size false d = refl

    marked-size :
        (j : ℕ) → (content nvm marked j).size ≡ (if j == i then 0 else (content nvm t j).size)
    marked-size j = ap (λ b. b.size) (marked-content j) ∙ if_size (j == i) (content nvm t j)

    -- What `split` makes of the table behind the loop.
    abbrev ended : LinearHashTable → LinearHashTable
    ended t₁ =
        if last i t
        then record t₁ { h1 = 2 * t₁.h1; h2 = 2 * t₁.h2; split_flag = λ _. false }
        else t₁

    module _ (word : calculate_page_capacity nvm 16 < 2 ^ 64) (room : HasRoom i es t) where
      moves :
          (t₁ : LinearHashTable) × (move_entries nvm es marked s' ≡ ok (t₁, s'))
          × Shares nvm es marked t₁
      unfolding put_bucket
      moves =
          move_entries-Shares nvm word es marked s' valid.pos valid.twice
            (omega (arith, valid.based, marked-length))
            (λ j h. omega (arith, marked-size j, room j h))

      ended-table : (t₁ : LinearHashTable) → (ended t₁).bucket_table ≡ t₁.bucket_table
      ended-table t₁ = elim (Bool-cases (last i t)) [ inl h ↦ rw h | inr h ↦ rw h ]

      end_of :
          (t₁ : LinearHashTable)
          → elim (last i t) as (λ _. Io nvm LinearHashTable) [
            | true ↦ return (record t₁ { h1 = 2 * t₁.h1; h2 = 2 * t₁.h2; split_flag = λ _. false })
            | false ↦ return t₁
          ]
              s'
            ≡ ok (ended t₁, s')
      end_of t₁ = elim (Bool-cases (last i t)) [ inl h ↦ rw h | inr h ↦ rw h ]

      split_moves :
          (t₁ : LinearHashTable)
          → move_entries nvm es marked s' ≡ ok (t₁, s')
          → Shares nvm es marked t₁
          → split nvm i t s ≡ ok (ended t₁, s')
      unfolding split flag_at put_bucket
      split_moves t₁ run k =
          let low : ltb i 65535 ≡ true = ground (arith, valid.flags) in
          let flags : all_split nvm t₁.h1 0 t₁ s' ≡ ok (every t.h1 0 marked.split_flag, s') =
            all_split-every t₁.h1 0 t₁ s' (omega (arith, k.h1_kept, valid.flags))
            ∙ ap (λ n. ok (every n 0 t₁.split_flag, s')) k.h1_kept
            ∙ ap (λ f. ok (every t.h1 0 f, s')) k.flags_kept in
          rw (split, ◌>>=◌, there, get_bucket_read_page, bucket_erase_page, low, run, flags)
            (end_of t₁)

      -- The split of a full bucket reads its page. It leaves every bucket with what it held and the
      -- entries of the page that `h2` places there, the split bucket with those alone; it makes
      -- buckets for them where they are missing, and sets the flag of the split bucket, unless that
      -- is the last one: then the two numbers double and no flag is set.
      pub split_lem :
          (t' : LinearHashTable) × (split nvm i t s ≡ ok (t', s')) × HasSplit i b es t t'
      unfolding put_bucket write_at
      split_lem =
          let (t₁, run, k) = moves in
          (
            ended t₁,
            split_moves t₁ run k,
            record {
              contents = λ j.
                  ap (λ l. get_or l j (new_bucket (calculate_page_capacity nvm 16)))
                    (ended-table t₁)
                  ∙ k.contents j
                  ∙ ap (taken (share t.h2 j es)) (marked-content j);
              reached = λ j h. omega (arith, k.reached j h, ap length (ended-table t₁));
              grown = ground (arith, k.grown, marked-length, ap length (ended-table t₁));
              h1_after = elim (Bool-cases (last i t)) [
                | inl h ↦ rw h (ap (λ n. 2 * n) k.h1_kept)
                | inr h ↦ rw h k.h1_kept
              ];
              h2_after = elim (Bool-cases (last i t)) [
                | inl h ↦ rw h (ap (λ n. 2 * n) k.h2_kept)
                | inr h ↦ rw h k.h2_kept
              ];
              flags_after = λ j. elim (Bool-cases (last i t)) [
                | inl h ↦ rw h
                | inr h ↦ rw h (ap (λ f. f j) k.flags_kept)
              ];
            },
          )
