-- ===== src/ExHash/Directory/Fill.antt =====
-- src/MultiHash/ExtendibleHash/ExHash.cpp `split`: the loop that inserts the old entries again, where
-- their buckets have room for all of them.
use rexio.Base.{
  ℕ, suc, ◌+◌, ◌<◌, ◌≡◌, refl, sym, ap, ◌∙◌, ◌==◌, if◌then◌else◌, some, List, [], ◌∷◌, ◌++◌, arith,
}
use native.Mathlib.Decide.{ℕ_discrete}
use rexio.Outcome.{ok}
use rexio.Backend.Nvm.{Nvm}
use rexio.Backend.Entry.{Entry, find}
use rexio.Backend.State.{Ssd, ◌>>=◌, write_at}
use rexio.ExHash.Bucket.{ExBucket, ex_insert}
use rexio.ExHash.Directory.{Directory, set_bucket, insert_entries, dir_insert}
use rexio.ExHash.Directory.Places.{pointer, Place, IsValid}
use rexio.ExHash.Values.{Stores, ex_insert_room}
use rexio.ExHash.Directory.Insert.{place, set_bucket-IsValid, place-lt, dir_insert_open}

-- The address of the bucket of a key.
abbrev pub leads : Directory → ℕ → ℕ
leads d key = pointer d (place d key)

-- How many entries go to the bucket at `p`.
abbrev pub load : Directory → ℕ → List Entry → ℕ
load d p [] = 0
load d p (e ∷ es) = (if leads d e.key == p then 1 else 0) + load d p es

-- Each bucket that one of the entries goes to stays below its size if all of them come.
abbrev pub Room : Directory → List Entry → Type 0
Room d es =
    (p : ℕ) (c : ExBucket) → d.store p ≡ some c → 0 < load d p es → c.size + load d p es < c.maxsize

-- The bucket of each key of `es` has the first entry of `es` with the key in memory.
abbrev pub Holds : Directory → List Entry → Type 0
Holds d es =
    (q : ℕ) (e : Entry)
    → find q es ≡ some e
    → (c : ExBucket) × (d.store (leads d q) ≡ some c) × (find q c.values ≡ some e)

-- The entries of the first list put one by one in front of the second.
abbrev pub onto : List Entry → List Entry → List Entry
onto [] m = m
onto (e ∷ es) m = onto es (e ∷ m)

-- `d'` is `d` behind insertions of the entries, which `m` lists with the last one first.
pub record Filled (es rest m : List Entry) (d d' : Directory) : Type 0 where
  pub valid : IsValid d'
  pub same_depth : d'.global_depth ≡ d.global_depth
  pub same_buckets : d'.buckets ≡ d.buckets
  pub room : Room d' rest
  pub holds : Holds d' m
  pub away : (p : ℕ) → load d p es ≡ 0 → d'.store p ≡ d.store p

pub load-append :
    (d : Directory) (p : ℕ) (es l : List Entry) → load d p (es ++ l) ≡ load d p es + load d p l
load-append d p [] l = omega arith
load-append d p (e ∷ es) l = let rest = load-append d p es l in omega (arith, rest)

module _ (d d' : Directory) (deep : d'.global_depth ≡ d.global_depth)
    (same : d'.buckets ≡ d.buckets) where
  pub leads-same : (key : ℕ) → leads d' key ≡ leads d key
  leads-same key = rw (deep, same) refl

  pub load-same : (p : ℕ) (es : List Entry) → load d' p es ≡ load d p es
  load-same p [] = refl
  load-same p (e ∷ es) = rw (leads-same e.key, load-same p es) refl

module _ (d d' : Directory) (deep : d'.global_depth ≡ d.global_depth)
    (same : d'.buckets ≡ d.buckets) (e : Entry) (rest m : List Entry) (b b' : ExBucket)
    (there : d.store (leads d e.key) ≡ some b) (k : Stores e.key e.val b b')
    (written : (p : ℕ) → d'.store p ≡ (if p == leads d e.key then some b' else d.store p)) where
  stored_is :
      {p : ℕ} {c : ExBucket}
      → some c ≡ (if p == leads d e.key then some b' else d.store p)
      → p ≡ leads d e.key
      → c ≡ b'
  stored_is h own = ground (arith, h, own)

  dir_insert-Room : Room d (e ∷ rest) → Room d' rest
  dir_insert-Room room p c h some_ =
      let l = load-same d d' deep same p rest in
      elim (ℕ_discrete p (leads d e.key)) [
        | yes own ↦
            let r = room (leads d e.key) b there in
            let put : c ≡ b' = stored_is (sym h ∙ written p) own in
            ground (
              arith,
              l,
              r,
              own,
              ap (λ x. x.size) put,
              ap (λ x. x.maxsize) put,
              k.grown_by,
              k.same_maxsize,
            )
        | no other ↦ let r = room p c in ground (arith, l, r, written p, h, other, some_)
      ]

  dir_insert-Holds : Holds d m → Holds d' (e ∷ m)
  unfolding find
  dir_insert-Holds holds q x h =
      rw (leads-same d d' deep same q, written (leads d q))
        (elim (ℕ_discrete q e.key) [
          | yes own ↦
              let first : some e ≡ some x = ground (arith, h, own) in
              (
                b',
                let lead = ap (leads d) own in ground (arith, lead),
                ap (λ i. find i b'.values) own ∙ k.stored ∙ first,
              )
          | no other ↦
              let (c, held, found) = holds q x (ground (arith, h, other)) in
              elim (ℕ_discrete (leads d q) (leads d e.key)) [
                | yes mine ↦
                    let same_c : some c ≡ some b = sym held ∙ ap d.store mine ∙ there in
                    (b', ground (arith, mine), k.others q other ∙ grind (arith, found, same_c))
                | no away ↦ (c, ground (arith, held, away), found)
              ]
        ])

module _ (nvm : Nvm) (d : Directory) (valid : IsValid d) (narrow : d.global_depth < 31) (fuel : ℕ)
    (e : Entry) (rest m : List Entry) (room : Room d (e ∷ rest)) (holds : Holds d m)
    (s : Ssd nvm) where
  there : (b : ExBucket) × Place d (place d e.key) b
  there = valid.placed (place d e.key) (place-lt nvm d valid narrow e.key)

  abbrev b : ExBucket
  b = there.0

  has_room : b.size + 1 < b.maxsize
  has_room = let r = room (leads d e.key) b there.1.held in ground (arith, r)

  put : (b' : ExBucket) × (ex_insert nvm e.key e.val b s ≡ ok (b', s)) × Stores e.key e.val b b'
  put = ex_insert_room nvm e.key e.val b s has_room

  abbrev after : Directory
  after = set_bucket (leads d e.key) put.0 d

  after_store : (p : ℕ) → after.store p ≡ (if p == leads d e.key then some put.0 else d.store p)
  unfolding set_bucket write_at
  after_store p = refl

  set_bucket-Filled : Filled (e ∷ []) rest (e ∷ m) d after
  unfolding set_bucket
  set_bucket-Filled = record {
    valid =
        set_bucket-IsValid (place d e.key) b put.0 d valid (place-lt nvm d valid narrow e.key)
          there.1 put.2.depth_kept;
    same_depth = refl;
    same_buckets = refl;
    room = dir_insert-Room d after refl refl e rest m b put.0 there.1.held put.2 after_store room;
    holds =
        dir_insert-Holds d after refl refl e rest m b put.0 there.1.held put.2 after_store holds;
    away = λ p h. rw (after_store p) (ground (arith, h));
  }

  pub insert_one :
      (d' : Directory) × (dir_insert nvm (suc fuel) e.key e.val d s ≡ ok (d', s))
      × Filled (e ∷ []) rest (e ∷ m) d d'
  insert_one = (
    after,
    dir_insert_open nvm d valid narrow fuel e.key e.val b put.0 s s there.1
        (omega (arith, has_room)) put.1,
    set_bucket-Filled,
  )

Filled-trans :
    (e : Entry) (es rest m : List Entry) (d d₁ d₂ : Directory)
    → Filled (e ∷ []) (es ++ rest) (e ∷ m) d d₁
    → Filled es rest (onto es (e ∷ m)) d₁ d₂
    → Filled (e ∷ es) rest (onto es (e ∷ m)) d d₂
Filled-trans e es rest m d d₁ d₂ f g = record {
  valid = g.valid;
  same_depth = g.same_depth ∙ f.same_depth;
  same_buckets = g.same_buckets ∙ f.same_buckets;
  room = g.room;
  holds = g.holds;
  away = λ p h.
      let l = load-same d d₁ f.same_depth f.same_buckets p es in
      g.away p (omega (arith, l, h)) ∙ f.away p (omega (arith, h));
}

module _ (nvm : Nvm) (fuel : ℕ) (rest : List Entry) (s : Ssd nvm) where
  -- Where the buckets have room, the loop inserts every entry without the device.
  pub insert_entries-Filled :
      (es m : List Entry) (d : Directory)
      → IsValid d
      → d.global_depth < 31
      → Room d (es ++ rest)
      → Holds d m
      → (d' : Directory) × (insert_entries nvm (dir_insert nvm (suc fuel)) es d s ≡ ok (d', s))
        × Filled es rest (onto es m) d d'
  unfolding insert_entries
  insert_entries-Filled [] m d valid narrow room holds = (
    d,
    refl,
    record {
      valid = valid;
      same_depth = refl;
      same_buckets = refl;
      room = room;
      holds = holds;
      away = λ _ _. refl;
    },
  )
  insert_entries-Filled (e ∷ es) m d valid narrow room holds =
      let (d₁, run, f) = insert_one nvm d valid narrow fuel e (es ++ rest) m room holds s in
      let (d₂, runs, g) =
        insert_entries-Filled es (e ∷ m) d₁ f.valid (omega (arith, f.same_depth, narrow)) f.room
          f.holds in
      (d₂, rw (◌>>=◌, run) runs, Filled-trans e es rest m d d₁ d₂ f g)
