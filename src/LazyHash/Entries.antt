-- ===== src/LazyHash/Entries.antt =====
-- src/MultiHash/LazySplitHash/LSHash.cpp: the number of entries in the buckets, and how the last step
-- of an insertion changes it.
use rexio.Base.{
  ℕ, zero, suc, ◌+◌, ◌<◌, ◌≡◌, refl, ap, Option, none, some, List, [], ◌∷◌, ◌++◌, length,
  length-append, length-set, get_elem?, get_elem?_in, set, arith,
}
use rexio.Outcome.{ok}
use rexio.LazyHash.{
  LsBucket, LsHash, new_ls_bucket, ls_bucket_insert, stored, place, get_bits, change_bucket,
  put_entry,
}
use rexio.LazyHash.Place.{place-lt}

pub stored-set :
    (bs : List LsBucket) (i : ℕ) (b b' : LsBucket)
    → get_elem? bs i ≡ some b
    → stored (set bs i b') + length b.bucket_entries ≡ stored bs + length b'.bucket_entries
unfolding stored
stored-set [] i b b' h = absurd (cc h)
stored-set (c ∷ bs) zero b b' h =
    let same : length c.bucket_entries ≡ length b.bucket_entries =
      ap (λ (o : Option LsBucket). elim o [ none ↦ 0 | some x ↦ length x.bucket_entries ]) h in
    omega (arith, same)
stored-set (c ∷ bs) (suc i) b b' h = omega (arith, stored-set bs i b b' h)

pub stored-append : (bs : List LsBucket) (m : ℕ) → stored (bs ++ new_ls_bucket m ∷ []) ≡ stored bs
unfolding stored
stored-append [] m = refl
stored-append (b ∷ bs) m = omega (arith, stored-append bs m)

-- A table with buckets that have room, and the threshold of 0.9.
pub record IsUsable (t : LsHash) : Type 0 where
  pub buckets : 0 < length t.bucket_list
  pub room : 0 < t.bmaxsize
  pub threshold : t.if_threshold ≡ 9

-- One more entry, with the same number of buckets.
pub record Grown (t t' : LsHash) : Type 0 where
  pub one_more : stored t'.bucket_list ≡ suc (stored t.bucket_list)
  pub as_many : length t'.bucket_list ≡ length t.bucket_list
  pub as_large : t'.bmaxsize ≡ t.bmaxsize
  pub same_threshold : t'.if_threshold ≡ t.if_threshold
  pub same_count : t'.allsize ≡ t.allsize

pub change_bucket_lem :
    (n : ℕ) (f : LsBucket → LsBucket) (t : LsHash) (b : LsBucket)
    → get_elem? t.bucket_list n ≡ some b
    → change_bucket n f t ≡ ok (record t { bucket_list = set t.bucket_list n (f b) })
unfolding change_bucket
change_bucket_lem n f t b h = rw h

pub put_entry-Grown :
    (key value : ℕ) (t : LsHash)
    → 0 < length t.bucket_list
    → (t' : LsHash) × (put_entry key value (get_bits (length t.bucket_list)) t ≡ ok t') × Grown t t'
unfolding put_entry ls_bucket_insert
put_entry-Grown key value t pos =
    let n = place key (get_bits (length t.bucket_list)) (length t.bucket_list) in
    let (b, here) = get_elem?_in t.bucket_list n (place-lt key (length t.bucket_list) pos) in
    let b' = ls_bucket_insert key value b in
    (
      record t { bucket_list = set t.bucket_list n b' },
      change_bucket_lem n (ls_bucket_insert key value) t b here,
      record {
        one_more = omega (
          arith,
          stored-set t.bucket_list n b b' here,
          length-append b.bucket_entries (record { key1 = key; val = value; flag = 0 } ∷ []),
        );
        as_many = length-set t.bucket_list n b';
        as_large = refl;
        same_threshold = refl;
        same_count = refl;
      },
    )
