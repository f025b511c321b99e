-- ===== src/LinearHash/Table/Places.antt =====
-- src/MultiHash/LinearHash/LiHash.cpp: which bucket holds a key, in a table whose numbers fit each other.
use rexio.Base.{
  ℕ, zero, suc, ◌*◌, ◌%◌, ◌≤◌, ◌<◌, ◌≡◌, refl, if◌then◌else◌, true, some, length, get_elem?,
  get_elem?_in, Bool-cases, inl, inr, arith,
}
use rexio.Outcome.{ok}
use rexio.Backend.Nvm.{Nvm}
use rexio.Backend.State.{Ssd, ◌>>=◌, modulo}
use rexio.LinearHash.Bucket.{LBucket}
use rexio.LinearHash.Table.{LinearHashTable, flag_at, bucket_of}

-- A split bucket has its pair, whose number is below `h2`.
pub record IsValid (t : LinearHashTable) : Type 0 where
  pub pos : 0 < t.h1
  pub twice : t.h2 ≡ 2 * t.h1
  pub flags : t.h1 ≤ 65535
  pub based : t.h1 ≤ length t.bucket_table
  pub paired : (i : ℕ) → i < t.h1 → t.split_flag i ≡ true → t.h2 ≤ length t.bucket_table

-- The bucket of a key, where the numbers `h1` and `h2` are positive.
abbrev pub home : LinearHashTable → ℕ → ℕ
home t key = if t.split_flag (key % t.h1) then key % t.h2 else key % t.h1

pub modulo_pos :
    {nvm : Nvm} (n m : ℕ) (s : Ssd nvm) → 0 < m → modulo {nvm = nvm} n m s ≡ ok (n % m, s)
modulo_pos n zero s h = absurd (omega arith)
modulo_pos n (suc m) s h = refl

module _ (nvm : Nvm) (t : LinearHashTable) (valid : IsValid t) where
  pub flag_at_below : (i : ℕ) (s : Ssd nvm) → i < 65535 → flag_at nvm i t s ≡ ok (t.split_flag i, s)
  unfolding flag_at
  flag_at_below i s h = ground arith

  pub home-lt : (key : ℕ) → home t key < length t.bucket_table
  home-lt key = ground (arith, valid.pos, valid.twice, valid.based, valid.paired (key % t.h1))

  pub bucket_of_lem : (key : ℕ) (s : Ssd nvm) → bucket_of nvm key t s ≡ ok (home t key, s)
  unfolding bucket_of
  bucket_of_lem key s =
      let low : key % t.h1 < 65535 = omega (arith, valid.pos, valid.flags) in
      elim (Bool-cases (t.split_flag (key % t.h1))) [
        | inl h ↦
            rw
              (
                bucket_of,
                ◌>>=◌,
                modulo_pos key t.h1 s valid.pos,
                flag_at_below (key % t.h1) s low,
                h,
              )
              (modulo_pos key t.h2 s (omega (arith, valid.pos, valid.twice)))
        | inr h ↦
            rw (
              bucket_of,
              ◌>>=◌,
              modulo_pos key t.h1 s valid.pos,
              flag_at_below (key % t.h1) s low,
              h,
            )
      ]

  -- The bucket of a key is there.
  pub home_bucket : (key : ℕ) → (b : LBucket) × (get_elem? t.bucket_table (home t key) ≡ some b)
  home_bucket key = get_elem?_in t.bucket_table (home t key) (home-lt key)
