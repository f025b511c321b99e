-- ===== src/LinearHash/Table/Share.antt =====
-- src/MultiHash/LinearHash/LiHash.cpp `split`: the entries that the loop puts into one bucket.
use rexio.Base.{
  ℕ, ◌+◌, ◌%◌, ◌≡◌, ◌≢◌, refl, sym, ap, ◌∙◌, ◌==◌, if◌then◌else◌, List, [], ◌∷◌, ◌++◌, length,
  length-append, append_assoc, append-[], arith,
}
use rexio.Backend.Entry.{Entry}
use rexio.LinearHash.Bucket.{LBucket}

-- The entries that belong to bucket `i` of `m`, in their order.
unfoldable pub share : ℕ → ℕ → List Entry → List Entry
share m i [] = []
share m i (e ∷ es) = if e.key % m == i then e ∷ share m i es else share m i es

-- A bucket that has taken these entries in memory.
abbrev pub taken : List Entry → LBucket → LBucket
taken es b = record b { bucket = b.bucket ++ es; size = b.size + length es }

pub share_hit :
    (m i : ℕ) (e : Entry) (es : List Entry) → e.key % m ≡ i → share m i (e ∷ es) ≡ e ∷ share m i es
unfolding share
share_hit m i e es h = ground arith

pub share_miss :
    (m i : ℕ) (e : Entry) (es : List Entry) → e.key % m ≢ i → share m i (e ∷ es) ≡ share m i es
unfolding share
share_miss m i e es h = ground arith

pub taken_nothing : (b : LBucket) → taken [] b ≡ b
taken_nothing b =
    let zero_end : b.size + 0 ≡ b.size = omega arith in
    λ i. record b { bucket = append-[] b.bucket i; size = zero_end i }

pub taken-taken : (es fs : List Entry) (b : LBucket) → taken fs (taken es b) ≡ taken (es ++ fs) b
taken-taken es fs b =
    let more : b.size + length es + length fs ≡ b.size + length (es ++ fs) =
      omega (arith, length-append es fs) in
    λ i. record b { bucket = sym (append_assoc b.bucket es fs) i; size = more i }

pub share-cons :
    (m i : ℕ) (e : Entry) (es : List Entry)
    → share m i (e ∷ es) ≡ share m i (e ∷ []) ++ share m i es
unfolding share
share-cons m i e es = ground arith

pub length-share_cons :
    (m i : ℕ) (e : Entry) (es : List Entry)
    → length (share m i (e ∷ es)) ≡ length (share m i (e ∷ [])) + length (share m i es)
length-share_cons m i e es =
    ap length (share-cons m i e es) ∙ length-append (share m i (e ∷ [])) (share m i es)

pub share_nil : (m i : ℕ) → share m i [] ≡ []
unfolding share
share_nil m i = refl
