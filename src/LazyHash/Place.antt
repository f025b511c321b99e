-- ===== src/LazyHash/Place.antt =====
-- src/MultiHash/LazySplitHash/LSHash.cpp: the bits of a number, and the place of a key in the table.
use rexio.Base.{
  ℕ, zero, suc, ◌+◌, ◌-◌, ◌/◌, ◌^◌, ◌≤◌, ◌<◌, ◌≡◌, ltb, leb, leb→le, ltb→lt, ◌==◌, refl, ap,
  Bool-cases, inl, inr, false, arith,
}
use native.Mathlib.Nat.{pow-suc}
use rexio.Base.Powers.{pow-pos, pow_next, pow_split}
use rexio.LazyHash.{bit_hash, count_bits, get_bits, place}

-- A number of `suc b` bits.
abbrev pub HasBits : ℕ → ℕ → Type 0
HasBits b n = 2 ^ b ≤ n × n < 2 ^ (b + 1)

count_bits_zero : (fuel : ℕ) → count_bits fuel 0 ≡ 0
unfolding count_bits
count_bits_zero zero = refl
count_bits_zero (suc fuel) = refl

HasBits-half : (b n : ℕ) → HasBits b (n / 2) → HasBits (suc b) n
HasBits-half b n (low, high) =
    let one_more : b + 1 ≡ suc b = omega arith in
    let high' : n / 2 < 2 ^ suc b = omega (arith, ap (λ n. 2 ^ n) one_more, high) in
    (omega (arith, pow-suc 2 b, low), omega (arith, pow_next (suc b), high'))

count_bits-HasBits :
    (fuel n : ℕ) → 0 < n → n ≤ fuel → (b : ℕ) × (count_bits fuel n ≡ suc b) × HasBits b n
unfolding count_bits
count_bits-HasBits zero n pos le = absurd (omega arith)
count_bits-HasBits (suc fuel) n pos le =
    let nonzero : (n == 0) ≡ false = ground arith in
    elim (Bool-cases (ltb n 2)) [
      | inl small ↦
          let one : n ≡ 1 = ground arith in
          (0, rw one (ap suc (count_bits_zero fuel)), (omega (arith, one), omega (arith, one)))
      | inr large ↦
          let (b, bits, (low, high)) =
            count_bits-HasBits fuel (n / 2) (ground arith) (omega (arith, pos, le)) in
          (suc b, rw nonzero (ap suc bits), HasBits-half b n (low, high))
    ]

pub get_bits-HasBits : (n : ℕ) → 0 < n → (b : ℕ) × (get_bits n ≡ suc b) × HasBits b n
unfolding get_bits
get_bits-HasBits n pos = count_bits-HasBits n n pos (omega arith)

pub bit_hash-lt : (n b : ℕ) → bit_hash n b < 2 ^ b
unfolding bit_hash
bit_hash-lt n b = grind (arith, pow-pos b)

-- What has one more bit than `b`, without its top bit, is below `2 ^ b`.
pub top_dropped-lt : (n : ℕ) → 0 < n → bit_hash n (get_bits n - 1) < n
top_dropped-lt n pos =
    let (b, bits, (low, high)) = get_bits-HasBits n pos in
    let less : get_bits n - 1 ≡ b = omega (arith, bits) in
    rw less (omega (arith, bit_hash-lt n b, low))

pow_mono : (a g : ℕ) → a ≤ g → 2 ^ a ≤ 2 ^ g
pow_mono a g h = rw (pow_split a g h) (grind (arith, pow-pos (g - a)))

pow_below : (c b : ℕ) → 2 ^ c < 2 ^ (b + 1) → 2 ^ c ≤ 2 ^ b
pow_below c b h = elim (Bool-cases (leb c b)) [
  | inl le ↦ pow_mono c b (leb→le c b le)
  | inr gt ↦ absurd (omega (arith, pow_mono (b + 1) c (ground arith), h))
]

-- The place of every key is in the table.
pub place-lt : (key n : ℕ) → 0 < n → place key (get_bits n) n < n
unfolding place
place-lt key n pos =
    let (b, bits, (low, high)) = get_bits-HasBits n pos in
    let bits' : get_bits n ≡ b + 1 = omega (arith, bits) in
    let tmp = bit_hash key (get_bits n) in
    elim (Bool-cases (ltb tmp n)) [
      | inl inside ↦ rw inside (ltb→lt tmp n inside)
      | inr outside ↦
          let large : n ≤ tmp = ground (arith, outside) in
          let (c, more, (low', high')) = get_bits-HasBits tmp (omega (arith, large, pos)) in
          let less : get_bits tmp - 1 ≡ c = omega (arith, more) in
          let below : tmp < 2 ^ (b + 1) = rw bits' (bit_hash-lt key (b + 1)) in
          rw (outside, less)
            (omega (arith, bit_hash-lt tmp c, pow_below c b (omega (arith, low', below)), low))
    ]
