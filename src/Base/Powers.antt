-- ===== src/Base/Powers.antt =====
-- Remainders modulo a number and modulo its double.
use Prim.Native.Nat.{ℕ, zero, suc, ◌+◌, ◌-◌, ◌*◌, ◌/◌, ◌%◌, ◌^◌, ◌<◌, ◌≤◌}
use native.Mathlib.Nat.{pow-suc, mul-le-mul_left}
use rexio.Base.Tests.{◌==◌, if◌then◌else◌}
use mathlib.Core.Path.{◌≡◌, ap, sym, ◌∙◌}
use mathlib.Core.Logic.{◌≢◌, ◌⊎◌}
use native.Mathlib.Omega.{arith}

pub mod_unique : (n m k r : ℕ) → n ≡ m * k + r → r < m → n % m ≡ r
mod_unique n m k r e h = grind arith

pub div_mod : (n p : ℕ) → n ≡ p * (n / p) + n % p
div_mod n p = grind arith

pub mod_sub : (i p : ℕ) → 0 < p → p ≤ i → (i - p) % p ≡ i % p
mod_sub i p h k = grind arith

pub mod_add : (i p : ℕ) → 0 < p → (i + p) % p ≡ i % p
mod_add i p h = grind arith

-- Two numbers with one remainder are a whole step apart.
pub mod_gap : (i j p : ℕ) → 0 < p → j < i → j % p ≡ i % p → j + p ≤ i
mod_gap i j p h k e = grind arith

pub mod_double-even : (n p : ℕ) → 0 < p → n / p % 2 ≡ 0 → n % (2 * p) ≡ n % p
mod_double-even n p h e =
    let k = n / p / 2 in
    let half : n / p ≡ 2 * k = omega (arith, e) in
    let low : n % p < p = grind arith in
    mod_unique n (2 * p) k (n % p) (div_mod n p ∙ ap (λ q. p * q + n % p) half ∙ grind arith)
      (omega (arith, low))

pub mod_double-odd : (n p : ℕ) → 0 < p → n / p % 2 ≡ 1 → n % (2 * p) ≡ n % p + p
mod_double-odd n p h e =
    let k = n / p / 2 in
    let half : n / p ≡ 2 * k + 1 = omega (arith, e) in
    let low : n % p < p = grind arith in
    mod_unique n (2 * p) k (n % p + p) (div_mod n p ∙ ap (λ q. p * q + n % p) half ∙ grind arith)
      (omega (arith, low))

-- A remainder modulo the double is one of two.
pub mod_double : (n p : ℕ) → 0 < p → (n % (2 * p) ≡ n % p) ⊎ (n % (2 * p) ≡ n % p + p)
mod_double n p h = ground (arith, mod_double-even n p h, mod_double-odd n p h)

pub pow-pos : (a : ℕ) → 0 < 2 ^ a
pow-pos zero = omega arith
pow-pos (suc a) = omega (arith, pow-suc 2 a, pow-pos a)

-- A power of 2 is a multiple of each smaller one.
pub pow_split : (a g : ℕ) → a ≤ g → 2 ^ g ≡ 2 ^ a * 2 ^ (g - a)
pow_split zero g h = let same : g - 0 ≡ g = omega arith in rw same (omega arith)
pow_split (suc a) zero h = absurd (omega arith)
pow_split (suc a) (suc g) h =
    let same : suc g - suc a ≡ g - a = omega arith in
    rw (same, pow-suc 2 g, pow-suc 2 a, pow_split a g (omega arith)) (grind arith)

pub mod_mod_mul : (j p m : ℕ) → 0 < p → 0 < m → j % (p * m) % p ≡ j % p
mod_mod_mul j p m h k =
    let r = j % (p * m) in
    sym (
      mod_unique j p (m * (j / (p * m)) + r / p) (r % p)
        (div_mod j (p * m) ∙ ap (λ q. p * m * (j / (p * m)) + q) (div_mod r p) ∙ grind arith)
        (grind arith))

pub mod_mod_pow : (j a g : ℕ) → a ≤ g → j % 2 ^ g % 2 ^ a ≡ j % 2 ^ a
mod_mod_pow j a g h =
    ap (λ n. j % n % 2 ^ a) (pow_split a g h)
    ∙ mod_mod_mul j (2 ^ a) (2 ^ (g - a)) (pow-pos a) (pow-pos (g - a))

div-lt : (n p k : ℕ) → 0 < p → n < p * k → n / p < k
div-lt n p k h l = grind arith

-- The number with one bit turned round.
abbrev pub flipped : ℕ → ℕ → ℕ
flipped n p = if n / p % 2 == 0 then n + p else n - p

pub flipped-lt : (n p m : ℕ) → 0 < p → n < 2 * p * m → flipped n p < 2 * p * m
flipped-lt n p m h l =
    let below = div-lt n p (2 * m) h (grind arith) in
    let room : n / p % 2 ≡ 0 → n + p < 2 * p * m = λ even.
      let two_more : n / p + 2 ≤ 2 * m = omega (arith, below, even) in
      let wide : p * (n / p + 2) ≤ p * (2 * m) = mul-le-mul_left p two_more in
      grind (arith, div_mod n p, wide) in
    ground (arith, room)

flip_up : (n p : ℕ) → 0 < p → (n + p) / p ≡ n / p + 1
flip_up n p h = grind arith

flip_low : (n p : ℕ) → 0 < p → 0 < n / p → p ≤ n
flip_low n p h k = grind arith

flip_down : (n p : ℕ) → 0 < p → 0 < n / p → (n - p) / p + 1 ≡ n / p
flip_down n p h k = let low = flip_low n p h k in grind arith

flip_below : (n p : ℕ) → 0 < p → 0 < n / p → (n - p) % p ≡ n % p
flip_below n p h k = mod_sub n p h (flip_low n p h k)

pub flipped-mod : (n p : ℕ) → 0 < p → flipped n p % p ≡ n % p
flipped-mod n p h = ground (arith, mod_add n p h, flip_below n p h)

pub flipped-ne : (n p : ℕ) → 0 < p → flipped n p % (2 * p) ≢ n % (2 * p)
flipped-ne n p h = ground (
  arith,
  flip_up n p h,
  flip_down n p h,
  mod_double-even n p h,
  mod_double-odd n p h,
  mod_double-even (n - p) p h,
  mod_double-odd (n + p) p h,
  mod_add n p h,
  flip_below n p h,
)

pub pow_next : (a : ℕ) → 2 ^ (a + 1) ≡ 2 * 2 ^ a
pow_next a =
    let one_more : a + 1 ≡ suc a = omega arith in
    ap (λ n. 2 ^ n) one_more ∙ omega (arith, pow-suc 2 a)
