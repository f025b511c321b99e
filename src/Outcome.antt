-- ===== src/Outcome.antt =====
-- How a call ends: with a value, by `assert`, by `exit(code)` (also inside `EMessageOutput`), or in
-- behaviour that C++ leaves undefined, such as an index out of range or a dereferenced null. A loop
-- on fuel that runs out of it, which a theorem excludes, is `unfinished`.
use mathlib.Core.Bool.{Bool, true, false}
use mathlib.Core.Option.{Option, none, some}
use Prim.Native.Nat.{ℕ}

pub data Failure : Type 0 where
  undefined : Failure
  assertion : Failure
  exit : ℕ → Failure
  unfinished : Failure

pub data Outcome {ℓ} (A : Type ℓ) : Type ℓ where
  ok : A → Outcome A
  fail : Failure → Outcome A

infixl 5 ◌>>=◌ ◌>>◌
abbrev pub ◌>>=◌ {ℓ κ} : {A : Type ℓ} {B : Type κ} → Outcome A → (A → Outcome B) → Outcome B
ok a >>= f = f a
fail e >>= f = fail e

abbrev pub ◌>>◌ {ℓ} : {B : Type ℓ} → Outcome (Unit {0}) → Outcome B → Outcome B
m >> k = m >>= λ _. k

-- `assert(b)`
abbrev pub assert : Bool → Outcome (Unit {0})
assert true = ok tt
assert false = fail assertion

-- Reads a value that undefined behaviour stands behind when it is missing.
abbrev pub deref {ℓ} : {A : Type ℓ} → Option A → Outcome A
deref none = fail undefined
deref (some a) = ok a
