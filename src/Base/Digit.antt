-- ===== src/Base/Digit.antt =====
-- The digits of a number in base 2, and the bit operations on them.
use Prim.Native.Nat.{
  ℕ, zero, suc, ◌-◌, ◌/◌, ◌%◌, ◌^◌, ◌≤◌, ◌<◌, min, max, bit_and, bit_or, bit_and-bitwise,
}
use mathlib.Core.Path.{◌≡◌, refl, ap, ap₂, ◌∙◌}
use mathlib.Core.Logic.{◌≢◌}
use native.Mathlib.Nat.{two-pow-succ, one-le-pow, pow-le-pow_right}
use native.Mathlib.Omega.{arith}
use yoix.Base.Bits.Digits.{bit_and-Digitwise, bit_or-Digitwise}

-- The digit of `2 ^ j`.
abbrev pub digit : ℕ → ℕ → ℕ
digit zero a = a % 2
digit (suc j) a = digit j (a / 2)

pub digit-le : (j a : ℕ) → digit j a ≤ 1
digit-le zero a = omega arith
digit-le (suc j) a = digit-le j (a / 2)

pub digit-bit_or : (j a b : ℕ) → digit j (bit_or a b) ≡ max (digit j a) (digit j b)
digit-bit_or zero a b = omega (arith, bit_or-Digitwise.step a b)
digit-bit_or (suc j) a b = ap (digit j) half ∙ digit-bit_or j (a / 2) (b / 2)
  where
    half : bit_or a b / 2 ≡ bit_or (a / 2) (b / 2)
    half = omega (arith, bit_or-Digitwise.step a b)

pub digit-bit_and : (j a b : ℕ) → digit j (bit_and a b) ≡ min (digit j a) (digit j b)
digit-bit_and zero a b = omega (arith, bit_and-Digitwise.step a b)
digit-bit_and (suc j) a b = ap (digit j) half ∙ digit-bit_and j (a / 2) (b / 2)
  where
    half : bit_and a b / 2 ≡ bit_and (a / 2) (b / 2)
    half = omega (arith, bit_and-Digitwise.step a b)

digit-zero : (j : ℕ) → digit j 0 ≡ 0
digit-zero zero = refl
digit-zero (suc j) = digit-zero j

pub digit-pow : (k : ℕ) → digit k (2 ^ k) ≡ 1
digit-pow zero = refl
digit-pow (suc k) = ap (digit k) half ∙ digit-pow k
  where
    half : 2 ^ suc k / 2 ≡ 2 ^ k
    half = omega (arith, two-pow-succ k)

pub digit-pow_other : (j k : ℕ) → j ≢ k → digit j (2 ^ k) ≡ 0
digit-pow_other zero zero d = absurd (d refl)
digit-pow_other zero (suc k) d = omega (arith, two-pow-succ k)
digit-pow_other (suc j) zero d = digit-zero j
digit-pow_other (suc j) (suc k) d = ap (digit j) half ∙ digit-pow_other j k (omega (arith, d))
  where
    half : 2 ^ suc k / 2 ≡ 2 ^ k
    half = omega (arith, two-pow-succ k)

-- The complement at `n` digits.
pub digit-complement : (n j a : ℕ) → a < 2 ^ n → j < n → digit j (2 ^ n - 1 - a) ≡ 1 - digit j a
digit-complement zero j a h lt = absurd (omega arith)
digit-complement (suc n) zero a h lt = omega (arith, two-pow-succ n, one-le-pow n 2 (omega arith))
digit-complement (suc n) (suc j) a h lt =
    ap (digit j) half ∙ digit-complement n j (a / 2) (omega (arith, two-pow-succ n)) (omega arith)
  where
    half : (2 ^ suc n - 1 - a) / 2 ≡ 2 ^ n - 1 - a / 2
    half = omega (arith, two-pow-succ n)

pub below_pow : (n k : ℕ) → k < n → 2 ^ k < 2 ^ n
below_pow n k lt =
    let grows : 2 ^ suc k ≤ 2 ^ n = pow-le-pow_right {n = 2} (omega arith) lt in
    omega (arith, grows, two-pow-succ k, one-le-pow k 2 (omega arith))

-- `b & ~(1 << k)` at `n` digits clears one digit.
pub digit_cleared : (n k b : ℕ) → k < n → digit k (bit_and b (2 ^ n - 1 - 2 ^ k)) ≡ 0
digit_cleared n k b lt = omega (
  arith,
  digit-bit_and k b (2 ^ n - 1 - 2 ^ k),
  digit-complement n k (2 ^ k) (below_pow n k lt) lt,
  digit-pow k,
)

pub digit_cleared_other :
    (n j k b : ℕ) → j < n → k < n → (j ≢ k) → digit j (bit_and b (2 ^ n - 1 - 2 ^ k)) ≡ digit j b
digit_cleared_other n j k b lt' lt d = omega (
  arith,
  digit-bit_and j b (2 ^ n - 1 - 2 ^ k),
  digit-complement n j (2 ^ k) (below_pow n k lt) lt',
  digit-pow_other j k d,
  digit-le j b,
)

pub bit_or-lt : (n a b : ℕ) → a < 2 ^ n → b < 2 ^ n → bit_or a b < 2 ^ n
bit_or-lt zero a b h k = omega (arith, ap₂ bit_or e f)
  where
    e : a ≡ 0
    e = omega arith

    f : b ≡ 0
    f = omega arith
bit_or-lt (suc n) a b h k = omega (
  arith,
  two-pow-succ n,
  bit_or-Digitwise.step a b,
  bit_or-lt n (a / 2) (b / 2) (omega (arith, two-pow-succ n)) (omega (arith, two-pow-succ n)),
)

pub bit_and-lt : (n a b : ℕ) → a < 2 ^ n → bit_and a b < 2 ^ n
bit_and-lt zero a b h = omega (arith, ap (λ (t : ℕ). bit_and t b) e, bit_and-bitwise 0 b)
  where
    e : a ≡ 0
    e = omega arith
bit_and-lt (suc n) a b h = omega (
  arith,
  two-pow-succ n,
  bit_and-Digitwise.step a b,
  bit_and-lt n (a / 2) (b / 2) (omega (arith, two-pow-succ n)),
)
