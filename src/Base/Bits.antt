-- ===== src/Base/Bits.antt =====
-- Masks, shifts and toggles as arithmetic, at every width.
pub mod Digits
use Prim.Native.Nat.{
  ℕ, zero, suc, ◌+◌, ◌-◌, ◌*◌, ◌/◌, ◌%◌, ◌^◌, ◌≤◌, ◌<◌, bit_and, bit_or, bit_xor, differ,
  bit_or-bitwise,
}
use mathlib.Core.Path.{◌≡◌, refl, ap, ap₂, ◌∙◌}
use native.Mathlib.Nat.{one-le-pow, two-pow-succ, div-add-mod, mod-lt}
use native.Mathlib.Omega.{arith}
use Digits.{bit_and-Digitwise, bit_or-Digitwise, bit_xor-Digitwise, split, zeros}
open bit_and-Digitwise use {step as and_step}
open bit_or-Digitwise use {step as or_step}
open bit_xor-Digitwise use {step as xor_step}

differ-zero : (d : ℕ) → differ d 0 ≡ d
differ-zero zero = refl
differ-zero (suc d) = refl

differ-one : (d : ℕ) → d < 2 → differ d 1 ≡ 1 - d
differ-one zero h = refl
differ-one (suc zero) h = refl
differ-one (suc (suc d)) h = absurd (omega arith)

-- A zero on the right. Each step halves the number, and the count bounds it.
zero_right : (count a : ℕ) → a ≤ count → (bit_and a 0 ≡ 0) × (bit_or a 0 ≡ a) × (bit_xor a 0 ≡ a)
zero_right count zero h = (refl, refl, refl)
zero_right zero (suc a) h = absurd (omega arith)
zero_right (suc count) (suc a) h =
    let rest = zero_right count (suc a / 2) (omega arith) in
    (
      omega (arith, rest, and_step (suc a) 0),
      omega (arith, rest, or_step (suc a) 0),
      omega (arith, rest, xor_step (suc a) 0, differ-zero (suc a % 2)),
    )

pub bit_and-zero : (a : ℕ) → bit_and a 0 ≡ 0
bit_and-zero a = (zero_right a a (omega arith)).0

pub bit_or-zero : (a : ℕ) → bit_or a 0 ≡ a
bit_or-zero a = (zero_right a a (omega arith)).1

-- Toggling the last digit.
bit_xor-one : (a : ℕ) → bit_xor a 1 ≡ a / 2 * 2 + (1 - a % 2)
bit_xor-one a = omega (
  arith,
  xor_step a 1,
  (zero_right (a / 2) (a / 2) (omega arith)).2,
  differ-one (a % 2) (omega arith),
)

-- `k` ones keep every number below `2 ^ k`.
ones : (k r : ℕ) → r < 2 ^ k → bit_and r (2 ^ k - 1) ≡ r
ones zero r h =
    let e : r ≡ 0 = omega arith in omega (arith, ap (λ (t : ℕ). bit_and t 0) e, bit_and-zero 0)
ones (suc k) r h =
    let half : (2 ^ suc k - 1) / 2 ≡ 2 ^ k - 1 = omega (arith, two-pow-succ k) in
    let odd : (2 ^ suc k - 1) % 2 ≡ 1 =
      omega (arith, two-pow-succ k, one-le-pow k 2 (omega arith)) in
    omega (
      arith,
      and_step r (2 ^ suc k - 1),
      ap (bit_and (r / 2)) half,
      odd,
      ones k (r / 2) (omega (arith, two-pow-succ k)),
    )

pub parts : (k a : ℕ) → a ≡ a / 2 ^ k * 2 ^ k + a % 2 ^ k
parts k a = omega arith

remainder : (k a : ℕ) → a % 2 ^ k < 2 ^ k
remainder k a = mod-lt a (one-le-pow k 2 (omega arith))

-- `a & (2 ^ k - 1)` is a remainder.
pub bit_and-mask : (k a : ℕ) → bit_and a (2 ^ k - 1) ≡ a % 2 ^ k
bit_and-mask k a =
    let low : 2 ^ k - 1 ≡ 0 * 2 ^ k + (2 ^ k - 1) = omega arith in
    ap₂ bit_and (parts k a) low
    ∙ split bit_and-Digitwise k (a / 2 ^ k) (a % 2 ^ k) 0 (2 ^ k - 1) (remainder k a)
        (omega (arith, one-le-pow k 2 (omega arith)))
    ∙ omega (
      arith,
      bit_and-zero (a / 2 ^ k),
      ap (λ (t : ℕ). t * 2 ^ k) (bit_and-zero (a / 2 ^ k)),
      ones k (a % 2 ^ k) (remainder k a),
    )

-- `a & ~(2 ^ k - 1)` clears the last `k` digits of a number of `d + k` digits.
pub bit_and-high :
    (d k a : ℕ) → a / 2 ^ k < 2 ^ d → bit_and a ((2 ^ d - 1) * 2 ^ k) ≡ a / 2 ^ k * 2 ^ k
bit_and-high d k a h =
    let high : (2 ^ d - 1) * 2 ^ k ≡ (2 ^ d - 1) * 2 ^ k + 0 = omega arith in
    ap₂ bit_and (parts k a) high
    ∙ split bit_and-Digitwise k (a / 2 ^ k) (a % 2 ^ k) (2 ^ d - 1) 0 (remainder k a)
        (one-le-pow k 2 (omega arith))
    ∙ omega (arith, bit_and-zero (a % 2 ^ k), ap (λ (t : ℕ). t * 2 ^ k) (ones d (a / 2 ^ k) h))

-- `a & ((2 ^ d - 1) << k)` keeps the `d` digits from `k` on.
pub bit_and-field : (d k a : ℕ) → bit_and a ((2 ^ d - 1) * 2 ^ k) ≡ a / 2 ^ k % 2 ^ d * 2 ^ k
bit_and-field d k a =
    let high : (2 ^ d - 1) * 2 ^ k ≡ (2 ^ d - 1) * 2 ^ k + 0 = omega arith in
    ap₂ bit_and (parts k a) high
    ∙ split bit_and-Digitwise k (a / 2 ^ k) (a % 2 ^ k) (2 ^ d - 1) 0 (remainder k a)
        (one-le-pow k 2 (omega arith))
    ∙ omega
        (arith, bit_and-zero (a % 2 ^ k), ap (λ (t : ℕ). t * 2 ^ k) (bit_and-mask d (a / 2 ^ k)))

-- `|` with a number of `k` digits changes the last `k` digits only.
pub bit_or-low :
    (k q r t : ℕ) → r < 2 ^ k → t < 2 ^ k → bit_or (q * 2 ^ k + r) t ≡ q * 2 ^ k + bit_or r t
bit_or-low k q r t h h' =
    let right : t ≡ 0 * 2 ^ k + t = omega arith in
    ap (bit_or (q * 2 ^ k + r)) right
    ∙ split bit_or-Digitwise k q r 0 t h h'
    ∙ ap (λ (n : ℕ). n * 2 ^ k + bit_or r t) (bit_or-zero q)

-- `r | (q << k)` in the other order.
pub bit_or-onto : (k q r : ℕ) → r < 2 ^ k → bit_or r (q * 2 ^ k) ≡ q * 2 ^ k + r
bit_or-onto k q r h =
    let left : r ≡ 0 * 2 ^ k + r = omega arith in
    let right : q * 2 ^ k ≡ q * 2 ^ k + 0 = omega arith in
    ap₂ bit_or left right
    ∙ split bit_or-Digitwise k 0 r q 0 h (one-le-pow k 2 (omega arith))
    ∙ omega (arith, ap (λ (t : ℕ). t * 2 ^ k) (bit_or-bitwise 0 q), bit_or-zero r)

-- `(q << k) | r` is a sum when `r` fits `k` bits.
pub bit_or-shifted : (k q r : ℕ) → r < 2 ^ k → bit_or (q * 2 ^ k) r ≡ q * 2 ^ k + r
bit_or-shifted k q r h =
    let left : q * 2 ^ k ≡ q * 2 ^ k + 0 = omega arith in
    let right : r ≡ 0 * 2 ^ k + r = omega arith in
    ap₂ bit_or left right
    ∙ split bit_or-Digitwise k q 0 0 r (one-le-pow k 2 (omega arith)) h
    ∙ omega (arith, ap (λ (t : ℕ). t * 2 ^ k) (bit_or-zero q), bit_or-bitwise 0 r)

-- `(q << k) ^ (1 << k)` toggles the last digit of `q`.
pub bit_xor-bit : (k q : ℕ) → bit_xor (q * 2 ^ k) (2 ^ k) ≡ (q / 2 * 2 + (1 - q % 2)) * 2 ^ k
bit_xor-bit k q =
    let left : q * 2 ^ k ≡ q * 2 ^ k + 0 = omega arith in
    let right : 2 ^ k ≡ 1 * 2 ^ k + 0 = omega arith in
    let pos : 0 < 2 ^ k = one-le-pow k 2 (omega arith) in
    ap₂ bit_xor left right
    ∙ split bit_xor-Digitwise k q 0 1 0 pos pos
    ∙ omega (arith, ap (λ (t : ℕ). t * 2 ^ k) (bit_xor-one q), zeros bit_xor-Digitwise)
