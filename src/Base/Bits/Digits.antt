-- ===== src/Base/Bits/Digits.antt =====
-- The native bit operations digit by digit: each is determined by what it does to the last digits.
use Prim.Native.Nat.{
  ℕ, zero, suc, ◌+◌, ◌*◌, ◌/◌, ◌%◌, ◌^◌, ◌≤◌, ◌<◌, min, max, differ, digits, bit_and, bit_or,
  bit_xor, bit_and-bitwise, bit_or-bitwise, bit_xor-bitwise,
}
use mathlib.Core.Path.{◌≡◌, refl, ap, ap₂, ◌∙◌}
use native.Mathlib.Nat.{two-pow-succ}
use native.Mathlib.Omega.{arith}

module _ (z : ℕ → ℕ) (f : ℕ → ℕ → ℕ) where
  -- Any two counts that cover the first number give the same digits.
  same_digits :
      (count other : ℕ) (a b : ℕ)
      → a ≤ count
      → a ≤ other
      → digits z f count a b ≡ digits z f other a b
  same_digits zero zero a b h k = refl
  same_digits (suc count) zero zero b h k = refl
  same_digits zero (suc other) zero b h k = refl
  same_digits (suc count) (suc other) zero b h k = refl
  same_digits zero (suc other) (suc a) b h k = absurd (omega arith)
  same_digits (suc count) zero (suc a) b h k = absurd (omega arith)
  same_digits (suc count) (suc other) (suc a) b h k =
      ap (λ (d : ℕ). d * 2 + f (suc a % 2) (b % 2))
        (same_digits count other (suc a / 2) (b / 2) (omega arith) (omega arith))

-- An operation that acts on each digit by `f`, with no digit from two zeros.
pub record Digitwise (op f : ℕ → ℕ → ℕ) : Type 0 where
  pub step : (a b : ℕ) → op a b ≡ op (a / 2) (b / 2) * 2 + f (a % 2) (b % 2)
  pub none : f 0 0 ≡ 0

pub bit_and-Digitwise : Digitwise bit_and min
bit_and-Digitwise = record { step = last; none = refl }
  where
    last : (a b : ℕ) → bit_and a b ≡ bit_and (a / 2) (b / 2) * 2 + min (a % 2) (b % 2)
    last zero b = omega (arith, bit_and-bitwise 0 b, bit_and-bitwise 0 (b / 2))
    last (suc a) b = omega (
      arith,
      bit_and-bitwise (suc a) b,
      bit_and-bitwise (suc a / 2) (b / 2),
      same_digits (λ _. 0) min a (suc a / 2) (suc a / 2) (b / 2) (omega arith) (omega arith),
    )

pub bit_or-Digitwise : Digitwise bit_or max
bit_or-Digitwise = record { step = last; none = refl }
  where
    last : (a b : ℕ) → bit_or a b ≡ bit_or (a / 2) (b / 2) * 2 + max (a % 2) (b % 2)
    last zero b = omega (arith, bit_or-bitwise 0 b, bit_or-bitwise 0 (b / 2))
    last (suc a) b = omega (
      arith,
      bit_or-bitwise (suc a) b,
      bit_or-bitwise (suc a / 2) (b / 2),
      same_digits (λ d. d) max a (suc a / 2) (suc a / 2) (b / 2) (omega arith) (omega arith),
    )

differ-zero : (d : ℕ) → differ 0 d ≡ d
differ-zero d = refl

pub bit_xor-Digitwise : Digitwise bit_xor differ
bit_xor-Digitwise = record { step = last; none = refl }
  where
    last : (a b : ℕ) → bit_xor a b ≡ bit_xor (a / 2) (b / 2) * 2 + differ (a % 2) (b % 2)
    last zero b = omega (arith, bit_xor-bitwise 0 b, bit_xor-bitwise 0 (b / 2))
    last (suc a) b = omega (
      arith,
      bit_xor-bitwise (suc a) b,
      bit_xor-bitwise (suc a / 2) (b / 2),
      same_digits (λ d. d) differ a (suc a / 2) (suc a / 2) (b / 2) (omega arith) (omega arith),
    )

-- Such an operation acts on the digits above and below position `k` apart.
module _ {op f : ℕ → ℕ → ℕ} (w : Digitwise op f) where
  pub zeros : op 0 0 ≡ 0
  zeros = omega (arith, w.step 0 0, w.none)

  double : (q k : ℕ) → q * 2 ^ suc k ≡ 2 * (q * 2 ^ k)
  double q k = omega (arith, ap (λ (t : ℕ). q * t) (two-pow-succ k))

  halves :
      (k q r m n : ℕ)
      → op (q * 2 ^ suc k + r) (m * 2 ^ suc k + n)
        ≡ op (q * 2 ^ k + r / 2) (m * 2 ^ k + n / 2) * 2 + f (r % 2) (n % 2)
  halves k q r m n =
      w.step (q * 2 ^ suc k + r) (m * 2 ^ suc k + n)
      ∙ ap₂ (λ (d e : ℕ). d * 2 + e)
          (ap₂ op (omega (arith, double q k)) (omega (arith, double m k)))
          (ap₂ f (omega (arith, double q k)) (omega (arith, double m k)))

  pub split :
      (k q r m n : ℕ)
      → r < 2 ^ k
      → n < 2 ^ k
      → op (q * 2 ^ k + r) (m * 2 ^ k + n) ≡ op q m * 2 ^ k + op r n
  split zero q r m n h i =
      let er : r ≡ 0 = omega arith in
      let en : n ≡ 0 = omega arith in
      let left : q * 1 + r ≡ q = omega arith in
      let right : m * 1 + n ≡ m = omega arith in
      omega (arith, ap₂ op left right, ap₂ op er en, zeros)
  split (suc k) q r m n h i = omega (
    arith,
    halves k q r m n,
    split k q (r / 2) m (n / 2) (omega (arith, two-pow-succ k)) (omega (arith, two-pow-succ k)),
    w.step r n,
    double (op q m) k,
  )
