-- ===== src/Base/Memory.antt =====
-- A memory of bytes, with little-endian words of `k` bytes.
use Prim.Native.Nat.{ℕ, zero, suc, ◌+◌, ◌*◌, ◌/◌, ◌%◌, ◌^◌, ◌≤◌, ◌<◌}
use mathlib.Core.Path.{◌≡◌, refl}
use mathlib.Core.Logic.{◌⊎◌}
use native.Mathlib.Omega.{arith}
use yoix.Base.Tests.{◌==◌, if◌then◌else◌}

abbrev pub Memory : Type 0
Memory = ℕ → ℕ

unfoldable pub read : ℕ → Memory → ℕ → ℕ
read zero m a = 0
read (suc k) m a = m a % 256 + 256 * read k m (a + 1)

unfoldable pub write : ℕ → Memory → ℕ → ℕ → Memory
write zero m a v b = m b
write (suc k) m a v b = if b == a then v % 256 else write k m (a + 1) (v / 256) b

pub read-cong :
    (k : ℕ) (m m' : Memory) (a : ℕ)
    → ((b : ℕ) → a ≤ b → b < a + k → m b ≡ m' b)
    → read k m a ≡ read k m' a
unfolding read
read-cong zero m m' a same = refl
read-cong (suc k) m m' a same = omega (
  arith,
  same a (omega arith) (omega arith),
  read-cong k m m' (a + 1) (λ b lo hi. same b (omega arith) (omega arith)),
)

pub write-outside : (k : ℕ) (m : Memory) (a v b : ℕ) → (b < a) ⊎ (a + k ≤ b) → write k m a v b ≡ m b
unfolding write
write-outside zero m a v b out = refl
write-outside (suc k) m a v b out =
    ground (arith, out, write-outside k m (a + 1) (v / 256) b (ground (arith, out)))

pub read-lt : (k : ℕ) (m : Memory) (a : ℕ) → read k m a < 256 ^ k
unfolding read
read-lt zero m a = omega arith
read-lt (suc k) m a = omega (arith, read-lt k m (a + 1))

-- A word that is written is read back.
pub read-write : (k : ℕ) (m : Memory) (a v : ℕ) → v < 256 ^ k → read k (write k m a v) a ≡ v
unfolding read write
read-write zero m a v h = omega arith
read-write (suc k) m a v h = omega (
  arith,
  here,
  read-cong k (write (suc k) m a v) (write k m (a + 1) (v / 256)) (a + 1) rest,
  read-write k m (a + 1) (v / 256) (omega arith),
)
  where
    here : write (suc k) m a v a ≡ v % 256
    here = ground arith

    rest :
        (b : ℕ) → a + 1 ≤ b → b < a + 1 + k → write (suc k) m a v b ≡ write k m (a + 1) (v / 256) b
    rest b lo hi = ground arith

-- A word elsewhere stays.
pub read-write_apart :
    (j k : ℕ) (m : Memory) (a v b : ℕ)
    → (b + j ≤ a) ⊎ (a + k ≤ b)
    → read j (write k m a v) b ≡ read j m b
read-write_apart j k m a v b out =
    read-cong j (write k m a v) m b (λ c lo hi. write-outside k m a v c (ground (arith, out)))

pub read-zero :
    (k : ℕ) (m : Memory) (a : ℕ) → ((b : ℕ) → a ≤ b → b < a + k → m b ≡ 0) → read k m a ≡ 0
unfolding read
read-zero zero m a z = refl
read-zero (suc k) m a z = omega (
  arith,
  z a (omega arith) (omega arith),
  read-zero k m (a + 1) (λ b lo hi. z b (omega arith) (omega arith)),
)
