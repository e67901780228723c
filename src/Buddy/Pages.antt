-- ===== src/Buddy/Pages.antt =====
-- The page-state table of kernel/src/memory/buddy.c: what the states of a block and its pages mean.
pub mod Marked
pub mod Cleared
use yoix.Base.{
  ℕ, ◌+◌, ◌-◌, ◌*◌, ◌^◌, ◌≤◌, ◌<◌, ◌≡◌, ◌⊎◌, inl, inr, Bool, ◌&&◌, arith, ltb, leb, ◌==◌,
  if◌then◌else◌,
}
use native.Mathlib.Nat.{one-le-pow}
use yoix.Buddy.State.{max_pages, max_order, free_body, write}

-- The table after `n` pages from `lo` on are set to `v`.
abbrev pub fill : (ℕ → ℕ) → ℕ → ℕ → ℕ → ℕ → ℕ
fill t lo n v i = if leb lo i && ltb i (lo + n) then v else t i

-- The table after `buddy_mark_block_free`.
abbrev pub mark : (ℕ → ℕ) → ℕ → ℕ → ℕ → ℕ
mark t x k = fill (write t x k) (x + 1) (2 ^ k - 1) free_body

abbrev pub is_head : (ℕ → ℕ) → ℕ → ℕ → Bool
is_head t k x = ltb x max_pages && (t x == k)

abbrev pub Aligned : ℕ → ℕ → Type 0
Aligned k x = (q : ℕ) × (x ≡ q * 2 ^ k)

abbrev pub In : ℕ → ℕ → ℕ → Type 0
In x k i = (x ≤ i) × (i < x + 2 ^ k)

-- None of the pages of the block is free.
abbrev pub Taken : (ℕ → ℕ) → ℕ → ℕ → Type 0
Taken t x k = (i : ℕ) → x ≤ i → i < x + 2 ^ k → free_body < t i

-- Heads of free blocks are aligned and followed by the rest of their block, inside memory, and
-- every other free page belongs to one.
pub record Shape (t : ℕ → ℕ) : Type 0 where
  pub aligned : (x : ℕ) → x < max_pages → t x ≤ max_order → Aligned (t x) x
  pub fits : (x : ℕ) → x < max_pages → t x ≤ max_order → x + 2 ^ t x ≤ max_pages
  pub body : (x i : ℕ) → x < max_pages → t x ≤ max_order → x < i → i < x + 2 ^ t x → t i ≡ free_body
  pub owned :
      (i : ℕ)
      → i < max_pages
      → t i ≡ free_body
      → (x : ℕ) × (x < i) × (t x ≤ max_order) × (i < x + 2 ^ t x)

pub pow-pos : (k : ℕ) → 0 < 2 ^ k
pow-pos k = one-le-pow k 2 (omega arith)

-- How the marked table reads: at the head, inside and outside the block.
module _ (t : ℕ → ℕ) (x k : ℕ) where
  pub mark-head : mark t x k x ≡ k
  mark-head = ground arith

  pub mark-body : (i : ℕ) → x < i → i < x + 2 ^ k → mark t x k i ≡ free_body
  mark-body i lo hi = ground (arith, pow-pos k)

  pub mark-outside : (i : ℕ) → (i < x) ⊎ (x + 2 ^ k ≤ i) → mark t x k i ≡ t i
  mark-outside i out = ground (arith, pow-pos k)

pub fill-inside : (t : ℕ → ℕ) (lo n v i : ℕ) → lo ≤ i → i < lo + n → fill t lo n v i ≡ v
fill-inside t lo n v i p q = ground arith

pub fill-outside : (t : ℕ → ℕ) (lo n v i : ℕ) → (i < lo) ⊎ (lo + n ≤ i) → fill t lo n v i ≡ t i
fill-outside t lo n v i out = ground arith

pub In-cases : (x n i : ℕ) → ((x ≤ i) × (i < x + n)) ⊎ ((i < x) ⊎ (x + n ≤ i))
In-cases x n i = omega arith
