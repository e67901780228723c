-- ===== src/Buddy/Runs/Marking.antt =====
-- The loops of kernel/src/memory/buddy.c that write page states.
use yoix.Base.{ℕ, zero, suc, ◌+◌, ◌-◌, ◌^◌, ◌≤◌, ◌≡◌, sym, ap, fun_ext, ◌∙◌, some, arith, lt→ltb}
use native.Mathlib.Nat.{pow-le-pow_right}
use yoix.Buddy.State.{Buddy, max_pages, max_order, free_body, allocated, write, u32, block_size}
use yoix.Buddy.Blocks.{fill_state, mark_block_free, mark_block_allocated}
use yoix.Buddy.Pages.{fill, mark, pow-pos}

pub pow-le-max : (k : ℕ) → k ≤ max_order → 2 ^ k ≤ max_pages
pow-le-max k h = pow-le-pow_right {n = 2} (omega arith) h

pub block_size-eq : (k : ℕ) → k ≤ max_order → block_size k ≡ 2 ^ k
unfolding block_size
block_size-eq k h = omega (arith, pow-le-max k h)

abbrev pub with_pages : Buddy → (ℕ → ℕ) → Buddy
with_pages s t = record s { page_state = t }

pub fill-zero : (t : ℕ → ℕ) (lo v : ℕ) → fill t lo 0 v ≡ t
fill-zero t lo v = fun_ext λ i. ground arith

pub fill-suc : (t : ℕ → ℕ) (lo n v : ℕ) → fill (write t lo v) (lo + 1) n v ≡ fill t lo (suc n) v
fill-suc t lo n v = fun_ext λ i. ground arith

pub fill_state-run :
    (n lo v : ℕ) (s : Buddy)
    → lo + n ≤ max_pages
    → fill_state n lo v s ≡ some (tt, with_pages s (fill s.page_state lo n v))
unfolding fill_state
fill_state-run zero lo v s h =
    ap (λ t. some (tt, with_pages s t)) (sym (fill-zero s.page_state lo v))
fill_state-run (suc n) lo v s h = rw (lt→ltb lo max_pages (omega arith)) (
    fill_state-run n (lo + 1) v (with_pages s (write s.page_state lo v)) (omega arith)
    ∙ ap (λ t. some (tt, with_pages s t)) (fill-suc s.page_state lo n v))

module _ (x k : ℕ) (s : Buddy) (order : k ≤ max_order) (room : x + 2 ^ k ≤ max_pages) where
  pub mark_block_free-run : mark_block_free x k s ≡ some (tt, with_pages s (mark s.page_state x k))
  unfolding mark_block_free
  mark_block_free-run =
      rw (lt→ltb x max_pages (omega (arith, pow-pos k)), block_size-eq k order, ends, begins)
        (fill_state-run (2 ^ k - 1) (x + 1) free_body (with_pages s (write s.page_state x k))
          (omega (arith, pow-pos k)))
    where
      begins : u32 (x + 1) ≡ x + 1
      begins = omega (arith, pow-pos k)

      ends : u32 (x + 2 ^ k) - u32 (x + 1) ≡ 2 ^ k - 1
      ends = omega (arith, pow-pos k)

  pub mark_block_allocated-run :
      mark_block_allocated x k s ≡ some (tt, with_pages s (fill s.page_state x (2 ^ k) allocated))
  unfolding mark_block_allocated
  mark_block_allocated-run =
      rw (block_size-eq k order, ends) (fill_state-run (2 ^ k) x allocated s room)
    where
      ends : u32 (x + 2 ^ k) - x ≡ 2 ^ k
      ends = omega (arith, pow-pos k)
