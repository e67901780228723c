-- ===== src/Buddy/Rep.antt =====
-- What the free lists of kernel/src/memory/buddy.c stand for: a table of page states. While a
-- block is on its way the lists may stand for another table than the one in memory.
pub mod Insert
pub mod Remove
use yoix.Base.{ℕ, ◌≤◌, ◌<◌, ◌≡◌, Bool, true, List, arith, ltb, ◌==◌, if◌then◌else◌}
use yoix.Buddy.State.{Buddy, nil, max_pages, max_order, write}
use yoix.Buddy.Chain.{Chain, has, next_without, prev_without, head_without}
use yoix.Buddy.Pages.{Shape, is_head}

-- A list of order `k` holds exactly the heads of the free blocks of that order.
abbrev pub ListRep : Buddy → (ℕ → ℕ) → ℕ → Type 0
ListRep s t k =
    (xs : List ℕ) × Chain s.free_next s.free_prev nil (s.free_list k) xs
    × ((a : ℕ) → has a xs ≡ is_head t k a)

pub record Rep (s : Buddy) (t : ℕ → ℕ) : Type 0 where
  pub lists : (k : ℕ) → k ≤ max_order → ListRep s t k
  pub shape : Shape t

-- The links after `buddy_add_free_block`.
abbrev pub linked : Buddy → ℕ → ℕ → Buddy
linked s x k =
    let head = s.free_list k in
    record s {
      free_prev = write (if head == nil then s.free_prev else write s.free_prev head x) x nil;
      free_next = write s.free_next x head;
      free_list = write s.free_list k x;
    }

-- The links after `buddy_remove_free_block`.
abbrev pub unlinked : Buddy → ℕ → ℕ → Buddy
unlinked s x k = record s {
  free_next = next_without s.free_next s.free_prev x;
  free_prev = prev_without s.free_next s.free_prev x;
  free_list = if s.free_prev x == nil then write s.free_list k (s.free_next x) else s.free_list;
}

pub is_head-eq : (t : ℕ → ℕ) (k a : ℕ) → is_head t k a ≡ true → (a < max_pages) × (t a ≡ k)
is_head-eq t k a h = ground arith

pub eq-is_head : (t : ℕ → ℕ) (k a : ℕ) → a < max_pages → t a ≡ k → is_head t k a ≡ true
eq-is_head t k a p q = ground arith
