-- ===== src/Buddy/Laws/Reset.antt =====
-- `buddy_reset` clears the tables.
use yoix.Base.{ℕ, zero, suc, ◌+◌, ◌≤◌, ◌<◌, ◌≡◌, sym, ◌∙◌, ap, some, [], arith, lt→ltb}
use yoix.Buddy.State.{Buddy, nil, max_pages, max_order, reserved, write}
use yoix.Buddy.Blocks.{reset_pages, reset_lists, reset}
use yoix.Buddy.Chain.{end}
use yoix.Buddy.Pages.{Shape, fill, fill-inside}
use yoix.Buddy.Rep.{ListRep}
use yoix.Buddy.Runs.Marking.{fill-zero, fill-suc}
use yoix.Buddy.Valid.{IsValid}

abbrev with_tables : Buddy → (ℕ → ℕ) → (ℕ → ℕ) → (ℕ → ℕ) → Buddy
with_tables s t n p = record s { page_state = t; free_next = n; free_prev = p }

abbrev wiped : Buddy → ℕ → ℕ → Buddy
wiped s i n =
    with_tables s (fill s.page_state i n reserved) (fill s.free_next i n nil)
      (fill s.free_prev i n nil)

same_tables :
    (s : Buddy) {t t' n n' p p' : ℕ → ℕ}
    → t ≡ t'
    → n ≡ n'
    → p ≡ p'
    → with_tables s t n p ≡ with_tables s t' n' p'
same_tables s e f g = λ i. with_tables s (e i) (f i) (g i)

reset_pages-run :
    (n i : ℕ) (s : Buddy) → i + n ≤ max_pages → reset_pages n i s ≡ some (tt, wiped s i n)
unfolding reset_pages
reset_pages-run zero i s h =
    ap (λ u. some (tt, u))
      (same_tables s (sym (fill-zero s.page_state i reserved)) (sym (fill-zero s.free_next i nil))
        (sym (fill-zero s.free_prev i nil)))
reset_pages-run (suc n) i s h = rw (lt→ltb i max_pages (omega arith)) (
    reset_pages-run n (i + 1)
      (with_tables s (write s.page_state i reserved) (write s.free_next i nil)
        (write s.free_prev i nil))
      (omega arith)
    ∙ ap (λ u. some (tt, u))
        (same_tables s (fill-suc s.page_state i n reserved) (fill-suc s.free_next i n nil)
          (fill-suc s.free_prev i n nil)))

abbrev with_lists : Buddy → (ℕ → ℕ) → Buddy
with_lists s l = record s { free_list = l }

reset_lists-run :
    (n k : ℕ) (s : Buddy)
    → k + n ≤ max_order + 1
    → reset_lists n k s ≡ some (tt, with_lists s (fill s.free_list k n nil))
unfolding reset_lists
reset_lists-run zero k s h = ap (λ l. some (tt, with_lists s l)) (sym (fill-zero s.free_list k nil))
reset_lists-run (suc n) k s h = rw (lt→ltb k (max_order + 1) (omega arith)) (
    reset_lists-run n (k + 1) (with_lists s (write s.free_list k nil)) (omega arith)
    ∙ ap (λ l. some (tt, with_lists s l)) (fill-suc s.free_list k n nil))

-- The tables after `buddy_reset`.
cleared : Buddy → Buddy
cleared s = with_lists (wiped s 0 max_pages) (fill s.free_list 0 (max_order + 1) nil)

cleared-state : (s : Buddy) (i : ℕ) → i < max_pages → (cleared s).page_state i ≡ reserved
unfolding cleared
cleared-state s i h = fill-inside s.page_state 0 max_pages reserved i (omega arith) h

cleared-list : (s : Buddy) (k : ℕ) → k ≤ max_order → (cleared s).free_list k ≡ nil
unfolding cleared
cleared-list s k h = fill-inside s.free_list 0 (max_order + 1) nil k (omega arith) (omega arith)

cleared-run : (s : Buddy) → reset s ≡ some (tt, cleared s)
unfolding reset cleared
cleared-run s =
    rw (reset_pages-run max_pages 0 s (omega arith))
      (reset_lists-run (max_order + 1) 0 (wiped s 0 max_pages) (omega arith))

cleared-ListRep : (s : Buddy) (k : ℕ) → k ≤ max_order → ListRep (cleared s) (cleared s).page_state k
cleared-ListRep s k le = ([], end (cleared-list s k le), λ a. ground (arith, cleared-state s a))

cleared-Shape : (s : Buddy) → Shape (cleared s).page_state
cleared-Shape s = record {
  aligned = λ x lt h. absurd (omega (arith, cleared-state s x lt));
  fits = λ x lt h. absurd (omega (arith, cleared-state s x lt));
  body = λ x i lt h lo hi. absurd (omega (arith, cleared-state s x lt));
  owned = λ i lt e. absurd (omega (arith, cleared-state s i lt));
}

-- `buddy_reset` stays inside the tables and makes every page unavailable, whatever they held. The
-- state is valid.
pub reset-IsValid :
    (s : Buddy)
    → (s' : Buddy) × (reset s ≡ some (tt, s'))
      × IsValid s'
      × ((i : ℕ) → i < max_pages → s'.page_state i ≡ reserved)
reset-IsValid s = (
  cleared s,
  cleared-run s,
  record { lists = cleared-ListRep s; shape = cleared-Shape s },
  cleared-state s,
)
