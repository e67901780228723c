-- ===== src/Buddy/Laws/Allocate.antt =====
-- `buddy_allocate_block`: a free block is found and split, or there is none.
use yoix.Base.{
  ℕ, zero, suc, ◌+◌, ◌-◌, ◌*◌, ◌^◌, ◌≤◌, ◌<◌, ◌≡◌, refl, sym, ◌∙◌, ap, subst, ◌≢◌, ◌⊎◌, inl, inr,
  Option, some, arith, ltb, ◌==◌, Bool-cases, le-cases, ==→eq, lt→ltb, le→not-ltb, false,
}
use native.Mathlib.Nat.{pow-le-pow_right}
use yoix.Buddy.State.{Buddy, nil, max_pages, max_order, page_size, allocated, u32}
use yoix.Buddy.Ops.{take_block, search_lists, allocate_block}
use yoix.Buddy.Chain.{Chain-head, Chain-empty}
use yoix.Buddy.Pages.{Aligned, fill, fill-inside, fill-outside, In-cases, pow-pos}
use yoix.Buddy.Pages.Cleared.{block_free}
use yoix.Buddy.Rep.{unlinked}
use yoix.Buddy.Rep.Remove.{neighbours, unlinked-Rep}
use yoix.Buddy.Runs.Marking.{with_pages, block_size-eq, pow-le-max, mark_block_allocated-run}
use yoix.Buddy.Runs.Listing.{pop_free_block-run}
use yoix.Buddy.Valid.{free, status, IsValid, Out, kept-IsValid}
use yoix.Buddy.Laws.Split.{SplitResult, split_block-run}

-- The block at `x` was free and now belongs to the caller; no other page has changed hands.
pub record Allocated (s : Buddy) (order x : ℕ) (s' : Buddy) : Type 0 where
  pub valid : IsValid s'
  pub aligned : Aligned order x
  pub fits : x + 2 ^ order ≤ max_pages
  pub was_free : (i : ℕ) → x ≤ i → i < x + 2 ^ order → status (s.page_state i) ≡ free
  pub now_used : (i : ℕ) → x ≤ i → i < x + 2 ^ order → s'.page_state i ≡ allocated
  pub others :
      (i : ℕ) → (i < x) ⊎ (x + 2 ^ order ≤ i) → status (s'.page_state i) ≡ status (s.page_state i)

-- No free block has at least this order.
abbrev pub Exhausted : Buddy → ℕ → Type 0
Exhausted s order = (y : ℕ) → y < max_pages → s.page_state y ≤ max_order → s.page_state y < order

pub data AllocResult (s : Buddy) (order : ℕ) : Option (ℕ × Buddy) → Type 0 where
  got : {x : ℕ} {s' : Buddy} → Allocated s order x s' → AllocResult s order (some (x, s'))
  none_left : Exhausted s order → AllocResult s order (some (nil, s))

module _ {s : Buddy} (valid : IsValid s) (order k : ℕ) (lo : order ≤ k) (hi : k ≤ max_order) where
  smaller : 2 ^ order ≤ 2 ^ k
  smaller = pow-le-pow_right {n = 2} (omega arith) lo

  -- The block at the head of a list, once it is popped.
  module _ (x : ℕ) (lt : x < max_pages) (head : s.page_state x ≡ k) where
    popped : ℕ → ℕ
    popped = fill s.page_state x (2 ^ k) allocated

    size : 2 ^ s.page_state x ≡ 2 ^ k
    size = ap (λ (j : ℕ). 2 ^ j) head

    popped-Out : Out (unlinked s x k) popped x k
    unfolding popped
    popped-Out = record {
      rep = unlinked-Rep x k valid hi lt head;
      aligned = subst (λ j. Aligned j x) head (valid.shape.aligned x lt (omega arith));
      fits = omega (arith, valid.shape.fits x lt (omega arith), size);
      held = λ i a b. fill-inside s.page_state x (2 ^ k) allocated i a b;
      agrees = λ i o. sym (fill-outside s.page_state x (2 ^ k) allocated i o);
    }

    was_free : (i : ℕ) → x ≤ i → i < x + 2 ^ k → status (s.page_state i) ≡ free
    was_free i a b = ground (arith, block_free x k valid.shape hi lt head i a b)

    split : SplitResult (k - order) x order k (unlinked s x k) popped
    split =
        split_block-run (k - order) x order k (unlinked s x k) popped (omega arith) hi popped-Out

    final : Buddy
    final = with_pages split.state (fill split.state.page_state x (2 ^ order) allocated)

    split-others :
        (i : ℕ) → (i < x) ⊎ (x + 2 ^ order ≤ i) → status (split.table i) ≡ status (s.page_state i)
    unfolding popped
    split-others i o = elim (In-cases x (2 ^ k) i) [
      | inl (a, b) ↦ split.rest i (omega arith) b ∙ sym (was_free i a b)
      | inr out ↦
          ap status (split.others i out ∙ fill-outside s.page_state x (2 ^ k) allocated i out)
    ]

    final-Allocated : Allocated s order x final
    unfolding final
    final-Allocated = record {
      valid = kept-IsValid (omega arith) split.out;
      aligned = split.out.aligned;
      fits = split.out.fits;
      was_free = λ i a b. was_free i a (omega (arith, smaller));
      now_used = λ i a b. fill-inside split.state.page_state x (2 ^ order) allocated i a b;
      others = λ i o.
          ap status
            (fill-outside split.state.page_state x (2 ^ order) allocated i o ∙ split.out.agrees i o)
          ∙ split-others i o;
    }

    take_block-run :
        s.free_list k ≡ x → s.free_prev x ≡ nil → take_block k order s ≡ some (x, final)
    unfolding take_block final
    take_block-run first back =
        rw
          (
            pop_free_block-run x k s hi lt first back (λ d. (after d).0),
            split.runs,
            mark_block_allocated-run x order split.state (omega arith) split.out.fits,
          )
          refl
      where
        after :
            s.free_next x ≢ nil → (s.free_next x < max_pages) × (s.page_state (s.free_next x) ≡ k)
        after = (neighbours x k valid hi lt head).2

  take_block-Result : s.free_list k ≢ nil → AllocResult s order (take_block k order s)
  take_block-Result some_free =
      let (xs, ch, mem) = valid.lists k hi in
      let (lt, back, on) = Chain-head ch some_free in
      let head : s.page_state (s.free_list k) ≡ k = ground (arith, mem (s.free_list k)) in
      subst (AllocResult s order) (sym (take_block-run (s.free_list k) lt head refl back))
        (got (final-Allocated (s.free_list k) lt head))

-- The search starts at `order`, and the lists that it has passed are empty.
module _ {s : Buddy} (valid : IsValid s) (order : ℕ) where
  abbrev Passed : ℕ → Type 0
  Passed current = (j : ℕ) → order ≤ j → j < current → s.free_list j ≡ nil

  Passed-Exhausted : Passed (max_order + 1) → Exhausted s order
  Passed-Exhausted passed y lt heads = elim (le-cases order (s.page_state y)) [
    | inr below ↦ below
    | inl above ↦
        let (xs, ch, mem) = valid.lists (s.page_state y) heads in
        absurd
          (ground (arith, Chain-empty y ch (passed (s.page_state y) above (omega arith)), mem y))
  ]

  Passed-next : (current : ℕ) → Passed current → s.free_list current ≡ nil → Passed (current + 1)
  Passed-next current passed empty j a b = elim (le-cases current j) [
    | inl up ↦ let same : j ≡ current = omega arith in ap s.free_list same ∙ empty
    | inr down ↦ passed j a down
  ]

  pub search_lists-Result :
      (left current : ℕ)
      → left + current ≡ max_order + 1
      → order ≤ current
      → Passed current
      → AllocResult s order (search_lists left current order s)
  unfolding search_lists
  search_lists-Result zero current e le passed =
      none_left (Passed-Exhausted λ j a b. passed j a (omega arith))
  search_lists-Result (suc left) current e le passed =
      rw (lt→ltb current (max_order + 1) (omega arith))
        (elim (Bool-cases (s.free_list current == nil)) [
          | inl empty ↦ rw empty (
              search_lists-Result left (current + 1) (omega arith) (omega arith)
                λ j a b. Passed-next current passed (==→eq _ _ empty) j a b)
          | inr more ↦
              rw more (take_block-Result valid order current le (omega arith) (ground arith))
        ])

-- `buddy_allocate_block` on a valid state and an order in range never leaves its tables. It takes
-- an aligned block of exactly that order out of the free pages, marks it allocated and changes
-- no other page, or reports that every free block is smaller and changes nothing.
pub allocate_block-Result :
    {s : Buddy}
    → IsValid s
    → (order : ℕ) → order ≤ max_order
    → AllocResult s order (allocate_block order s)
unfolding allocate_block
allocate_block-Result {s} valid order le =
    rw (block_size-eq order le, splittable, in_range)
      (search_lists-Result valid order (max_order + 1 - order) order (omega arith) (omega arith)
        λ j a b. absurd (omega arith))
  where
    splittable : ltb (u32 (2 ^ order * page_size)) 4096 ≡ false
    splittable = le→not-ltb _ _ (omega (arith, pow-pos order, pow-le-max order le))

    in_range : ltb max_order order ≡ false
    in_range = le→not-ltb _ _ le
