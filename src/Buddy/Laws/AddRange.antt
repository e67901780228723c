-- ===== src/Buddy/Laws/AddRange.antt =====
-- `buddy_add_range`: a range of pages is cut into aligned blocks, and each is given to the lists.
use yoix.Base.{
  ℕ, zero, suc, ◌+◌, ◌-◌, ◌/◌, ◌%◌, ◌^◌, ◌≤◌, ◌<◌, ◌≡◌, refl, ◌∙◌, ap, ◌⊎◌, inl, inr, true, false,
  bit_and, some, arith, ◌==◌, Bool-cases, le-cases,
}
use yoix.Base.Bits.{bit_and-mask, bit_and-zero, parts}
use yoix.Buddy.State.{Buddy, max_pages, max_order, free_body, u32, block_size}
use yoix.Buddy.Blocks.{add_free_block}
use yoix.Buddy.Ops.{unfit, fit_order, add_range_loop, add_range}
use yoix.Buddy.Pages.{Aligned, Taken, mark, mark-outside, pow-pos}
use yoix.Buddy.Rep.Insert.{linked-Rep, head_bound}
use yoix.Buddy.Runs.Marking.{block_size-eq}
use yoix.Buddy.Runs.Listing.{added, add_free_block-run}
use yoix.Buddy.Valid.{free, status, IsValid, Rep-with_pages, status-mark}

-- The order that the inner loop stops at fits the range, and is the largest that does.
pub record Fit (frame pages top k : ℕ) : Type 0 where
  pub in_range : k ≤ top
  pub small : 2 ^ k ≤ pages
  pub aligned : Aligned k frame
  pub largest : (j : ℕ) → k < j → j ≤ top → unfit frame pages j ≡ true

unfit-false :
    (frame pages k : ℕ)
    → k ≤ max_order
    → unfit frame pages k ≡ false
    → (2 ^ k ≤ pages) × Aligned k frame
unfolding unfit
unfit-false frame pages k le h =
    let size = block_size-eq k le in
    let mask : bit_and frame (block_size k - 1) ≡ frame % 2 ^ k =
      ap (λ (n : ℕ). bit_and frame (n - 1)) size ∙ bit_and-mask k frame in
    let rest : frame % 2 ^ k ≡ 0 = ground arith in
    (ground arith, (frame / 2 ^ k, omega (arith, parts k frame, rest)))

unfit-zero : (frame pages : ℕ) → 0 < pages → unfit frame pages 0 ≡ false
unfolding unfit block_size
unfit-zero frame pages pos = ground (arith, bit_and-zero frame)

-- The inner loop ends before order 0 fails. For a range that is not empty it finds an order whose
-- block lies in the range and is aligned at its start.
pub fit_order-Fit :
    (frame pages order : ℕ) (s : Buddy)
    → order ≤ max_order
    → 0 < pages
    → (k : ℕ) × (fit_order frame pages order s ≡ some (k, s)) × Fit frame pages order k
unfolding fit_order
fit_order-Fit frame pages zero s le pos = (
  0,
  rw (unfit-zero frame pages pos) refl,
  record {
    in_range = omega arith;
    small = omega arith;
    aligned = (frame, omega arith);
    largest = λ j a b. absurd (omega arith);
  },
)
fit_order-Fit frame pages (suc order) s le pos = elim (Bool-cases (unfit frame pages (suc order))) [
  | inr fits ↦
      let (small, aligned) = unfit-false frame pages (suc order) le fits in
      (
        suc order,
        rw fits refl,
        record {
          in_range = omega arith;
          small = small;
          aligned = aligned;
          largest = λ j a b. absurd (omega arith);
        },
      )
  | inl no_fit ↦
      let (k, run, fit) = fit_order-Fit frame pages order s (omega arith) pos in
      (
        k,
        rw no_fit run,
        record {
          in_range = omega (arith, fit.in_range);
          small = fit.small;
          aligned = fit.aligned;
          largest = λ j a b. elim (le-cases (suc order) j) [
            | inl top ↦
                let same : j ≡ suc order = omega arith in ap (unfit frame pages) same ∙ no_fit
            | inr below ↦ fit.largest j a (omega arith)
          ];
        },
      )
]

-- Exactly the pages of the range become free.
pub record Added (s : Buddy) (frame pages : ℕ) (s' : Buddy) : Type 0 where
  pub valid : IsValid s'
  pub now_free : (i : ℕ) → frame ≤ i → i < frame + pages → status (s'.page_state i) ≡ free
  pub others : (i : ℕ) → (i < frame) ⊎ (frame + pages ≤ i) → s'.page_state i ≡ s.page_state i

-- None of the pages of the range is free.
abbrev pub RangeTaken : Buddy → ℕ → ℕ → Type 0
RangeTaken s frame pages = (i : ℕ) → frame ≤ i → i < frame + pages → free_body < s.page_state i

module _ {s : Buddy} {frame pages k : ℕ} (valid : IsValid s) (room : frame + pages ≤ max_pages)
    (taken : RangeTaken s frame pages) (fit : Fit frame pages max_order k) where
  fits : frame + 2 ^ k ≤ max_pages
  fits = omega (arith, fit.small)

  block-Taken : Taken s.page_state frame k
  block-Taken i lo hi = taken i lo (omega (arith, fit.small))

  block-run : add_free_block frame k s ≡ some (tt, added s frame k)
  block-run =
      add_free_block-run frame k s fit.in_range fits
        (head_bound frame k valid fit.in_range fit.aligned fits block-Taken)

  block-IsValid : IsValid (added s frame k)
  block-IsValid =
      Rep-with_pages (mark s.page_state frame k)
        (linked-Rep frame k valid fit.in_range fit.aligned fits block-Taken)

  rest_taken : RangeTaken (added s frame k) (frame + 2 ^ k) (pages - 2 ^ k)
  rest_taken i lo hi = omega (
    arith,
    mark-outside s.page_state frame k i (inr lo),
    taken i (omega arith) (omega (arith, fit.small)),
  )

  joined :
      {s' : Buddy}
      → Added (added s frame k) (frame + 2 ^ k) (pages - 2 ^ k) s'
      → Added s frame pages s'
  joined {s'} rest = record {
    valid = rest.valid;
    now_free = λ i lo hi. elim (le-cases (frame + 2 ^ k) i) [
      | inl above ↦ rest.now_free i above (omega (arith, fit.small))
      | inr below ↦
          ap status (rest.others i (inl below))
          ∙ status-mark s.page_state frame k i fit.in_range lo below
    ];
    others = λ i o.
        rest.others i (omega (arith, fit.small))
        ∙ mark-outside s.page_state frame k i (omega (arith, fit.small));
  }

module _ {s s' : Buddy} {frame p k : ℕ} (fuel : ℕ) (valid : IsValid s)
    (room : frame + suc p ≤ max_pages) (taken : RangeTaken s frame (suc p))
    (fit : Fit frame (suc p) max_order k) where
  loop-run :
      fit_order frame (suc p) max_order s ≡ some (k, s)
      → add_range_loop fuel (frame + 2 ^ k) (suc p - 2 ^ k) (added s frame k) ≡ some (tt, s')
      → add_range_loop (suc fuel) frame (suc p) s ≡ some (tt, s')
  unfolding add_range_loop
  loop-run found run =
      let more : (suc p == 0) ≡ false = ground arith in
      let onward : u32 (frame + 2 ^ k) ≡ frame + 2 ^ k = omega (arith, fit.small) in
      let left : u32 (suc p + 2 ^ 32 - 2 ^ k) ≡ suc p - 2 ^ k = omega (arith, fit.small) in
      rw (more, found, block-run valid room taken fit, block_size-eq k fit.in_range, onward, left)
        run

Added-empty : {s : Buddy} (frame : ℕ) → IsValid s → Added s frame 0 s
Added-empty frame valid = record {
  valid = valid;
  now_free = λ i lo hi. absurd (omega arith);
  others = λ i o. refl;
}

add_range_loop-Added :
    (fuel frame pages : ℕ) (s : Buddy)
    → pages ≤ fuel
    → IsValid s
    → frame + pages ≤ max_pages
    → RangeTaken s frame pages
    → (s' : Buddy) × (add_range_loop fuel frame pages s ≡ some (tt, s')) × Added s frame pages s'
unfolding add_range_loop
add_range_loop-Added zero frame zero s le valid room taken = (s, refl, Added-empty frame valid)
add_range_loop-Added zero frame (suc p) s le valid room taken = absurd (omega arith)
add_range_loop-Added (suc fuel) frame zero s le valid room taken =
    (s, refl, Added-empty frame valid)
add_range_loop-Added (suc fuel) frame (suc p) s le valid room taken =
    let (k, found, fit) = fit_order-Fit frame (suc p) max_order s (omega arith) (omega arith) in
    let (s', run, rest) =
      add_range_loop-Added fuel (frame + 2 ^ k) (suc p - 2 ^ k) (added s frame k)
        (omega (arith, fit.small, pow-pos k)) (block-IsValid valid room taken fit)
        (omega (arith, fit.small)) (rest_taken valid room taken fit) in
    (s', loop-run fuel valid room taken fit found run, joined valid room taken fit rest)

-- Adding a range inside memory whose pages are not free never leaves the tables, and ends. It
-- makes exactly the pages of the range free, touches no other page state and keeps the state
-- valid.
pub add_range-Added :
    {s : Buddy} (frame pages : ℕ)
    → IsValid s
    → frame + pages ≤ max_pages
    → RangeTaken s frame pages
    → (s' : Buddy) × (add_range frame pages s ≡ some (tt, s')) × Added s frame pages s'
unfolding add_range
add_range-Added {s} frame pages valid room taken =
    add_range_loop-Added pages frame pages s (omega arith) valid room taken
