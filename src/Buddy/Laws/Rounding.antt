-- ===== src/Buddy/Laws/Rounding.antt =====
-- `buddy_order_from_pages`, `buddy_align_up` and `buddy_align_down`.
use yoix.Base.{
  ℕ, zero, suc, ◌+◌, ◌-◌, ◌*◌, ◌/◌, ◌^◌, ◌≤◌, ◌<◌, ◌≡◌, ◌⊎◌, inl, inr, sym, ap, arith, ltb,
  Bool-cases, ltb→lt, not-ltb→le, le-cases, subst,
}
use yoix.Base.Bits.{bit_and-high}
use native.Mathlib.Nat.{two-pow-succ}
use yoix.Buddy.State.{max_order, page_size, u64}
use yoix.Buddy.Ops.{grow_order, order_from_pages, align_up, align_down}
use yoix.Buddy.Runs.Marking.{pow-le-max}

-- `r` is the least order from `order` on whose block holds the pages, cut off at the largest.
pub record Least (pages r : ℕ) : Type 0 where
  pub in_range : r ≤ max_order
  pub holds : (pages ≤ 2 ^ r) ⊎ (r ≡ max_order)
  pub least : (j : ℕ) → j < r → 2 ^ j < pages

grow_order-Least :
    (left order pages : ℕ)
    → left + order ≡ max_order
    → ((j : ℕ) → j < order → 2 ^ j < pages)
    → Least pages (grow_order left (2 ^ order) order pages)
unfolding grow_order
grow_order-Least zero order pages e below = record {
  in_range = omega arith;
  holds = inr (omega arith);
  least = below;
}
grow_order-Least (suc left) order pages e below = elim (Bool-cases (ltb (2 ^ order) pages)) [
  | inl more ↦
      rw (more, doubled)
        (grow_order-Least left (order + 1) pages (omega arith) (λ j h. grown j h (ltb→lt _ _ more)))
  | inr enough ↦
      rw enough
        (record { in_range = omega arith; holds = inl (not-ltb→le _ _ enough); least = below })
]
  where
    doubled : u64 (2 ^ order * 2) ≡ 2 ^ (order + 1)
    doubled =
        let e' : order + 1 ≡ suc order = omega arith in
        omega (arith, ap (λ (j : ℕ). 2 ^ j) e', two-pow-succ order, pow-le-max order (omega arith))

    grown : (j : ℕ) → j < order + 1 → 2 ^ order < pages → 2 ^ j < pages
    grown j h lt = elim (le-cases order j) [
      | inl up ↦ let same : j ≡ order = omega arith in omega (arith, ap (λ (i : ℕ). 2 ^ i) same)
      | inr down ↦ below j down
    ]

-- For a request that the allocator accepts, `buddy_order_from_pages` returns the smallest order
-- whose block holds that many pages.
pub order_from_pages-Least :
    (pages : ℕ)
    → pages ≤ 2 ^ max_order
    → (order_from_pages pages ≤ max_order)
      × (pages ≤ 2 ^ order_from_pages pages)
      × ((j : ℕ) → j < order_from_pages pages → 2 ^ j < pages)
unfolding order_from_pages
order_from_pages-Least pages h =
    let found = grow_order-Least max_order 0 pages (omega arith) (λ j lt. absurd (omega arith)) in
    (found.in_range, held found.holds, found.least)
  where
    held :
        (pages ≤ 2 ^ order_from_pages pages) ⊎ (order_from_pages pages ≡ max_order)
        → pages ≤ 2 ^ order_from_pages pages
    held (inl fits) = fits
    held (inr top) = subst (λ j. pages ≤ 2 ^ j) (sym top) h

-- Rounding down to a page.
pub align_down-page : (v : ℕ) → v < 2 ^ 64 → align_down v page_size ≡ v / page_size * page_size
unfolding align_down
align_down-page v h = bit_and-high 52 12 v (omega arith)

-- `align_up` to the page size is division rounded up, as long as the sum does not wrap.
pub align_up-page :
    (v : ℕ)
    → v + (page_size - 1) < 2 ^ 64
    → align_up v page_size ≡ (v + (page_size - 1)) / page_size * page_size
unfolding align_up
align_up-page v h =
    let sum : u64 (u64 (v + page_size) + 2 ^ 64 - 1) ≡ v + (page_size - 1) = omega arith in
    rw sum (bit_and-high 52 12 (v + (page_size - 1)) (omega arith))
