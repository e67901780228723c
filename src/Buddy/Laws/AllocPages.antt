-- ===== src/Buddy/Laws/AllocPages.antt =====
-- `buddy_alloc_pages`.
use yoix.Base.{
  ℕ, ◌*◌, ◌^◌, ◌≤◌, ◌<◌, ◌≡◌, refl, le-cases, subst, inl, inr, ◌⊎◌, false, Option, some, arith, ltb,
  ◌==◌, ◌||◌, and_then, pure, if◌then◌else◌,
}
use yoix.Buddy.State.{Buddy, nil, max_pages, max_order, page_size, invalid_address}
use yoix.Buddy.Ops.{grow_order, order_from_pages, alloc_pages, alloc_page}
use yoix.Buddy.Pages.{pow-pos}
use yoix.Buddy.Valid.{IsValid, status, free}
use yoix.Buddy.Laws.Rounding.{order_from_pages-Least}
use yoix.Buddy.Laws.Allocate.{
  Allocated, Exhausted, AllocResult, got, none_left, allocate_block-Result,
}

-- The physical address of the block, or the invalid address.
pub data PagesResult (s : Buddy) (order : ℕ) : Option (ℕ × Buddy) → Type 0 where
  block :
      {x : ℕ} {s' : Buddy} → Allocated s order x s' → PagesResult s order (some (x * page_size, s'))
  refused : Exhausted s order → PagesResult s order (some (invalid_address, s))

-- The frame as an address: a frame that was found is not the end of a list.
address :
    {s : Buddy} {order : ℕ} {r : Option (ℕ × Buddy)}
    → AllocResult s order r
    → PagesResult s order
        (and_then r λ frame. pure (if frame == nil then invalid_address else frame * page_size))
address {order} (got {x} a) =
    let found : (x == nil) ≡ false = ground (arith, a.fits, pow-pos order) in rw found (block a)
address (none_left e) = refused e

-- For 1 to 2 ^ 18 pages `buddy_alloc_pages` returns the address of a block of the smallest order that holds
-- them, or the invalid address when no free block is that large.
pub alloc_pages-Result :
    {s : Buddy} (pages : ℕ)
    → IsValid s
    → 0 < pages
    → pages ≤ 2 ^ max_order
    → PagesResult s (order_from_pages pages) (alloc_pages pages s)
unfolding alloc_pages
alloc_pages-Result {s} pages valid pos le =
    let accepted : ((pages == 0) || ltb (2 ^ max_order) pages) ≡ false = ground arith in
    rw accepted (
      address
        (allocate_block-Result valid (order_from_pages pages) (order_from_pages-Least pages le).0))

-- Any other request gets the invalid address, and changes nothing.
pub alloc_pages-refused :
    (s : Buddy) (pages : ℕ)
    → (pages ≡ 0) ⊎ (2 ^ max_order < pages)
    → alloc_pages pages s ≡ some (invalid_address, s)
unfolding alloc_pages
alloc_pages-refused s pages out = ground arith

pub one_page : order_from_pages 1 ≡ 0
unfolding order_from_pages grow_order
one_page = refl

-- As long as any page is free, a single page can be allocated: no free page is lost to the lists.
pub alloc_page-found :
    {s : Buddy} (i : ℕ)
    → IsValid s
    → i < max_pages
    → status (s.page_state i) ≡ free
    → (x : ℕ) × (s' : Buddy) × (alloc_page s ≡ some (x * page_size, s')) × Allocated s 0 x s'
unfolding alloc_page
alloc_page-found {s} i valid lt is_free =
    found (alloc_pages-Result 1 valid (omega arith) (omega arith))
  where
    head_exists : (y : ℕ) × (y < max_pages) × (s.page_state y ≤ max_order)
    head_exists = elim (le-cases (s.page_state i) max_order) [
      | inl head ↦ (i, lt, head)
      | inr body ↦
          let (y, before, h, _) = valid.shape.owned i lt (ground arith) in (y, omega arith, h)
    ]

    found :
        {r : Option (ℕ × Buddy)}
        → PagesResult s (order_from_pages 1) r
        → (x : ℕ) × (s' : Buddy) × (r ≡ some (x * page_size, s')) × Allocated s 0 x s'
    found (block {x} {s' = u} a) = (x, u, refl, subst (λ k. Allocated s k x u) one_page a)
    found (refused small) =
        let (y, below, h) = head_exists in absurd (omega (arith, small y below h, one_page))

-- A single page.
pub alloc_page-Result : {s : Buddy} → IsValid s → PagesResult s 0 (alloc_page s)
unfolding alloc_page
alloc_page-Result {s} valid =
    subst (λ k. PagesResult s k (alloc_pages 1 s)) one_page
      (alloc_pages-Result 1 valid (omega arith) (omega arith))
