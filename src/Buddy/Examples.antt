-- ===== src/Buddy/Examples.antt =====
-- Concrete states of the allocator of kernel/src/memory/buddy.c.
mod Allocating
mod Freeing
mod Starting
use yoix.Base.{
  ℕ, ◌+◌, ◌*◌, ◌^◌, ◌≤◌, ◌<◌, ◌≡◌, refl, sym, subst, ap, ◌↔◌, ◌&&◌, Bool, true, false, Option, some,
  none, List, [], ◌∷◌, inl, inr, arith, ltb, leb, ◌==◌, if◌then◌else◌,
}
use native.Mathlib.Decide.{ℕ_discrete}
use yoix.Buddy.State
use yoix.Buddy.State.{Buddy, nil, max_pages, max_order, reserved, free_body, allocated}
use yoix.Buddy.State.{block_size}
use yoix.Buddy.Blocks.{
  fill_state, mark_block_free, mark_block_allocated, add_free_block, remove_free_block,
  pop_free_block, reset,
}
use yoix.Buddy.Ops.{
  align_up, align_down, grow_order, order_from_pages, fit_order, add_range, split_block, take_block,
  search_lists, allocate_block, alloc_pages, alloc_page, coalesce, free_block, free_pages,
}
use yoix.Buddy.Chain.{Chain, end, link, Chain-cast}
use yoix.Buddy.Pages.{Shape}
use yoix.Buddy.Rep.{Rep, ListRep}
use yoix.Buddy.Init.{MemmapEntry, MemmapResponse, init}
use yoix.Buddy.Laws.Rounding.{order_from_pages-Least, align_up-page, align_down-page}
use yoix.Buddy.Laws.Allocate.{Allocated, AllocResult, allocate_block-Result}
use yoix.Buddy.Laws.AllocPages.{
  PagesResult, alloc_pages-Result, alloc_pages-refused, alloc_page-found,
}
use yoix.Buddy.Laws.Free.{Block, Freed, free_block-Freed}
use yoix.Buddy.Laws.FreePages.{free_pages-Freed, free_pages-twice, alloc_pages-free_pages}
use yoix.Buddy.Laws.AddRange.{Added, Fit, fit_order-Fit, add_range-Added}
use yoix.Buddy.Laws.Reset.{reset-IsValid}
use yoix.Buddy.Laws.Memmap.{covers, covered, Apart, covers-usable}
use yoix.Buddy.Laws.Init.{init-IsValid}
use yoix.Buddy.Valid.{IsValid, status, free}

-- One free block of four pages, at frame 4; every other page is reserved.
abbrev pub sample : Buddy
sample = record {
  page_state = λ i. if i == 4 then 2 else if leb 5 i && ltb i 8 then free_body else reserved;
  free_list = λ k. if k == 2 then 4 else nil;
  free_next = λ _. nil;
  free_prev = λ _. nil;
}

sample-head : (x : ℕ) → sample.page_state x ≤ max_order → (x ≡ 4) × (sample.page_state x ≡ 2)
sample-head x h = ground arith

sample-size : (x : ℕ) → sample.page_state x ≤ max_order → 2 ^ sample.page_state x ≡ 4
sample-size x h = ap (λ (k : ℕ). 2 ^ k) (sample-head x h).1

sample-Shape : Shape sample.page_state
sample-Shape = record {
  aligned = λ x lt h. (1, omega (arith, sample-size x h, sample-head x h));
  fits = λ x lt h. omega (arith, sample-size x h, sample-head x h);
  body = λ x i lt h lo hi. ground (arith, sample-size x h, sample-head x h);
  owned = λ i lt e. (4, ground arith, omega arith, ground arith);
}

sample-lists : (k : ℕ) → k ≤ max_order → ListRep sample sample.page_state k
sample-lists k le = elim (ℕ_discrete k 2) [
  | yes two ↦ (
    4 ∷ [],
    Chain-cast (ground arith) refl (link (omega arith) refl refl (end refl)),
    λ a. ground arith,
  )
  | no other ↦ ([], end (ground arith), λ a. ground arith)
]

pub sample-IsValid : IsValid sample
sample-IsValid = record { lists = sample-lists; shape = sample-Shape }

-- The allocator after frames 4 to 7 are handed out as one block.
abbrev pub held : Buddy
held = record sample {
  page_state = λ i. if leb 4 i && ltb i 8 then allocated else reserved;
  free_list = λ _. nil;
}

pub held-IsValid : IsValid held
held-IsValid = record {
  lists = λ k le. ([], end refl, λ a. ground arith);
  shape = record {
    aligned = λ x lt h. absurd (ground arith);
    fits = λ x lt h. absurd (ground arith);
    body = λ x i lt h lo hi. absurd (ground arith);
    owned = λ i lt e. absurd (ground arith);
  };
}

pub held-Block : Block held 4 2
held-Block = record { aligned = (1, refl); fits = omega arith; used = λ i lo hi. ground arith }

pub four_pages : order_from_pages 4 ≡ 2
unfolding order_from_pages grow_order
four_pages = refl

pub held-Block_pages : Block held 4 (order_from_pages 4)
held-Block_pages = subst (Block held 4) (sym four_pages) held-Block

abbrev pub result {ℓ κ} : {A : Type ℓ} {S : Type κ} → Option (A × S) → Option A
result none = none
result (some (a, _)) = some a
