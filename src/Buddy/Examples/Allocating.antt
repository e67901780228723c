-- ===== src/Buddy/Examples/Allocating.antt =====
-- Allocation at concrete states.
use yoix.Base.{ℕ, ◌*◌, ◌≡◌, refl, some, arith}
use yoix.Buddy.State
use yoix.Buddy.State.{Buddy, nil, max_pages, max_order, reserved, free_body, allocated}
use yoix.Buddy.State.{block_size}
use yoix.Buddy.Blocks.{
  fill_state, mark_block_free, mark_block_allocated, add_free_block, pop_free_block,
}
use yoix.Buddy.Ops.{
  grow_order, order_from_pages, split_block, take_block, search_lists, allocate_block, alloc_pages,
  alloc_page,
}
use yoix.Buddy.Laws.Allocate.{Allocated, AllocResult, allocate_block-Result}
use yoix.Buddy.Laws.AllocPages.{PagesResult, alloc_pages-Result, alloc_page-found}
use yoix.Buddy.Examples.{sample, sample-IsValid, result}

-- Splitting hands out the lowest page, and the upper parts go to their lists.
allocate_runs : result (allocate_block 0 sample) ≡ some 4
unfolding allocate_block search_lists take_block pop_free_block split_block add_free_block
    mark_block_free mark_block_allocated fill_state block_size
allocate_runs = refl

alloc_pages_runs : result (alloc_pages 3 sample) ≡ some 0x4000
unfolding alloc_pages order_from_pages grow_order allocate_block search_lists take_block
    pop_free_block split_block add_free_block mark_block_free mark_block_allocated fill_state
    block_size
alloc_pages_runs = refl

allocate_block-Result_example : AllocResult sample 1 (allocate_block 1 sample)
allocate_block-Result_example = allocate_block-Result sample-IsValid 1 (omega arith)

alloc_pages-Result_example : PagesResult sample (order_from_pages 3) (alloc_pages 3 sample)
alloc_pages-Result_example = alloc_pages-Result 3 sample-IsValid (omega arith) (omega arith)

alloc_page-found_example :
    (x : ℕ) × (s' : Buddy) × (alloc_page sample ≡ some (x * State.page_size, s'))
    × Allocated sample 0 x s'
alloc_page-found_example = alloc_page-found 6 sample-IsValid (omega arith) refl
