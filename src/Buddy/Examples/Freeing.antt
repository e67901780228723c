-- ===== src/Buddy/Examples/Freeing.antt =====
-- Freeing at concrete states.
use yoix.Base.{ℕ, ◌*◌, ◌≡◌, refl, sym, subst, Option, some, none, arith}
use yoix.Buddy.State
use yoix.Buddy.State.{Buddy, nil, max_pages, max_order, reserved, free_body, allocated}
use yoix.Buddy.State.{block_size}
use yoix.Buddy.Blocks.{
  fill_state, mark_block_free, mark_block_allocated, add_free_block, remove_free_block,
  pop_free_block,
}
use yoix.Buddy.Ops.{
  grow_order, order_from_pages, split_block, take_block, search_lists, allocate_block, alloc_pages,
  coalesce, free_block, free_pages, free_page,
}
use yoix.Buddy.Laws.Free.{Freed, Merged, free_block-Freed}
use yoix.Buddy.Laws.FreePages.{free_pages-Freed, free_pages-twice, alloc_pages-free_pages}
use yoix.Buddy.Laws.FreePage.{PageFreed, free_page-PageFreed}
use yoix.Buddy.Valid.{IsValid, status}
use yoix.Buddy.Examples.{
  sample, held, sample-IsValid, held-IsValid, held-Block, held-Block_pages, four_pages,
}

-- Allocating a page and freeing it merges the block again.
merged_head : Option (ℕ × Buddy) → Option ℕ
merged_head none = none
merged_head (some (x, s)) = elim (free_block x 0 s) [
  | none ↦ none
  | some (_, s') ↦ some (s'.page_state 4)
]

free_merges : merged_head (allocate_block 0 sample) ≡ some 2
unfolding merged_head free_block coalesce remove_free_block allocate_block search_lists take_block
    pop_free_block split_block add_free_block mark_block_free mark_block_allocated fill_state
    block_size
free_merges = refl

free_block-Freed_example :
    (s' : Buddy) × (free_block 4 2 held ≡ some (tt, s')) × Freed held 4 2 s' × Merged 4 2 s'
free_block-Freed_example = free_block-Freed held-IsValid 4 2 (omega arith) held-Block

free_pages-Freed_example :
    (s' : Buddy) × (free_pages (4 * State.page_size) 4 held ≡ some (tt, s'))
    × Freed held 4 (order_from_pages 4) s'
free_pages-Freed_example =
    free_pages-Freed 4 4 held-IsValid (omega arith) (omega arith) (omega arith) held-Block_pages

held-Freed : Freed held 4 (order_from_pages 4) sample
held-Freed =
    subst (λ k. Freed held 4 k sample) (sym four_pages)
      (record {
        valid = sample-IsValid;
        now_free = λ i lo hi. ground arith;
        others = λ i o. ground arith;
      })

free_pages-twice_example : free_pages (4 * State.page_size) 4 sample ≡ some (tt, sample)
free_pages-twice_example =
    free_pages-twice 4 4 4 (omega arith) (omega arith) (omega arith) held-Freed

abbrev after : Option (ℕ × Buddy) → Buddy
after none = sample
after (some (_, s)) = s

-- The block of four pages, handed out for a request of three.
three_pages : alloc_pages 3 sample ≡ some (0x4000, after (alloc_pages 3 sample))
unfolding alloc_pages order_from_pages grow_order allocate_block search_lists take_block
    pop_free_block split_block add_free_block mark_block_free mark_block_allocated fill_state
    block_size
three_pages = refl

alloc_pages-free_pages_example :
    (s'' : Buddy) × (free_pages 0x4000 3 (after (alloc_pages 3 sample)) ≡ some (tt, s''))
    × IsValid s''
    × ((i : ℕ) → status (s''.page_state i) ≡ status (sample.page_state i))
alloc_pages-free_pages_example =
    alloc_pages-free_pages 3 0x4000 sample-IsValid (omega arith) (omega arith) three_pages
      (λ e. absurd (omega (arith, e))) (λ e. absurd (omega (arith, e)))

free_page-PageFreed_example :
    (s' : Buddy) × (free_page 0x4000 held ≡ some (tt, s')) × PageFreed held 0x4000 s'
free_page-PageFreed_example = free_page-PageFreed held-IsValid 0x4000
