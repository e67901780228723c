-- ===== src/Heap/Examples.antt =====
-- A heap over four free pages of memory, mapped at 1 MB.
use yoix.Base.{List, [], ◌∷◌, ◌==◌, if◌then◌else◌, ℕ, ◌≡◌, refl, Option, some, none, arith}
use yoix.Buddy.Valid.{status}
use yoix.Buddy.Examples.{sample, sample-IsValid}
use yoix.Base.Memory.{Memory, read, write}
use yoix.Buddy.State.{block_size}
use yoix.Buddy.Blocks.{
  fill_state, mark_block_free, mark_block_allocated, add_free_block, pop_free_block,
}
use yoix.Buddy.Ops.{
  grow_order, order_from_pages, split_block, take_block, search_lists, allocate_block, alloc_pages,
}
use yoix.Heap.State.{Heap, load, store, on_frames, phy_to_virt}
use yoix.Heap.Access.{Ready}
use yoix.Heap.Slabs.{class_from, cache_index, format_slab, alloc_slab_page}
use yoix.Heap.Ops.{heap_init, alloc_large, kmalloc, kfree}
use yoix.Heap.Laws.Large.{LargeResult, kmalloc-large}
use yoix.Heap.Laws.LargeFree.{kmalloc-kfree}
use yoix.Heap.Laws.Format.Page.{Formatted, format_slab-Formatted}
use yoix.Heap.Laws.Slab.{SlabResult, alloc_slab_page-Result}
use yoix.Heap.Laws.Caches.{Caches}
use yoix.Heap.Slabs.{remove_slab_from_cache, insert_slab_into_cache}
use yoix.Heap.Laws.Lists.{IsPage, end, page, set_next}
use yoix.Heap.Laws.Lists.Remove.{CacheList}
use yoix.Heap.Laws.Lists.Steps.{ListStep, remove_slab_from_cache-erase, insert_slab_into_cache-cons}
use yoix.Heap.Laws.Small.{heap_init-Caches}
use yoix.Heap.Laws.Requests.{kmalloc_all, Answers, kmalloc_all-Answers}

abbrev offset : ℕ
offset = 0x100000

abbrev empty_heap : Heap
empty_heap = record {
  memory = λ _. 0;
  frames = sample;
  hhdm = some offset;
  object_size = λ _. 0;
  partial_pages = λ _. 0;
}

empty_heap-Ready : Ready offset empty_heap
empty_heap-Ready = record {
  mapped = refl;
  some_offset = omega arith;
  whole_pages = omega arith;
  window = omega arith;
  valid = sample-IsValid;
}

kmalloc-large_example : LargeResult offset empty_heap 5000 (kmalloc 5000 empty_heap)
kmalloc-large_example = kmalloc-large 5000 empty_heap-Ready (omega arith) (omega arith)

heap_init-Caches_example :
    (h' : Heap) × (heap_init empty_heap ≡ some (tt, h'))
    × Caches offset h'
    × (h'.memory ≡ empty_heap.memory)
    × (h'.frames ≡ empty_heap.frames)
heap_init-Caches_example = heap_init-Caches empty_heap-Ready

alloc_slab_page-Result_example : SlabResult offset 64 empty_heap (alloc_slab_page 64 empty_heap)
alloc_slab_page-Result_example =
    alloc_slab_page-Result empty_heap empty_heap-Ready 64 (omega arith) (omega arith)

format_slab-Formatted_example :
    (m' : Memory) × (format_slab 64 0x104000 empty_heap
      ≡ some (tt, record empty_heap { memory = m' }))
    × Formatted 0x104000 64 empty_heap.memory m'
format_slab-Formatted_example =
    format_slab-Formatted 0x104000 64 empty_heap (omega arith) (omega arith) (omega arith)
      (omega arith)

-- The heap once `heap_init` has run.
abbrev started : Heap
started = (heap_init-Caches empty_heap-Ready).0

started-Caches : Caches offset started
started-Caches = (heap_init-Caches empty_heap-Ready).2

kmalloc_all-Answers_example :
    (ps : List ℕ) × (h' : Heap) × (kmalloc_all (100 ∷ 5000 ∷ 0 ∷ 2048 ∷ []) started ≡ some (ps, h'))
    × Answers (100 ∷ 5000 ∷ 0 ∷ 2048 ∷ []) ps
    × Caches offset h'
kmalloc_all-Answers_example =
    kmalloc_all-Answers (100 ∷ 5000 ∷ 0 ∷ 2048 ∷ []) started started-Caches
      (omega arith, (omega arith, (omega arith, (omega arith, tt))))

-- A request of two pages gets the lower half of the block at frame 4.
abbrev served : Option (ℕ × Heap) → Heap
served none = empty_heap
served (some (p, h)) = h

kmalloc_runs : kmalloc 5000 empty_heap ≡ some (0x104008, served (kmalloc 5000 empty_heap))
unfolding kmalloc cache_index class_from alloc_large on_frames load store phy_to_virt alloc_pages
    order_from_pages grow_order allocate_block search_lists take_block pop_free_block split_block
    add_free_block mark_block_free mark_block_allocated fill_state block_size
kmalloc_runs = refl

kmalloc-kfree_example :
    (h'' : Heap) × (kfree 0x104008 (served (kmalloc 5000 empty_heap)) ≡ some (tt, h''))
    × Ready offset h''
    × ((i : ℕ) → status (h''.frames.page_state i) ≡ status (empty_heap.frames.page_state i))
kmalloc-kfree_example =
    kmalloc-kfree 5000 0x104008 empty_heap-Ready (omega arith) (omega arith) kmalloc_runs
      (omega arith) (omega arith)

-- Two slab pages in the list of the cache of 64 bytes.
abbrev chained : Heap
chained = record empty_heap {
  memory = set_next offset 0x5000 0x4000 (λ _. 0);
  partial_pages = λ i. if i == 3 then 0x5000 else 0;
}

chained-Ready : Ready offset chained
chained-Ready = record {
  mapped = refl;
  some_offset = omega arith;
  whole_pages = omega arith;
  window = omega arith;
  valid = sample-IsValid;
}

low-IsPage : IsPage 0x4000
low-IsPage = record { real = omega arith; in_memory = omega arith; whole = omega arith }

high-IsPage : IsPage 0x5000
high-IsPage = record { real = omega arith; in_memory = omega arith; whole = omega arith }

chained-CacheList : CacheList offset 3 (0x5000 ∷ 0x4000 ∷ []) chained
unfolding read write
chained-CacheList = page high-IsPage (omega arith, tt) (page low-IsPage tt (end refl))

remove_slab_from_cache-erase_example :
    (h' : Heap) × (remove_slab_from_cache 3 0x4000 chained ≡ some (tt, h'))
    × ListStep offset 3 0x4000 (0x5000 ∷ 0x4000 ∷ []) (0x5000 ∷ []) chained h'
remove_slab_from_cache-erase_example =
    remove_slab_from_cache-erase 3 0x4000 (0x5000 ∷ 0x4000 ∷ []) chained-Ready chained-CacheList

insert_slab_into_cache-cons_example :
    (h' : Heap) × (insert_slab_into_cache 3 0x7000 chained ≡ some (tt, h'))
    × ListStep offset 3 0x7000 (0x5000 ∷ 0x4000 ∷ []) (0x7000 ∷ 0x5000 ∷ 0x4000 ∷ []) chained h'
insert_slab_into_cache-cons_example =
    insert_slab_into_cache-cons 3 0x7000 (0x5000 ∷ 0x4000 ∷ []) chained-Ready chained-CacheList
      (record { real = omega arith; in_memory = omega arith; whole = omega arith })
      (omega arith, (omega arith, tt))
