-- ===== src/Buddy/Ops.antt =====
-- kernel/src/memory/buddy.c: adding ranges, allocating, freeing and the initialisation from the
-- boot loader's memory map.
use yoix.Base.{
  ℕ, zero, suc, ◌+◌, ◌-◌, ◌*◌, ◌/◌, ◌%◌, ◌^◌, bit_and, bit_xor, Bool, ◌||◌, not, Prog, pure, fault,
  ◌>>=◌, ◌>>◌, ltb, leb, ◌==◌, if◌then◌else◌,
}
use yoix.Buddy.State.{
  Buddy, page_size, max_pages, max_order, invalid_address, nil, allocated, unsplittable_size, u32,
  u64, block_size, read_state, read_list,
}
use yoix.Buddy.Blocks.{mark_block_allocated, add_free_block, remove_free_block, pop_free_block}

-- `~m` on 64 bits is 2 ^ 64 - 1 - m.
unfoldable pub align_up : ℕ → ℕ → ℕ
align_up value alignment =
    bit_and (u64 (u64 (value + alignment) + 2 ^ 64 - 1)) (2 ^ 64 - 1 - (alignment - 1))

unfoldable pub align_down : ℕ → ℕ → ℕ
align_down value alignment = bit_and value (2 ^ 64 - 1 - (alignment - 1))

-- The loop of `buddy_order_from_pages`, with `max_order - order` rounds left.
unfoldable pub grow_order : ℕ → ℕ → ℕ → ℕ → ℕ
grow_order zero size order pages = order
grow_order (suc left) size order pages =
    let rest = grow_order left (u64 (size * 2)) (order + 1) pages in
    if ltb size pages then rest else order

unfoldable pub order_from_pages : ℕ → ℕ
order_from_pages pages = grow_order max_order 1 0 pages

-- Whether `order` is too large for the range, or `frame` is not aligned to it.
unfoldable pub unfit : ℕ → ℕ → ℕ → Bool
unfit frame pages order =
    ltb pages (block_size order) || not (bit_and frame (block_size order - 1) == 0)

-- The inner loop of `buddy_add_range`. Below order 0 the next shift is undefined.
unfoldable pub fit_order : ℕ → ℕ → ℕ → Prog Buddy ℕ
fit_order frame pages zero = if unfit frame pages 0 then fault else pure 0
fit_order frame pages (suc order) =
    let rest = fit_order frame pages order in
    if unfit frame pages (suc order) then rest else pure (suc order)

-- Every round takes a page at least, so `pages` rounds are enough.
unfoldable pub add_range_loop : ℕ → ℕ → ℕ → Prog Buddy (Unit {0})
add_range_loop zero frame pages = if pages == 0 then pure tt else fault
add_range_loop (suc fuel) frame pages = if pages == 0 then pure tt else (do
  order ← fit_order frame pages max_order
  add_free_block frame order
  add_range_loop fuel (u32 (frame + block_size order)) (u32 (pages + 2 ^ 32 - block_size order)))

unfoldable pub add_range : ℕ → ℕ → Prog Buddy (Unit {0})
add_range frame pages = add_range_loop pages frame pages

-- `while (current_order > order)`, with `left` the difference of the two.
unfoldable pub split_block : ℕ → ℕ → ℕ → Prog Buddy (Unit {0})
split_block zero frame order = pure tt
split_block (suc left) frame order = do
  add_free_block (u32 (frame + block_size (order + left))) (order + left)
  split_block left frame order

-- The body of the search loop once a list that is not empty is found.
unfoldable pub take_block : ℕ → ℕ → Prog Buddy ℕ
take_block current_order order = do
  frame ← pop_free_block current_order
  split_block (current_order - order) frame order
  mark_block_allocated frame order
  pure frame

-- The search loop, with the rounds left.
unfoldable pub search_lists : ℕ → ℕ → ℕ → Prog Buddy ℕ
search_lists zero current_order order = pure nil
search_lists (suc left) current_order order =
    let rest = search_lists left (current_order + 1) order in
    do head ← read_list current_order; if head == nil then rest else take_block current_order order

unfoldable pub allocate_block : ℕ → Prog Buddy ℕ
allocate_block order =
    if ltb (u32 (block_size order * page_size)) unsplittable_size || ltb max_order order
    then pure (u32 invalid_address)
    else search_lists (max_order + 1 - order) order order

unfoldable pub alloc_pages : ℕ → Prog Buddy ℕ
alloc_pages pages = if (pages == 0) || ltb (2 ^ max_order) pages then pure invalid_address else (do
  frame ← allocate_block (order_from_pages pages)
  pure (if frame == nil then invalid_address else frame * page_size))

-- The loop of `buddy_free_pages`, with `max_order - order` rounds left: the merged block.
unfoldable pub coalesce : ℕ → ℕ → ℕ → Prog Buddy (ℕ × ℕ)
coalesce zero frame order = pure (frame, order)
coalesce (suc left) frame order =
    let buddy_frame = bit_xor frame (block_size order) in
    let rest = coalesce left (if ltb frame buddy_frame then frame else buddy_frame) (suc order) in
    if leb max_pages buddy_frame then pure (frame, order) else (do
      state ← read_state buddy_frame
      if state == order
          then (do
            removed ← remove_free_block buddy_frame order
            if removed then rest else pure (frame, order))
          else pure (frame, order))

unfoldable pub free_block : ℕ → ℕ → Prog Buddy (Unit {0})
free_block frame order = do
  (merged, merged_order) ← coalesce (max_order - order) frame order
  add_free_block merged merged_order

unfoldable pub free_pages : ℕ → ℕ → Prog Buddy (Unit {0})
free_pages phys_addr pages =
    if (phys_addr == 0) || (phys_addr == invalid_address) || (pages == 0)
    then pure tt
    else if not (phys_addr % page_size == 0)
    then pure tt
    else let frame = u32 (phys_addr / page_size) in
      if leb max_pages frame then pure tt else (do
        state ← read_state frame
        if not (state == allocated) then pure tt else free_block frame (order_from_pages pages))

unfoldable pub alloc_page : Prog Buddy ℕ
alloc_page = alloc_pages 1

unfoldable pub free_page : ℕ → Prog Buddy (Unit {0})
free_page phys_addr = free_pages phys_addr 1
