-- ===== src/Heap/Slabs.antt =====
-- kernel/src/memory/heap.c: size classes, the bitmap of objects, the lists of slab pages and new slab
-- pages. An `int` that is -1 or an index is an `Option`.
use yoix.Base.{
  ℕ, zero, suc, ◌+◌, ◌-◌, ◌/◌, ◌%◌, ◌^◌, Option, none, some, List, [], ◌∷◌, Prog, pure, fault,
  ◌>>=◌, ◌>>◌, ltb, leb, ◌==◌, if◌then◌else◌,
}
use yoix.Buddy.State.{invalid_address, page_size, max_pages, u64}
use yoix.Buddy.Ops.{alloc_page, free_page}
use yoix.Heap.State.{
  Heap, magic_small, min_object_size, slab_header, field_magic, field_object_size,
  field_total_objects, field_free_count, field_reserved, field_free_list, field_next, field_bitmap,
  load, store, on_frames, phy_to_virt, partial_pages_of, set_partial_pages,
}

abbrev pub u16 : ℕ → ℕ
u16 n = n % 2 ^ 16

abbrev pub cache_sizes : List ℕ
cache_sizes = 8 ∷ 16 ∷ 32 ∷ 64 ∷ 128 ∷ 256 ∷ 512 ∷ 1024 ∷ 2048 ∷ []

unfoldable pub get_bit : ℕ → ℕ
get_bit index = index % 64

unfoldable pub get_offset : ℕ → ℕ
unfolding get_bit
get_offset index = u64 (2 ^ get_bit index)

unfoldable pub get_array : ℕ → ℕ
get_array index = index / 64

-- The loop of `heap_cache_index` from `index` on.
unfoldable pub class_from : ℕ → List ℕ → ℕ → Option ℕ
class_from index [] rounded = none
class_from index (size ∷ sizes) rounded =
    let rest = class_from (index + 1) sizes rounded in if leb rounded size then some index else rest

unfoldable pub cache_index : ℕ → Option ℕ
cache_index size =
    class_from 0 cache_sizes (if ltb size min_object_size then min_object_size else size)

-- A remainder or a quotient by `page->object_size` that is 0 is a fault.
unfoldable pub object_index : ℕ → ℕ → ℕ → Prog Heap (Option ℕ)
object_index ptr virt_page page = if ltb ptr (u64 (virt_page + slab_header)) then pure none else (do
  size ← load 2 page field_object_size
  total ← load 2 page field_total_objects
  let offset = ptr - u64 (virt_page + slab_header)
  if size == 0
      then fault
      else if offset % size == 0
      then pure none
      else if leb total (offset / size)
      then pure none
      else pure (some (offset / size)))

-- The loop of `heap_remove_slab_from_cache`, on fuel. Out of fuel is a fault.
unfoldable pub remove_from : ℕ → ℕ → ℕ → ℕ → ℕ → Prog Heap (Unit {0})
remove_from zero index slab_phys prev current = if current == 0 then pure tt else fault
remove_from (suc fuel) index slab_phys prev current = if current == 0 then pure tt else (do
  page ← phy_to_virt current
  if page == 0
      then pure tt
      else if current == slab_phys
      then (do
        next ← load 8 page field_next
        if prev == 0 then (do set_partial_pages index next; store 8 page field_next 0) else (do
          prev_page ← phy_to_virt prev
          if prev_page == 0
              then pure tt
              else (do store 8 prev_page field_next next; store 8 page field_next 0)))
      else (do next ← load 8 page field_next; remove_from fuel index slab_phys current next))

-- A list without repetition has at most one slab page for each page of memory.
unfoldable pub remove_slab_from_cache : ℕ → ℕ → Prog Heap (Unit {0})
remove_slab_from_cache index slab_phys = do
  current ← partial_pages_of index
  remove_from max_pages index slab_phys 0 current

unfoldable pub insert_slab_into_cache : ℕ → ℕ → Prog Heap (Unit {0})
insert_slab_into_cache index slab_phys = do
  page ← phy_to_virt slab_phys
  if page == 0 then pure tt else (do
    partial ← partial_pages_of index
    store 8 page field_next partial
    set_partial_pages index slab_phys)

-- `memset(page->bitmap, 0, sizeof(page->bitmap))`, with the bytes left.
unfoldable pub clear_bitmap : ℕ → ℕ → ℕ → Prog Heap (Unit {0})
clear_bitmap zero i page = pure tt
clear_bitmap (suc left) i page = do
  store 1 page (field_bitmap + i) 0
  clear_bitmap left (i + 1) page

-- The loop that links the objects, with the rounds left: the bound is read again in each round.
unfoldable pub link_objects : ℕ → ℕ → ℕ → ℕ → ℕ → Prog Heap (Unit {0})
link_objects zero index buffer object_size page = do
  total ← load 2 page field_total_objects
  if ltb index total then fault else pure tt
link_objects (suc left) index buffer object_size page = do
  total ← load 2 page field_total_objects
  if ltb index total
      then if ltb (index + 1) total
        then (do
          store 8 buffer 0 (buffer + object_size)
          link_objects left (u16 (index + 1)) (buffer + object_size) object_size page)
        else (do store 8 buffer 0 0; link_objects left (u16 (index + 1)) buffer object_size page)
      else pure tt

-- The fields and the objects of a slab page. Dividing by an object size of 0 is a fault.
unfoldable pub format_slab : ℕ → ℕ → Prog Heap (Unit {0})
format_slab object_size page = if object_size == 0 then fault else (do
  store 4 page field_magic magic_small
  store 2 page field_object_size object_size
  store 2 page field_total_objects (u16 ((page_size - slab_header) / object_size))
  total ← load 2 page field_total_objects
  store 2 page field_free_count total
  store 2 page field_reserved 0
  store 8 page field_next 0
  clear_bitmap 2048 0 page
  store 8 page field_free_list (page + slab_header)
  link_objects total 0 (page + slab_header) object_size page)

unfoldable pub alloc_slab_page : ℕ → Prog Heap ℕ
alloc_slab_page object_size = do
  phys ← on_frames alloc_page
  if phys == invalid_address then pure invalid_address else (do
    page_virt ← phy_to_virt phys
    if page_virt == 0
        then (do on_frames (free_page phys); pure invalid_address)
        else (do format_slab object_size page_virt; pure phys))
