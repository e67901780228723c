-- ===== src/Heap/Ops.antt =====
-- kernel/src/memory/heap.c: allocation and freeing.
use yoix.Base.{
  ℕ, ◌+◌, ◌-◌, ◌*◌, ◌/◌, ◌^◌, bit_and, bit_or, Bool, Option, none, some, List, [], ◌∷◌, Prog, pure,
  check, ◌>>=◌, ◌>>◌, ltb, ◌==◌, if◌then◌else◌, not, ◌||◌, true, false,
}
use yoix.Buddy.State.{invalid_address, page_size, u64, u32}
use yoix.Buddy.Ops.{alloc_pages, free_page, free_pages}
use yoix.Heap.State.{
  Heap, magic_small, magic_large, large_header, field_magic, field_object_size, field_total_objects,
  field_free_count, field_free_list, field_bitmap, field_page_count, load, store, on_frames,
  phy_to_virt, to_phys, partial_pages_of, set_partial_pages, object_size_of, set_object_size,
}
use yoix.Heap.Slabs.{
  u16, cache_sizes, get_offset, get_array, cache_index, object_index, remove_slab_from_cache,
  insert_slab_into_cache, alloc_slab_page,
}

-- An index past the end of the bitmap is a fault.
abbrev pub load_bitmap : ℕ → ℕ → Prog Heap ℕ
load_bitmap page i = check (ltb i 256) >> load 8 page (field_bitmap + 8 * i)

abbrev pub store_bitmap : ℕ → ℕ → ℕ → Prog Heap (Unit {0})
store_bitmap page i v = check (ltb i 256) >> store 8 page (field_bitmap + 8 * i) v

-- `heap_alloc_from_cache` once a page and its index of the first free object are known.
unfoldable pub take_object : ℕ → ℕ → ℕ → ℕ → Option ℕ → Prog Heap ℕ
take_object index slab_phys page object none = pure 0
take_object index slab_phys page object (some obj_index) = do
  bits ← load_bitmap page (get_array obj_index)
  store_bitmap page (get_array obj_index) (bit_or bits (get_offset obj_index))
  next ← load 8 object 0
  store 8 page field_free_list next
  count ← load 2 page field_free_count
  store 2 page field_free_count (u16 (count + 2 ^ 16 - 1))
  left ← load 2 page field_free_count
  if left == 0 then (do remove_slab_from_cache index slab_phys; pure object) else pure object

unfoldable pub alloc_from_slab : ℕ → Prog Heap ℕ
alloc_from_slab index = do
  slab_phys ← partial_pages_of index
  page ← phy_to_virt slab_phys
  if page == 0 then pure 0 else (do
    object ← load 8 page field_free_list
    if object == 0 then pure 0 else (do
      obj_index ← object_index object page page
      take_object index slab_phys page object obj_index))

unfoldable pub alloc_from_cache : ℕ → Prog Heap ℕ
alloc_from_cache index = do
  partial ← partial_pages_of index
  if partial == 0
      then (do
        size ← object_size_of index
        slab ← alloc_slab_page size
        if slab == invalid_address
            then pure 0
            else (do set_partial_pages index slab; alloc_from_slab index))
      else alloc_from_slab index

unfoldable pub free_large : ℕ → ℕ → Prog Heap (Unit {0})
free_large header page_phys = do
  magic ← load 4 header field_magic
  if not (magic == magic_large) then pure tt else (do
    page_count ← load 4 header field_page_count
    on_frames (free_pages page_phys page_count))

-- `heap_free_small` from the test of the bitmap on.
unfoldable pub return_object : ℕ → ℕ → ℕ → ℕ → Option ℕ → Prog Heap (Unit {0})
return_object ptr page page_phys obj_index class = do
  bits ← load_bitmap page (get_array obj_index)
  if bit_and bits (get_offset obj_index) == 0 then pure tt else (elim class [
    | none ↦ pure tt
    | some index ↦ (do
      first ← load 8 page field_free_list
      store 8 ptr 0 first
      store 8 page field_free_list ptr
      count ← load 2 page field_free_count
      store 2 page field_free_count (u16 (count + 1))
      marked ← load_bitmap page (get_array obj_index)
      store_bitmap page (get_array obj_index) (bit_and marked (2 ^ 64 - 1 - get_offset obj_index))
      left ← load 2 page field_free_count
      total ← load 2 page field_total_objects
      if left == total
          then (do remove_slab_from_cache index page_phys; on_frames (free_page page_phys))
          else if left == 1
          then insert_slab_into_cache index page_phys
          else pure tt)
  ])

-- With an index of the object, or with none.
unfoldable pub free_object : ℕ → ℕ → ℕ → Option ℕ → Prog Heap (Unit {0})
free_object ptr page page_phys none = pure tt
free_object ptr page page_phys (some obj_index) = do
  size ← load 2 page field_object_size
  return_object ptr page page_phys obj_index (cache_index size)

unfoldable pub free_small : ℕ → ℕ → ℕ → Prog Heap (Unit {0})
free_small ptr page page_phys = do
  magic ← load 4 page field_magic
  if not (magic == magic_small) then pure tt else (do
    page_virt ← phy_to_virt page_phys
    obj_index ← object_index ptr page_virt page
    free_object ptr page page_phys obj_index)

-- The loop of `heap_init` over the sizes that are left.
unfoldable pub init_from : ℕ → List ℕ → Prog Heap (Unit {0})
init_from index [] = pure tt
init_from index (size ∷ sizes) = do
  set_object_size index (u16 size)
  set_partial_pages index 0
  init_from (index + 1) sizes

unfoldable pub heap_init : Prog Heap (Unit {0})
heap_init = init_from 0 cache_sizes

-- A request that no class holds.
unfoldable pub alloc_large : ℕ → Prog Heap ℕ
alloc_large size =
    let pages = u64 (u64 (size + large_header) + page_size - 1) / page_size in
    do
      phys ← on_frames (alloc_pages pages)
      if phys == invalid_address then pure 0 else (do
        virt ← phy_to_virt phys
        if virt == 0 then (do on_frames (free_pages phys pages); pure 0) else (do
          store 4 virt field_magic magic_large
          store 4 virt field_page_count (u32 pages)
          pure (u64 (virt + large_header))))

unfoldable pub kmalloc : ℕ → Prog Heap ℕ
kmalloc size =
    if size == 0
    then pure 0
    else elim (cache_index size) [ some index ↦ alloc_from_cache index | none ↦ alloc_large size ]

abbrev pub is_mapped : Option ℕ → Bool
is_mapped none = false
is_mapped (some _) = true

unfoldable pub kfree : ℕ → Prog Heap (Unit {0})
kfree ptr h =
    if (ptr == 0) || not (is_mapped h.hhdm)
    then some (tt, h)
    else let page_virt = bit_and ptr (2 ^ 64 - page_size) in
      let page_phys = to_phys h.hhdm page_virt in
      (do
        page_start ← phy_to_virt page_phys
        if page_start == 0 then pure tt else (do
          magic ← load 4 page_start field_magic
          if magic == magic_small then free_small ptr page_start page_phys else (do
            magic ← load 4 page_start field_magic
            if magic == magic_large then free_large page_start page_phys else pure tt)))
        h
