-- ===== src/Heap/Laws/Format/Page.antt =====
-- `heap_alloc_slab_page` on the page that it has got.
use yoix.Base.{
  ℕ, ◌+◌, ◌*◌, ◌-◌, ◌/◌, ◌^◌, ◌≤◌, ◌<◌, ◌≡◌, refl, ◌∙◌, inl, ◌⊎◌, arith, ◌==◌, some, false,
}
use native.Mathlib.Nat.{mul-div-le, mul-le-mul_left, mul-le-mul_right, add-mul}
use yoix.Base.Memory.{Memory, read, write, read-write}
use yoix.Buddy.State.{page_size}
use yoix.Heap.State.{
  Heap, magic_small, slab_header, field_object_size, field_total_objects, field_free_count,
  field_reserved, field_free_list, field_next,
}
use yoix.Heap.Access.{load-run, store-run, store-first}
use yoix.Heap.Slabs.{u16, format_slab, link_objects}
use yoix.Heap.Laws.Format.Bitmap.{cleared, clear_bitmap-run}
use yoix.Heap.Laws.Format.Links.{link, link_objects-Linked}
use yoix.Heap.Laws.Format.Header.{
  counters, headers, Fields, Fields-cong, headers-outside, headers-Fields,
}

-- How many objects of a size a page holds behind its header.
abbrev pub objects_of : ℕ → ℕ
objects_of size = (page_size - slab_header) / size

-- A word in front of each object lies in the page.
pub object_room :
    (size i : ℕ) → i < objects_of size → 8 ≤ size → slab_header + i * size + 8 ≤ page_size
object_room size i lt word =
    let above : (i + 1) * size ≤ objects_of size * size = mul-le-mul_right {m = i + 1} size lt' in
    omega (arith, mul-div-le (page_size - slab_header) size, above, add-mul i 1 size, word)
  where
    lt' : i + 1 ≤ objects_of size
    lt' = omega (arith, lt)

-- The page at `page` is a slab page with all its objects free, and no other byte has changed.
pub record Formatted (page size : ℕ) (m m' : Memory) : Type 0 where
  pub fields : Fields page size (objects_of size) m'
  pub links :
      (i : ℕ)
      → i < objects_of size
      → read 8 m' (page + slab_header + i * size) ≡ link page size (objects_of size) i
  pub outside : (b : ℕ) → (b < page) ⊎ (page + page_size ≤ b) → m' b ≡ m b

module _ (page size : ℕ) (h : Heap) (pos : 0 < page) (room : page + page_size ≤ 2 ^ 64)
    (word : 8 ≤ size) (small : size < 2 ^ 16) where
  total_size : objects_of size * size ≤ page_size - slab_header
  total_size = omega (arith, mul-div-le (page_size - slab_header) size)

  total_lt : objects_of size < 2 ^ 16
  total_lt = omega (arith, mul-le-mul_left (objects_of size) word, total_size)

  total_eq : u16 ((page_size - slab_header) / size) ≡ objects_of size
  total_eq = omega (arith, total_lt)

  abbrev with_memory : Memory → Heap
  with_memory m = record h { memory = m }

  abbrev marked : Memory
  marked = write 4 h.memory page magic_small

  abbrev sized : Memory
  sized = write 2 marked (page + field_object_size) size

  abbrev totalled : Memory
  totalled = write 2 sized (page + field_total_objects) (objects_of size)

  abbrev counted : Memory
  counted = write 2 totalled (page + field_free_count) (objects_of size)

  abbrev zeroed_word : Memory
  zeroed_word = write 2 counted (page + field_reserved) 0

  abbrev unlinked : Memory
  unlinked = write 8 zeroed_word (page + field_next) 0

  format_slab-headers :
      format_slab size page h
      ≡ link_objects
          (objects_of size)
          0
          (page + slab_header)
          size
          page
          (with_memory (headers page size (objects_of size) h.memory))
  unfolding format_slab headers counters
  format_slab-headers =
      rw
        (
          nonzero,
          store-first 4 page magic_small h pos,
          store-run 2 page field_object_size size (with_memory marked) pos,
          total_eq,
          store-run 2 page field_total_objects (objects_of size) (with_memory sized) pos,
          load-run 2 page field_total_objects (with_memory totalled) pos,
          read-write 2 sized (page + field_total_objects) (objects_of size) total_lt,
          store-run 2 page field_free_count (objects_of size) (with_memory totalled) pos,
          store-run 2 page field_reserved 0 (with_memory counted) pos,
          store-run 8 page field_next 0 (with_memory zeroed_word) pos,
          clear_bitmap-run 2048 0 page (with_memory unlinked) pos,
          store-run 8 page field_free_list (page + slab_header)
              (with_memory (cleared 2048 0 page unlinked)) pos,
        )
        refl
    where
      nonzero : (size == 0) ≡ false
      nonzero = ground arith

  -- With an object size of 8 or more a page is formatted: its header counts as many objects as fit
  -- behind it, all of them free and linked from the first to the last, and no byte outside the
  -- page changes.
  pub format_slab-Formatted :
      (m' : Memory) × (format_slab size page h ≡ some (tt, record h { memory = m' }))
      × Formatted page size h.memory m'
  format_slab-Formatted =
      let total : ℕ = objects_of size in
      let fields = headers-Fields page size total h.memory small total_lt room in
      let (m', run, linked) =
        link_objects-Linked page size total pos room word total_size total_lt total 0
          (page + slab_header) (with_memory (headers page size total h.memory)) (omega arith)
          (λ lt. omega arith) fields.total_objects in
      (
        m',
        format_slab-headers ∙ run,
        record {
          fields = Fields-cong (λ b lo hi. linked.outside b (inl (omega arith))) fields;
          links = λ i lt. linked.links i (omega arith) lt;
          outside = λ b out.
              linked.outside b (ground (arith, out))
              ∙ headers-outside page size total h.memory b (ground (arith, out));
        },
      )
