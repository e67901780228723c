-- ===== src/Heap/Laws/Caches.antt =====
-- Caches whose slab pages have all their objects free.
use yoix.Base.{
  ℕ, ◌+◌, ◌*◌, ◌-◌, ◌/◌, ◌%◌, ◌^◌, ◌≤◌, ◌<◌, ◌≡◌, ◌≢◌, refl, ap, ◌∙◌, ◌⊎◌, true, false, none, some,
  arith, ◌==◌, le→not-ltb, eq→==,
}
use native.Mathlib.Nat.{mul-mod_left, pow-le-pow_right}
use yoix.Base.Memory.{read, read-cong}
use yoix.Buddy.State.{max_phys, page_size, u64}
use yoix.Buddy.Pages.{pow-pos}
use yoix.Buddy.Valid.{status, free}
use yoix.Heap.State.{
  Heap, slab_header, class_count, field_object_size, field_free_list, field_total_objects,
}
use yoix.Heap.Access.{Ready, load-run, phy_to_virt-run}
use yoix.Heap.Slabs.{object_index}
use yoix.Heap.Laws.Format.Header.{Fields, Fields-cong}
use yoix.Heap.Laws.Format.Links.{link}
use yoix.Heap.Laws.Format.Page.{objects_of, object_room}
use yoix.Heap.Ops.{take_object, alloc_from_slab}

-- The page at the physical address `p` is not free, and is a slab page with all its objects free: its header
-- counts as many free objects as fit, its bitmap is clear and its free list links all objects.
pub record Fresh (offset : ℕ) (h : Heap) (size p : ℕ) : Type 0 where
  pub in_memory : p < max_phys
  pub whole : p % page_size ≡ 0
  pub used : status (h.frames.page_state (p / page_size)) ≢ free
  pub fields : Fields (p + offset) size (objects_of size) h.memory
  pub links :
      (i : ℕ)
      → i < objects_of size
      → read 8 h.memory (p + offset + slab_header + i * size)
        ≡ link (p + offset) size (objects_of size) i

-- It is one in any heap that has the same bytes in the page.
pub Fresh-cong :
    {offset : ℕ} {h h' : Heap} (size p : ℕ)
    → 8 ≤ size
    → ((b : ℕ) → p + offset ≤ b → b < p + offset + page_size → h'.memory b ≡ h.memory b)
    → status (h'.frames.page_state (p / page_size)) ≢ free
    → Fresh offset h size p
    → Fresh offset h' size p
Fresh-cong {offset} {h} {h'} size p word same used f = record {
  in_memory = f.in_memory;
  whole = f.whole;
  used = used;
  fields = Fields-cong (λ b lo hi. same b lo (omega (arith, hi))) f.fields;
  links = λ i lt.
      read-cong 8 h'.memory h.memory (p + offset + slab_header + i * size)
        (λ b lo hi. same b (omega (arith, lo)) (omega (arith, hi, object_room size i lt word)))
      ∙ f.links i lt;
}

-- The caches have the sizes of their classes, and each has no page or a fresh one.
pub record Caches (offset : ℕ) (h : Heap) : Type 0 where
  pub ready : Ready offset h
  pub sizes : (i : ℕ) → i < class_count → h.object_size i ≡ 8 * 2 ^ i
  pub pages :
      (i : ℕ)
      → i < class_count
      → (h.partial_pages i ≡ 0) ⊎ Fresh offset h (8 * 2 ^ i) (h.partial_pages i)

-- The address of an object is none that has an index: `object_index` asks for an offset that is not
-- a multiple of the object size.
pub object_index-none :
    (page size k : ℕ) (h : Heap)
    → 0 < page
    → page + page_size ≤ 2 ^ 64
    → 0 < size
    → read 2 h.memory (page + field_object_size) ≡ size
    → object_index (page + slab_header + k * size) page page h ≡ some (none, h)
unfolding object_index
object_index-none page size k h pos room some_size e =
    rw
      (
        le→not-ltb (page + slab_header + k * size) (u64 (page + slab_header)) (omega arith),
        load-run 2 page field_object_size h pos,
        load-run 2 page field_total_objects h pos,
        e,
        nonzero,
        multiple,
      )
      refl
  where
    nonzero : (size == 0) ≡ false
    nonzero = ground arith

    start : page + slab_header + k * size - u64 (page + slab_header) ≡ k * size
    start = omega arith

    multiple : ((page + slab_header + k * size - u64 (page + slab_header)) % size == 0) ≡ true
    multiple = rw start (eq→== (k * size % size) 0 (mul-mod_left k size))

pub class_bounds : (i : ℕ) → i < class_count → (8 ≤ 8 * 2 ^ i) × (8 * 2 ^ i < 2 ^ 16)
class_bounds i lt =
    let up : i ≤ 8 = omega arith in
    (omega (arith, pow-pos i), omega (arith, pow-le-pow_right {n = 2} (omega arith) up))

module _ {offset : ℕ} where
  pub alloc_from_slab-null :
      (h : Heap) (i size : ℕ)
      → Ready offset h
      → 0 < size
      → Fresh offset h size (h.partial_pages i)
      → alloc_from_slab i h ≡ some (0, h)
  unfolding alloc_from_slab take_object
  alloc_from_slab-null h i size ready some_size fresh =
      rw
        (
          phy_to_virt-run h (h.partial_pages i) ready.mapped ready.window fresh.in_memory,
          nonzero,
          load-run 8 page field_free_list h pos,
          fresh.fields.free_list,
          object,
          index,
        )
        refl
    where
      page : ℕ
      page = h.partial_pages i + offset

      pos : 0 < h.partial_pages i + offset
      pos = omega (arith, ready.some_offset)

      nonzero : (h.partial_pages i + offset == 0) ≡ false
      nonzero = ground (arith, pos)

      object : (h.partial_pages i + offset + slab_header == 0) ≡ false
      object = ground (arith, pos)

      index :
          object_index
            (h.partial_pages i + offset + slab_header)
            (h.partial_pages i + offset)
            (h.partial_pages i + offset)
            h
          ≡ some (none, h)
      index =
          ap (λ a. object_index a (h.partial_pages i + offset) (h.partial_pages i + offset) h)
            (omega arith)
          ∙ object_index-none (h.partial_pages i + offset) size 0 h pos
              (omega (arith, ready.window, fresh.in_memory, fresh.whole)) some_size
              fresh.fields.object_size
