-- ===== src/Heap/State.antt =====
-- What kernel/src/memory/heap.c works on: the memory of bytes at virtual addresses, the page allocator,
-- the boot loader's answer to `hhdm_request` and the caches of slab pages. Reading or writing through
-- a NULL pointer is a fault.
use yoix.Base.{ℕ, ◌+◌, ◌-◌, ◌^◌, not, Option, none, some, Prog, check, ◌>>◌, ◌==◌, if◌then◌else◌}
use yoix.Base.Memory.{Memory, read, write}
use yoix.Buddy.State.{Buddy, u64}

-- `object_size` and `partial_pages` are the fields of `heap_caches`, by the index of the cache.
pub record Heap : Type 0 where
  pub memory : Memory
  pub frames : Buddy
  pub hhdm : Option ℕ
  pub object_size : ℕ → ℕ
  pub partial_pages : ℕ → ℕ

abbrev pub magic_small : ℕ
magic_small = 0x534C5542

abbrev pub magic_large : ℕ
magic_large = 0x4C415247

abbrev pub min_object_size : ℕ
min_object_size = 8

abbrev pub class_count : ℕ
class_count = 9

-- `sizeof(heap_slab_page_t)` and the offsets of its fields: `magic` and the three counters are
-- followed by 4 bytes of padding.
abbrev pub slab_header : ℕ
slab_header = 2080

abbrev pub field_magic : ℕ
field_magic = 0

abbrev pub field_object_size : ℕ
field_object_size = 4

abbrev pub field_total_objects : ℕ
field_total_objects = 6

abbrev pub field_free_count : ℕ
field_free_count = 8

abbrev pub field_reserved : ℕ
field_reserved = 10

abbrev pub field_free_list : ℕ
field_free_list = 16

abbrev pub field_next : ℕ
field_next = 24

abbrev pub field_bitmap : ℕ
field_bitmap = 32

-- `sizeof(heap_large_header_t)` and the offset of `page_count`.
abbrev pub large_header : ℕ
large_header = 8

abbrev pub field_page_count : ℕ
field_page_count = 4

abbrev pub update : (ℕ → ℕ) → ℕ → ℕ → ℕ → ℕ
update f i v j = if j == i then v else f j

-- A word of `k` bytes in a field of the structure at `pointer`.
unfoldable pub load : ℕ → ℕ → ℕ → Prog Heap ℕ
load k pointer field =
    check (not (pointer == 0)) >> λ h. some (read k h.memory (pointer + field), h)

unfoldable pub store : ℕ → ℕ → ℕ → ℕ → Prog Heap (Unit {0})
store k pointer field v = check (not (pointer == 0)) >> λ h.
    some (tt, record h { memory = write k h.memory (pointer + field) v })

abbrev pub with_frames : {A : Type 0} → Heap → Option (A × Buddy) → Option (A × Heap)
with_frames h none = none
with_frames h (some (a, frames')) = some (a, record h { frames = frames' })

-- A call of the page allocator.
unfoldable pub on_frames : {A : Type 0} → Prog Buddy A → Prog Heap A
on_frames call h = with_frames h (call h.frames)

abbrev pub to_virt : Option ℕ → ℕ → ℕ
to_virt none phys = 0
to_virt (some offset) phys = u64 (phys + offset)

unfoldable pub phy_to_virt : ℕ → Prog Heap ℕ
phy_to_virt phys h = some (to_virt h.hhdm phys, h)

abbrev pub to_phys : Option ℕ → ℕ → ℕ
to_phys none virt = 0
to_phys (some offset) virt = u64 (virt + 2 ^ 64 - offset)

abbrev pub partial_pages_of : ℕ → Prog Heap ℕ
partial_pages_of index h = some (h.partial_pages index, h)

abbrev pub object_size_of : ℕ → Prog Heap ℕ
object_size_of index h = some (h.object_size index, h)

abbrev pub set_partial_pages : ℕ → ℕ → Prog Heap (Unit {0})
set_partial_pages index phys h =
    some (tt, record h { partial_pages = update h.partial_pages index phys })

abbrev pub set_object_size : ℕ → ℕ → Prog Heap (Unit {0})
set_object_size index size h = some (tt, record h { object_size = update h.object_size index size })
