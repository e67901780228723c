-- ===== src/Heap/Laws/Large.antt =====
-- Requests that no class holds.
use yoix.Base.{
  ℕ, ◌+◌, ◌*◌, ◌-◌, ◌/◌, ◌^◌, ◌≤◌, ◌<◌, ◌≡◌, refl, sym, ap₂, subst, false, Option, some, arith,
  ◌==◌,
}
use yoix.Base.Memory.{Memory, write}
use yoix.Buddy.State.{Buddy, max_pages, page_size, invalid_address, u64, u32}
use yoix.Buddy.Ops.{order_from_pages, alloc_pages}
use yoix.Buddy.Pages.{pow-pos}
use yoix.Buddy.Laws.Rounding.{order_from_pages-Least}
use yoix.Buddy.Laws.Allocate.{Allocated, Exhausted}
use yoix.Buddy.Laws.AllocPages.{PagesResult, block, refused, alloc_pages-Result}
use yoix.Heap.State.{Heap, magic_large, large_header}
use yoix.Heap.Access.{Ready, store-run, store-first, on_frames-run, phy_to_virt-run}
use yoix.Heap.Ops.{alloc_large, kmalloc}
use yoix.Heap.Laws.Classes.{cache_index-none}

-- The pages of a request with its header, rounded up.
abbrev pub pages_for : ℕ → ℕ
pages_for size = (size + large_header + page_size - 1) / page_size

-- The header in front of the block.
abbrev pub headed : Memory → ℕ → ℕ → Memory
headed m virt pages = write 4 (write 4 m virt magic_large) (virt + 4) pages

-- A block of the page allocator that holds the request behind a header, or NULL.
pub data LargeResult (offset : ℕ) (h : Heap) (size : ℕ) : Option (ℕ × Heap) → Type 0 where
  none_free :
      Exhausted h.frames (order_from_pages (pages_for size))
      → LargeResult offset h size (some (0, h))
  got :
      {x : ℕ} {s' : Buddy}
      → Allocated h.frames (order_from_pages (pages_for size)) x s'
      → size + large_header ≤ 2 ^ order_from_pages (pages_for size) * page_size
      → LargeResult offset h size (
          some (
            x * page_size + offset + large_header,
            record h {
              frames = s';
              memory = headed h.memory (x * page_size + offset) (pages_for size);
            },
          ))

module _ {offset : ℕ} (h : Heap) (ready : Ready offset h) (size : ℕ)
    (small : size + large_header ≤ 2 ^ 30) where
  pages-eq : u64 (u64 (size + large_header) + page_size - 1) / page_size ≡ pages_for size
  pages-eq = omega arith

  alloc_large-none :
      alloc_pages (pages_for size) h.frames ≡ some (invalid_address, h.frames)
      → alloc_large size h ≡ some (0, h)
  unfolding alloc_large
  alloc_large-none e = rw (pages-eq, on_frames-run (alloc_pages (pages_for size)) h e) refl

  alloc_large-got :
      {x : ℕ} {s' : Buddy}
      → x < max_pages
      → alloc_pages (pages_for size) h.frames ≡ some (x * page_size, s')
      → alloc_large size h
        ≡ some (
          x * page_size + offset + large_header,
          record h {
            frames = s';
            memory = headed h.memory (x * page_size + offset) (pages_for size);
          },
        )
  unfolding alloc_large
  alloc_large-got {x} {s'} lt e =
      rw
        (
          pages-eq,
          on_frames-run (alloc_pages (pages_for size)) h e,
          real,
          phy_to_virt-run (record h { frames = s' }) (x * page_size) ready.mapped ready.window
              (omega arith),
          nonzero,
          store-first 4 (x * page_size + offset) magic_large (record h { frames = s' }) pos,
          store-run 4 (x * page_size + offset) 4 (u32 (pages_for size)) first pos,
        )
        (ap₂
          (λ p n.
            some (p, record h { frames = s'; memory = headed h.memory (x * page_size + offset) n }))
          pointer count)
    where
      first : Heap
      first = record h {
        frames = s';
        memory = write 4 h.memory (x * page_size + offset) magic_large;
      }

      pos : 0 < x * page_size + offset
      pos = omega (arith, ready.some_offset)

      real : (x * page_size == invalid_address) ≡ false
      real = ground arith

      nonzero : (x * page_size + offset == 0) ≡ false
      nonzero = ground (arith, pos)

      pointer : u64 (x * page_size + offset + large_header) ≡ x * page_size + offset + large_header
      pointer = omega (arith, ready.window)

      count : u32 (pages_for size) ≡ pages_for size
      count = omega arith

  alloc_large-Result : LargeResult offset h size (alloc_large size h)
  alloc_large-Result =
      go (alloc_pages-Result (pages_for size) ready.valid (omega arith) (omega arith)) refl
    where
      room : size + large_header ≤ 2 ^ order_from_pages (pages_for size) * page_size
      room = omega (arith, order_from_pages-Least (pages_for size) (omega arith))

      go :
          {r : Option (ℕ × Buddy)}
          → PagesResult h.frames (order_from_pages (pages_for size)) r
          → alloc_pages (pages_for size) h.frames ≡ r
          → LargeResult offset h size (alloc_large size h)
      go (block {x} {s'} a) e =
          subst (LargeResult offset h size)
            (sym (
              alloc_large-got (omega (arith, a.fits, pow-pos (order_from_pages (pages_for size))))
                e))
            (got a room)
      go (refused none_left) e =
          subst (LargeResult offset h size) (sym (alloc_large-none e)) (none_free none_left)

-- A request of more than 2048 bytes, up to a gigabyte with its header, gets the memory behind the header
-- of a block of the page allocator that is large enough for both, or NULL when there is none.
pub kmalloc-large :
    {offset : ℕ} {h : Heap} (size : ℕ)
    → Ready offset h
    → 2048 < size
    → size + large_header ≤ 2 ^ 30
    → LargeResult offset h size (kmalloc size h)
unfolding kmalloc
kmalloc-large {offset} {h} size ready large small =
    rw (nonzero, cache_index-none size large) (alloc_large-Result h ready size small)
  where
    nonzero : (size == 0) ≡ false
    nonzero = ground arith
