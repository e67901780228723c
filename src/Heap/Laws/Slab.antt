-- ===== src/Heap/Laws/Slab.antt =====
-- `heap_alloc_slab_page`.
use yoix.Base.{ℕ, ◌+◌, ◌*◌, ◌^◌, ◌≤◌, ◌<◌, ◌≡◌, refl, sym, subst, false, Option, some, arith, ◌==◌}
use yoix.Base.Memory.{Memory}
use yoix.Buddy.State.{Buddy, max_pages, page_size, invalid_address}
use yoix.Buddy.Ops.{alloc_page}
use yoix.Buddy.Laws.Allocate.{Allocated, Exhausted}
use yoix.Buddy.Laws.AllocPages.{PagesResult, block, refused, alloc_page-Result}
use yoix.Heap.State.{Heap}
use yoix.Heap.Access.{Ready, on_frames-run, phy_to_virt-run}
use yoix.Heap.Slabs.{alloc_slab_page, format_slab}
use yoix.Heap.Laws.Format.Page.{Formatted, format_slab-Formatted}

-- A page that was free and is now a slab page with all its objects free, or nothing.
pub data SlabResult (offset size : ℕ) (h : Heap) : Option (ℕ × Heap) → Type 0 where
  none_free : Exhausted h.frames 0 → SlabResult offset size h (some (invalid_address, h))
  slab :
      {x : ℕ} {s' : Buddy} {m' : Memory}
      → Allocated h.frames 0 x s'
      → Formatted (x * page_size + offset) size h.memory m'
      → SlabResult offset size h (some (x * page_size, record h { frames = s'; memory = m' }))

module _ {offset : ℕ} (h : Heap) (ready : Ready offset h) (size : ℕ) (word : 8 ≤ size)
    (small : size < 2 ^ 16) where
  slab-none :
      alloc_page h.frames ≡ some (invalid_address, h.frames)
      → alloc_slab_page size h ≡ some (invalid_address, h)
  unfolding alloc_slab_page
  slab-none e = rw (on_frames-run alloc_page h e) refl

  slab-got :
      (x : ℕ) (s' : Buddy) (m' : Memory)
      → x < max_pages
      → alloc_page h.frames ≡ some (x * page_size, s')
      → format_slab size (x * page_size + offset) (record h { frames = s' })
        ≡ some (tt, record h { frames = s'; memory = m' })
      → alloc_slab_page size h ≡ some (x * page_size, record h { frames = s'; memory = m' })
  unfolding alloc_slab_page
  slab-got x s' m' lt e run =
      rw
        (
          on_frames-run alloc_page h e,
          real,
          phy_to_virt-run (record h { frames = s' }) (x * page_size) ready.mapped ready.window
              (omega arith),
          nonzero,
          run,
        )
        refl
    where
      real : (x * page_size == invalid_address) ≡ false
      real = ground arith

      nonzero : (x * page_size + offset == 0) ≡ false
      nonzero = ground (arith, ready.some_offset)

  -- A new slab page lies in a page that was free; it is formatted, and nothing else changes. Without a
  -- free page there is none, and nothing changes.
  pub alloc_slab_page-Result : SlabResult offset size h (alloc_slab_page size h)
  alloc_slab_page-Result = go (alloc_page-Result ready.valid) refl
    where
      go :
          {r : Option (ℕ × Buddy)}
          → PagesResult h.frames 0 r
          → alloc_page h.frames ≡ r
          → SlabResult offset size h (alloc_slab_page size h)
      go (refused none_left) e =
          subst (SlabResult offset size h) (sym (slab-none e)) (none_free none_left)
      go (block {x} {s'} a) e =
          let lt : x < max_pages = omega (arith, a.fits) in
          let (m', run, formatted) =
            format_slab-Formatted (x * page_size + offset) size (record h { frames = s' })
              (omega (arith, ready.some_offset)) (omega (arith, ready.window)) word small in
          subst (SlabResult offset size h) (sym (slab-got x s' m' lt e run)) (slab a formatted)
