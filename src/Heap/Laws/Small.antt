-- ===== src/Heap/Laws/Small.antt =====
-- Requests that a class holds, and `heap_init`.
use yoix.Base.{
  ℕ, zero, suc, ◌+◌, ◌*◌, ◌^◌, ◌≤◌, ◌<◌, ◌≡◌, ◌≢◌, refl, ap, ◌∙◌, inl, inr, false, Option, some,
  List, [], ◌∷◌, arith, ◌==◌, same-cases, eq→==, ne→not-==,
}
use yoix.Base.Memory.{Memory}
use yoix.Buddy.State.{Buddy, max_pages, page_size, invalid_address}
use yoix.Buddy.Pages.{pow-pos}
use yoix.Heap.State.{Heap, class_count, update}
use yoix.Heap.Access.{Ready}
use yoix.Heap.Slabs.{u16, cache_sizes, alloc_slab_page, cache_index}
use yoix.Heap.Ops.{init_from, heap_init, alloc_from_slab, alloc_from_cache, kmalloc}
use yoix.Heap.Laws.Classes.{cache_index-Class}
use yoix.Heap.Laws.Slab.{SlabResult, none_free, slab, alloc_slab_page-Result}
use yoix.Heap.Laws.Caches.{Caches, class_bounds, alloc_from_slab-null}
use yoix.Heap.Laws.Filled.{filled, new-Fresh, filled-Caches}

module _ (h : Heap) (i : ℕ) where
  cache-empty :
      h.partial_pages i ≡ 0
      → alloc_slab_page (h.object_size i) h ≡ some (invalid_address, h)
      → alloc_from_cache i h ≡ some (0, h)
  unfolding alloc_from_cache
  cache-empty none_there run = rw (none_there, run) refl

  cache-new :
      (x : ℕ) (s' : Buddy) (m' : Memory)
      → x < max_pages
      → h.partial_pages i ≡ 0
      → alloc_slab_page (h.object_size i) h
        ≡ some (x * page_size, record h { frames = s'; memory = m' })
      → alloc_from_cache i h
        ≡ alloc_from_slab i (record h {
          frames = s';
          memory = m';
          partial_pages = update h.partial_pages i (x * page_size);
        })
  unfolding alloc_from_cache
  cache-new x s' m' lt none_there run = rw (none_there, run, real) refl
    where
      real : (x * page_size == invalid_address) ≡ false
      real = ground arith

  cache-old : h.partial_pages i ≢ 0 → alloc_from_cache i h ≡ alloc_from_slab i h
  unfolding alloc_from_cache
  cache-old d = rw (ne→not-== (h.partial_pages i) 0 d) refl

module _ {offset : ℕ} where
  module _ (h : Heap) (i : ℕ) (lt : i < class_count) (caches : Caches offset h) where
    abbrev Refused : Type 0
    Refused = (h' : Heap) × (alloc_from_cache i h ≡ some (0, h')) × Caches offset h'

    after_slab :
        h.partial_pages i ≡ 0
        → {r : Option (ℕ × Heap)} → SlabResult offset (8 * 2 ^ i) h r
        → alloc_slab_page (h.object_size i) h ≡ r
        → Refused
    after_slab none_there (none_free _) run = (h, cache-empty h i none_there run, caches)
    after_slab none_there (slab {x} {s'} {m'} a formatted) run =
        let next = filled-Caches h i lt caches a formatted in
        (
          filled h i lt caches a formatted,
          cache-new h i x s' m' (omega (arith, a.fits)) none_there run
              ∙ alloc_from_slab-null (filled h i lt caches a formatted) i (8 * 2 ^ i) next.ready
                  (omega (arith, pow-pos i))
                  (rw (eq→== i i refl) (new-Fresh h i lt caches a formatted)),
          next,
        )

    alloc_from_cache-null : Refused
    alloc_from_cache-null = elim (same-cases (h.partial_pages i) 0) [
      | inl none_there ↦
          let (word, small) = class_bounds i lt in
          after_slab none_there (alloc_slab_page-Result h caches.ready (8 * 2 ^ i) word small)
            (ap (λ size. alloc_slab_page size h) (caches.sizes i lt))
      | inr some_there ↦ elim (caches.pages i lt) [
        | inl none_there ↦ absurd (some_there none_there)
        | inr fresh ↦ (
          h,
          cache-old h i some_there
              ∙ alloc_from_slab-null h i (8 * 2 ^ i) caches.ready (omega (arith, pow-pos i)) fresh,
          caches,
        )
      ]
    ]

-- As long as the caches have only fresh pages, as after `heap_init`, a request of 1 to 2048 bytes gets
-- NULL, even with free memory: `object_index` finds no index for the first object of a fresh
-- page. The caches then still have only fresh pages.
pub kmalloc-small :
    {offset : ℕ} {h : Heap} (size : ℕ)
    → Caches offset h
    → 0 < size
    → size ≤ 2048
    → (h' : Heap) × (kmalloc size h ≡ some (0, h')) × Caches offset h'
unfolding kmalloc
kmalloc-small {offset} {h} size caches some_size small =
    let (i, found, c) = cache_index-Class size small in
    let (h', run, next) = alloc_from_cache-null h i c.in_range caches in
    (h', enter i found ∙ run, next)
  where
    enter : (i : ℕ) → cache_index size ≡ some i → kmalloc size h ≡ alloc_from_cache i h
    enter i found = rw (nonzero, found) refl
      where
        nonzero : (size == 0) ≡ false
        nonzero = ground arith

by_class :
    (P : ℕ → Type 0)
    → P 0
    → P 1
    → P 2
    → P 3
    → P 4
    → P 5
    → P 6
    → P 7
    → P 8
    → (i : ℕ) → i < class_count
    → P i
by_class P p0 p1 p2 p3 p4 p5 p6 p7 p8 zero lt = p0
by_class P p0 p1 p2 p3 p4 p5 p6 p7 p8 (suc zero) lt = p1
by_class P p0 p1 p2 p3 p4 p5 p6 p7 p8 (suc (suc zero)) lt = p2
by_class P p0 p1 p2 p3 p4 p5 p6 p7 p8 (suc (suc (suc zero))) lt = p3
by_class P p0 p1 p2 p3 p4 p5 p6 p7 p8 (suc (suc (suc (suc zero)))) lt = p4
by_class P p0 p1 p2 p3 p4 p5 p6 p7 p8 (suc (suc (suc (suc (suc zero))))) lt = p5
by_class P p0 p1 p2 p3 p4 p5 p6 p7 p8 (suc (suc (suc (suc (suc (suc zero)))))) lt = p6
by_class P p0 p1 p2 p3 p4 p5 p6 p7 p8 (suc (suc (suc (suc (suc (suc (suc zero))))))) lt = p7
by_class P p0 p1 p2 p3 p4 p5 p6 p7 p8 (suc (suc (suc (suc (suc (suc (suc (suc zero)))))))) lt = p8
by_class P p0 p1 p2 p3 p4 p5 p6 p7 p8 (suc (suc (suc (suc (suc (suc (suc (suc (suc n))))))))) lt =
    absurd (omega arith)

abbrev set_sizes : ℕ → List ℕ → (ℕ → ℕ) → ℕ → ℕ
set_sizes i [] f = f
set_sizes i (size ∷ sizes) f = set_sizes (i + 1) sizes (update f i (u16 size))

abbrev clear_pages : ℕ → List ℕ → (ℕ → ℕ) → ℕ → ℕ
clear_pages i [] f = f
clear_pages i (size ∷ sizes) f = clear_pages (i + 1) sizes (update f i 0)

-- The heap that `heap_init` leaves.
abbrev pub initial : Heap → Heap
initial h = record h {
  object_size = set_sizes 0 cache_sizes h.object_size;
  partial_pages = clear_pages 0 cache_sizes h.partial_pages;
}

pub heap_init-run : (h : Heap) → heap_init h ≡ some (tt, initial h)
unfolding heap_init init_from
heap_init-run h = refl

pub initial-Caches : {offset : ℕ} {h : Heap} → Ready offset h → Caches offset (initial h)
initial-Caches ready = record {
  ready = record {
    mapped = ready.mapped;
    some_offset = ready.some_offset;
    whole_pages = ready.whole_pages;
    window = ready.window;
    valid = ready.valid;
  };
  sizes = by_class _ refl refl refl refl refl refl refl refl refl;
  pages =
      by_class _ (inl refl) (inl refl) (inl refl) (inl refl) (inl refl) (inl refl) (inl refl)
        (inl refl) (inl refl);
}

pub initial-empty : (h : Heap) (i : ℕ) → i < class_count → (initial h).partial_pages i ≡ 0
initial-empty h = by_class _ refl refl refl refl refl refl refl refl refl

-- `heap_init` gives every cache the size of its class and no page, and changes nothing else.
pub heap_init-Caches :
    {offset : ℕ} {h : Heap}
    → Ready offset h
    → (h' : Heap) × (heap_init h ≡ some (tt, h'))
      × Caches offset h'
      × (h'.memory ≡ h.memory)
      × (h'.frames ≡ h.frames)
heap_init-Caches {h = h} ready = (initial h, heap_init-run h, initial-Caches ready, refl, refl)
