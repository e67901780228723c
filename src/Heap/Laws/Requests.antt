-- ===== src/Heap/Laws/Requests.antt =====
-- Sequences of requests.
use yoix.Base.{
  ℕ, zero, suc, ◌+◌, ◌*◌, ◌/◌, ◌^◌, ◌≤◌, ◌<◌, ◌≡◌, refl, sym, ◌∙◌, ◌⊎◌, inl, inr, Option, some,
  List, [], ◌∷◌, Prog, pure, ◌>>=◌, arith, le-cases,
}
use yoix.Base.Memory.{write, write-outside}
use yoix.Buddy.State.{Buddy, page_size}
use yoix.Buddy.Ops.{order_from_pages}
use yoix.Buddy.Pages.{pow-pos}
use yoix.Buddy.Laws.Allocate.{Allocated}
use yoix.Heap.State.{Heap, large_header, magic_large}
use yoix.Heap.Ops.{kmalloc}
use yoix.Heap.Laws.Large.{pages_for, headed, LargeResult, none_free, got, kmalloc-large}
use yoix.Heap.Laws.Caches.{Fresh, Fresh-cong, Caches, class_bounds}
use yoix.Heap.Laws.Small.{kmalloc-small}

module _ {offset : ℕ} (h : Heap) (caches : Caches offset h) (order x pages : ℕ) (s' : Buddy)
    (a : Allocated h.frames order x s') where
  -- The heap after a large block is handed out.
  abbrev large_block : Heap
  large_block = record h { frames = s'; memory = headed h.memory (x * page_size + offset) pages }

  headed-outside :
      (b : ℕ)
      → (b < x * page_size + offset) ⊎ (x * page_size + offset + 8 ≤ b)
      → headed h.memory (x * page_size + offset) pages b ≡ h.memory b
  headed-outside b out =
      write-outside 4 (write 4 h.memory (x * page_size + offset) magic_large)
        (x * page_size + offset + 4) pages b (ground (arith, out))
      ∙ write-outside 4 h.memory (x * page_size + offset) magic_large b (ground (arith, out))

  -- A fresh page lies outside the block, which was free.
  Fresh-large_block :
      (size q : ℕ) → 8 ≤ size → Fresh offset h size q → Fresh offset large_block size q
  Fresh-large_block size q word f =
      Fresh-cong size q word
        (λ b lo hi. headed-outside b (ground (arith, outside, pow-pos order, f.whole, lo, hi)))
        (λ e. f.used (sym (a.others (q / page_size) outside) ∙ e)) f
    where
      outside : (q / page_size < x) ⊎ (x + 2 ^ order ≤ q / page_size)
      outside = elim (le-cases x (q / page_size)) [
        | inr below ↦ inl below
        | inl from ↦ elim (le-cases (x + 2 ^ order) (q / page_size)) [
          | inl past ↦ inr past
          | inr inside ↦ absurd (f.used (a.was_free (q / page_size) from inside))
        ]
      ]

  Caches-large_block : Caches offset large_block
  Caches-large_block = record {
    ready = record {
      mapped = caches.ready.mapped;
      some_offset = caches.ready.some_offset;
      whole_pages = caches.ready.whole_pages;
      window = caches.ready.window;
      valid = a.valid;
    };
    sizes = caches.sizes;
    pages = λ j lt. elim (caches.pages j lt) [
      | inl none_there ↦ inl none_there
      | inr f ↦ inr (Fresh-large_block (8 * 2 ^ j) (h.partial_pages j) (class_bounds j lt).0 f)
    ];
  }

-- A request returns, and leaves the caches with fresh pages; one of at most 2048 bytes gets NULL.
abbrev Answered : ℕ → ℕ → Heap → Type 0
Answered offset size h =
    (p : ℕ) × (h' : Heap) × (kmalloc size h ≡ some (p, h'))
    × Caches offset h'
    × (size ≤ 2048 → p ≡ 0)

kmalloc-zero : (h : Heap) → kmalloc 0 h ≡ some (0, h)
unfolding kmalloc
kmalloc-zero h = refl

large_request :
    {offset : ℕ} (h : Heap) (size : ℕ)
    → Caches offset h
    → 2048 < size
    → {r : Option (ℕ × Heap)} → LargeResult offset h size r
    → kmalloc size h ≡ r
    → Answered offset size h
large_request h size caches large (none_free _) run = (0, h, run, caches, λ small. refl)
large_request {offset} h size caches large (got {x} {s'} a _) run = (
  x * page_size + offset + large_header,
  large_block h caches (order_from_pages (pages_for size)) x (pages_for size) s' a,
  run,
  Caches-large_block h caches (order_from_pages (pages_for size)) x (pages_for size) s' a,
  λ small. absurd (omega arith),
)

request :
    {offset : ℕ} (h : Heap) (size : ℕ)
    → Caches offset h
    → size + large_header ≤ 2 ^ 30
    → Answered offset size h
request h zero caches fits = (0, h, kmalloc-zero h, caches, λ _. refl)
request h (suc size) caches fits = elim (le-cases (suc size) 2048) [
  | inl small ↦
      let (h', run, next) = kmalloc-small (suc size) caches (omega arith) small in
      (0, h', run, next, λ _. refl)
  | inr large ↦
      large_request h (suc size) caches large (kmalloc-large (suc size) caches.ready large fits)
        refl
]

-- The requests one after the other, and their answers.
abbrev pub kmalloc_all : List ℕ → Prog Heap (List ℕ)
kmalloc_all [] = pure []
kmalloc_all (size ∷ sizes) = do p ← kmalloc size; ps ← kmalloc_all sizes; pure (p ∷ ps)

-- With its header every request is at most a gigabyte.
abbrev pub AllFit : List ℕ → Type 0
AllFit [] = Unit {0}
AllFit (size ∷ sizes) = (size + large_header ≤ 2 ^ 30) × AllFit sizes

-- An answer for each request, NULL for those of at most 2048 bytes.
abbrev pub Answers : List ℕ → List ℕ → Type 0
Answers [] [] = Unit {0}
Answers (size ∷ sizes) (p ∷ ps) = (size ≤ 2048 → p ≡ 0) × Answers sizes ps
Answers sizes ps = ⊥

-- On caches that have no page or one whose objects are all free, as after `heap_init`, any sequence of
-- requests of at most a gigabyte each, with their headers, is answered without an undefined access,
-- every request of at most 2048 bytes gets NULL, and the caches are again of that kind.
pub kmalloc_all-Answers :
    {offset : ℕ} (sizes : List ℕ) (h : Heap)
    → Caches offset h
    → AllFit sizes
    → (ps : List ℕ) × (h' : Heap) × (kmalloc_all sizes h ≡ some (ps, h'))
      × Answers sizes ps
      × Caches offset h'
kmalloc_all-Answers [] h caches fit = ([], _, refl, tt, caches)
kmalloc_all-Answers (size ∷ sizes) h caches (fits, fit) =
    let (p, h', run, next, small) = request h size caches fits in
    let (ps, h'', later, answers, last) = kmalloc_all-Answers sizes h' next fit in
    (p ∷ ps, h'', rw (run, later) refl, (small, answers), last)
