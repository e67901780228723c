-- ===== src/Heap/Laws/LargeFree.antt =====
-- `kfree` of what a large `kmalloc` handed out.
use yoix.Base.{
  ℕ, ◌+◌, ◌*◌, ◌-◌, ◌%◌, ◌^◌, ◌≤◌, ◌<◌, ◌≡◌, ◌≢◌, sym, ap, ◌∙◌, subst, inl, inr, false, not, Option,
  some, bit_and, arith, ◌==◌, ◌||◌, same_outcome,
}
use yoix.Base.Bits.{bit_and-high}
use yoix.Base.Memory.{read, write, read-write, read-write_apart}
use yoix.Buddy.State.{Buddy, max_phys, max_pages, page_size}
use yoix.Buddy.Ops.{order_from_pages, free_pages}
use yoix.Buddy.Pages.{pow-pos, In-cases}
use yoix.Buddy.Valid.{status}
use yoix.Buddy.Laws.Allocate.{Allocated}
use yoix.Buddy.Laws.Free.{Block}
use yoix.Buddy.Laws.FreePages.{free_pages-Freed}
use yoix.Heap.State.{Heap, magic_large, large_header, to_phys}
use yoix.Heap.Access.{Ready, load-run, load-first, on_frames-run, phy_to_virt-run}
use yoix.Heap.Ops.{kmalloc, free_large, is_mapped, kfree}
use yoix.Heap.Laws.Large.{pages_for, headed, LargeResult, none_free, got, kmalloc-large}

-- A block with a header in front.
module _ {offset : ℕ} (h : Heap) (mapped : h.hhdm ≡ some offset) (some_offset : 0 < offset)
    (whole : offset % page_size ≡ 0) (window : max_phys + offset ≤ 2 ^ 64) (x pages : ℕ)
    (lt : x < max_pages) (small : pages < 2 ^ 32)
    (magic : read 4 h.memory (x * page_size + offset) ≡ magic_large)
    (count : read 4 h.memory (x * page_size + offset + 4) ≡ pages) where
  page_start :
      bit_and (x * page_size + offset + large_header) (2 ^ 64 - page_size) ≡ x * page_size + offset
  page_start =
      bit_and-high 52 12 (x * page_size + offset + large_header) (omega (arith, window))
      ∙ omega (arith, whole)

  guard : ((x * page_size + offset + large_header == 0) || not (is_mapped h.hhdm)) ≡ false
  guard =
      ap (λ o. (x * page_size + offset + large_header == 0) || not (is_mapped o)) mapped
      ∙ ground (arith, some_offset)

  phys : to_phys h.hhdm (x * page_size + offset) ≡ x * page_size
  phys = ap (λ o. to_phys o (x * page_size + offset)) mapped ∙ omega (arith, window)

  pos : 0 < x * page_size + offset
  pos = omega (arith, some_offset)

  nonzero : (x * page_size + offset == 0) ≡ false
  nonzero = ground (arith, pos)

  kfree-header :
      (s' : Buddy)
      → free_pages (x * page_size) pages h.frames ≡ some (tt, s')
      → kfree (x * page_size + offset + large_header) h ≡ some (tt, record h { frames = s' })
  unfolding kfree free_large
  kfree-header s' run =
      rw
        (
          guard,
          page_start,
          phys,
          phy_to_virt-run h (x * page_size) mapped window (omega (arith, lt)),
          nonzero,
          load-first 4 (x * page_size + offset) h pos,
          magic,
          load-first 4 (x * page_size + offset) h pos,
          magic,
          load-first 4 (x * page_size + offset) h pos,
          magic,
          load-run 4 (x * page_size + offset) 4 h pos,
          count,
        )
        (on_frames-run (free_pages (x * page_size) pages) h run)

-- What a large `kmalloc` hands out, other than from page 0, `kfree` takes back: every page then has the
-- status it had before, and the allocator is valid.
pub kmalloc-kfree :
    {offset : ℕ} {h h' : Heap} (size p : ℕ)
    → Ready offset h
    → 2048 < size
    → size + large_header ≤ 2 ^ 30
    → kmalloc size h ≡ some (p, h')
    → p ≢ 0
    → p ≢ offset + large_header
    → (h'' : Heap) × (kfree p h' ≡ some (tt, h''))
      × Ready offset h''
      × ((i : ℕ) → status (h''.frames.page_state i) ≡ status (h.frames.page_state i))
kmalloc-kfree {offset} {h} {h'} size p ready large small run real other =
    back (kmalloc-large size ready large small) run
  where
    Undone : ℕ → Heap → Type 0
    Undone p u =
        (h'' : Heap) × (kfree p u ≡ some (tt, h''))
        × Ready offset h''
        × ((i : ℕ) → status (h''.frames.page_state i) ≡ status (h.frames.page_state i))

    after : ℕ → Buddy → Heap
    after x s' = record h {
      frames = s';
      memory = headed h.memory (x * page_size + offset) (pages_for size);
    }

    undone :
        (x : ℕ) (s' : Buddy)
        → Allocated h.frames (order_from_pages (pages_for size)) x s'
        → 0 < x
        → Undone (x * page_size + offset + large_header) (after x s')
    undone x s' a above =
        let pages : ℕ = pages_for size in
        let virt : ℕ = x * page_size + offset in
        let lt : x < max_pages = omega (arith, a.fits, pow-pos (order_from_pages pages)) in
        let held : Block s' x (order_from_pages pages) = record {
          aligned = a.aligned;
          fits = a.fits;
          used = a.now_used;
        } in
        let (s'', freeing, freed) =
          free_pages-Freed x pages a.valid (omega arith) (omega arith) above held in
        let marked : read 4 (headed h.memory virt pages) virt ≡ magic_large =
          read-write_apart 4 4 (write 4 h.memory virt magic_large) (virt + 4) pages virt
            (inl (omega arith))
          ∙ read-write 4 h.memory virt magic_large (omega arith) in
        let counted : read 4 (headed h.memory virt pages) (virt + 4) ≡ pages =
          read-write 4 (write 4 h.memory virt magic_large) (virt + 4) pages (omega arith) in
        let u : Heap = record h { frames = s'; memory = headed h.memory virt pages } in
        (
          record u { frames = s'' },
          kfree-header u ready.mapped ready.some_offset ready.whole_pages ready.window x pages lt
              (omega arith) marked counted s'' freeing,
          record {
            mapped = ready.mapped;
            some_offset = ready.some_offset;
            whole_pages = ready.whole_pages;
            window = ready.window;
            valid = freed.valid;
          },
          λ i. elim (In-cases x (2 ^ order_from_pages pages) i) [
            | inl (lo, hi) ↦ freed.now_free i lo hi ∙ sym (a.was_free i lo hi)
            | inr o ↦ freed.others i o ∙ a.others i o
          ],
        )

    back : {r : Option (ℕ × Heap)} → LargeResult offset h size r → r ≡ some (p, h') → Undone p h'
    back (none_free _) e = absurd (real (sym (same_outcome e).0))
    back (got {x} {s'} a _) e =
        let (at, to) = same_outcome e in
        subst (λ u. Undone p u) to
          (subst (λ q. Undone q (after x s')) at (undone x s' a (omega (arith, at, other))))
