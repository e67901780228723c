-- ===== src/Heap/Laws/Format/Bitmap.antt =====
-- Clearing the bitmap in `heap_alloc_slab_page`.
use yoix.Base.{ℕ, zero, suc, ◌+◌, ◌≤◌, ◌<◌, ◌≡◌, refl, ◌∙◌, inl, inr, ◌⊎◌, some, arith, same-cases}
use yoix.Base.Memory.{Memory, write, write-outside}
use yoix.Heap.State.{Heap, field_bitmap}
use yoix.Heap.Access.{store-run}
use yoix.Heap.Slabs.{clear_bitmap}

-- The memory after `memset` of the bitmap.
unfoldable pub cleared : ℕ → ℕ → ℕ → Memory → Memory
cleared zero i page m = m
cleared (suc left) i page m = cleared left (i + 1) page (write 1 m (page + (field_bitmap + i)) 0)

pub clear_bitmap-run :
    (left i page : ℕ) (h : Heap)
    → 0 < page
    → clear_bitmap left i page h ≡ some (tt, record h { memory = cleared left i page h.memory })
unfolding clear_bitmap cleared
clear_bitmap-run zero i page h pos = refl
clear_bitmap-run (suc left) i page h pos =
    rw (store-run 1 page (field_bitmap + i) 0 h pos) (clear_bitmap-run left (i + 1) page _ pos)

pub cleared-outside :
    (left i page : ℕ) (m : Memory) (b : ℕ)
    → (b < page + (field_bitmap + i)) ⊎ (page + (field_bitmap + i + left) ≤ b)
    → cleared left i page m b ≡ m b
unfolding cleared
cleared-outside zero i page m b out = refl
cleared-outside (suc left) i page m b out =
    cleared-outside left (i + 1) page (write 1 m (page + (field_bitmap + i)) 0) b
      (ground (arith, out))
    ∙ write-outside 1 m (page + (field_bitmap + i)) 0 b (ground (arith, out))

pub cleared-inside :
    (left i page : ℕ) (m : Memory) (b : ℕ)
    → page + (field_bitmap + i) ≤ b
    → b < page + (field_bitmap + i + left)
    → cleared left i page m b ≡ 0
unfolding cleared write
cleared-inside zero i page m b lo hi = absurd (omega arith)
cleared-inside (suc left) i page m b lo hi = elim (same-cases b (page + (field_bitmap + i))) [
  | inl e ↦
      cleared-outside left (i + 1) page (write 1 m (page + (field_bitmap + i)) 0) b
        (inl (omega (arith, e)))
      ∙ ground (arith, e)
  | inr d ↦
      cleared-inside left (i + 1) page (write 1 m (page + (field_bitmap + i)) 0) b
        (ground (arith, d)) (omega arith)
]
