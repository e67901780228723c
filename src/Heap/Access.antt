-- ===== src/Heap/Access.antt =====
-- Accesses of kernel/src/memory/heap.c through pointers that are not NULL, and calls of the page
-- allocator.
use yoix.Base.{ℕ, ◌+◌, ◌%◌, ◌^◌, ◌≤◌, ◌<◌, ◌≡◌, ap, ◌∙◌, some, Prog, arith}
use yoix.Base.Memory.{read, write}
use yoix.Buddy.State.{Buddy, max_phys, page_size, u64}
use yoix.Buddy.Valid.{IsValid}
use yoix.Heap.State.{Heap, load, store, with_frames, on_frames, to_virt, phy_to_virt}

-- The direct map covers the memory of a valid page allocator.
pub record Ready (offset : ℕ) (h : Heap) : Type 0 where
  pub mapped : h.hhdm ≡ some offset
  pub some_offset : 0 < offset
  pub whole_pages : offset % page_size ≡ 0
  pub window : max_phys + offset ≤ 2 ^ 64
  pub valid : IsValid h.frames

add_zero : (a : ℕ) → a + 0 ≡ a
add_zero a = omega arith

pub load-run :
    (k pointer field : ℕ) (h : Heap)
    → 0 < pointer
    → load k pointer field h ≡ some (read k h.memory (pointer + field), h)
unfolding load
load-run k pointer field h pos = ground arith

pub store-run :
    (k pointer field v : ℕ) (h : Heap)
    → 0 < pointer
    → store k pointer field v h
      ≡ some (tt, record h { memory = write k h.memory (pointer + field) v })
unfolding store
store-run k pointer field v h pos = ground arith

-- The field at offset 0.
pub load-first :
    (k pointer : ℕ) (h : Heap)
    → 0 < pointer
    → load k pointer 0 h ≡ some (read k h.memory pointer, h)
load-first k pointer h pos =
    load-run k pointer 0 h pos ∙ ap (λ a. some (read k h.memory a, h)) (add_zero pointer)

pub store-first :
    (k pointer v : ℕ) (h : Heap)
    → 0 < pointer
    → store k pointer 0 v h ≡ some (tt, record h { memory = write k h.memory pointer v })
store-first k pointer v h pos =
    store-run k pointer 0 v h pos
    ∙ ap (λ a. some (tt, record h { memory = write k h.memory a v })) (add_zero pointer)

pub on_frames-run :
    {A : Type 0} (call : Prog Buddy A) (h : Heap) {a : A} {s' : Buddy}
    → call h.frames ≡ some (a, s')
    → on_frames call h ≡ some (a, record h { frames = s' })
unfolding on_frames
on_frames-run call h e = ap (with_frames h) e

pub phy_to_virt-run :
    {offset : ℕ} (h : Heap) (p : ℕ)
    → h.hhdm ≡ some offset
    → max_phys + offset ≤ 2 ^ 64
    → p < max_phys
    → phy_to_virt p h ≡ some (p + offset, h)
unfolding phy_to_virt
phy_to_virt-run {offset} h p mapped window lt =
    ap (λ a. some (a, h)) (ap (λ hhdm. to_virt hhdm p) mapped ∙ same)
  where
    same : u64 (p + offset) ≡ p + offset
    same = omega arith
