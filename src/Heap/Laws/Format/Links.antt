-- ===== src/Heap/Laws/Format/Links.antt =====
-- Linking the objects in `heap_alloc_slab_page`.
use yoix.Base.{
  ℕ, zero, suc, ◌+◌, ◌*◌, ◌-◌, ◌^◌, ◌≤◌, ◌<◌, ◌≡◌, refl, sym, ap, ap₂, ◌∙◌, subst, inl, inr, ◌⊎◌,
  some, arith, ltb, le-cases, same-cases, lt→ltb, le→not-ltb, if◌then◌else◌,
}
use yoix.Base.Memory.{Memory, read, write, read-cong, read-write, read-write_apart, write-outside}
use yoix.Buddy.State.{page_size}
use yoix.Heap.State.{Heap, slab_header, field_total_objects}
use yoix.Heap.Access.{load-run, store-first}
use yoix.Heap.Slabs.{u16, link_objects}

-- Object `i` of a page holds the address of the next, and the last one NULL.
abbrev pub link : ℕ → ℕ → ℕ → ℕ → ℕ
link page size total i = if ltb (i + 1) total then page + slab_header + (i + 1) * size else 0

-- The objects from `index` on are linked.
pub record Linked (page size total index : ℕ) (m m' : Memory) : Type 0 where
  pub links :
      (i : ℕ)
      → index ≤ i
      → i < total
      → read 8 m' (page + slab_header + i * size) ≡ link page size total i
  pub outside :
      (b : ℕ) → (b < page + slab_header + index * size) ⊎ (page + page_size ≤ b) → m' b ≡ m b

module _ (page size total : ℕ) (pos : 0 < page) (room : page + page_size ≤ 2 ^ 64) (word : 8 ≤ size)
    (fits : total * size ≤ page_size - slab_header) (small : total < 2 ^ 16) where
  abbrev at : ℕ → ℕ
  at i = page + slab_header + i * size

  grow : (i j : ℕ) → i ≤ j → i * size ≤ j * size
  grow i j le = grind arith

  at-lt : (i : ℕ) → i < total → at i + size ≤ page + page_size
  at-lt i lt = omega (arith, grow (suc i) total lt, fits)

  link-lt : (i : ℕ) → link page size total i < 256 ^ 8
  link-lt i = elim (le-cases total (i + 1)) [
    | inl last ↦ rw (le→not-ltb (i + 1) total last) (omega arith)
    | inr more ↦ rw (lt→ltb (i + 1) total more) (omega (arith, at-lt (i + 1) more, room, word))
  ]

  abbrev written : ℕ → Memory → Memory
  written index m = write 8 m (at index) (link page size total index)

  -- One object more.
  Linked-cons :
      (index : ℕ) (m m' : Memory)
      → index < total
      → Linked page size total (index + 1) (written index m) m'
      → Linked page size total index m m'
  Linked-cons index m m' lt rest = record { links = links; outside = outside }
    where
      outside : (b : ℕ) → (b < at index) ⊎ (page + page_size ≤ b) → m' b ≡ m b
      outside b out =
          rest.outside b (ground (arith, out))
          ∙ write-outside 8 m (at index) (link page size total index) b
              (ground (arith, out, at-lt index lt, word))

      links : (i : ℕ) → index ≤ i → i < total → read 8 m' (at i) ≡ link page size total i
      links i le lt' = elim (same-cases i index) [
        | inr d ↦ rest.links i (ground (arith, d)) lt'
        | inl e ↦
            subst (λ k. read 8 m' (at k) ≡ link page size total k) (sym e)
              (read-cong 8 m' (written index m) (at index)
                  (λ b lo hi. rest.outside b (inl (omega (arith, word))))
                ∙ read-write 8 m (at index) (link page size total index) (link-lt index))
      ]

  Linked-none : (m : Memory) → Linked page size total total m m
  Linked-none m = record { links = λ i le lt. absurd (omega arith); outside = λ b out. refl }

  link-more : (i : ℕ) → i + 1 < total → link page size total i ≡ at (i + 1)
  link-more i more = rw (lt→ltb (i + 1) total more) refl

  link-last : (i : ℕ) → total ≤ i + 1 → link page size total i ≡ 0
  link-last i last = rw (le→not-ltb (i + 1) total last) refl

  abbrev after : ℕ → Heap → Heap
  after index h = record h { memory = written index h.memory }

  count-kept :
      (index : ℕ) (h : Heap)
      → read 2 h.memory (page + field_total_objects) ≡ total
      → read 2 (after index h).memory (page + field_total_objects) ≡ total
  count-kept index h count =
      read-write_apart 2 8 h.memory (at index) (link page size total index)
        (page + field_total_objects) (inl (omega arith))
      ∙ count

  next : (index : ℕ) → index < total → u16 (index + 1) ≡ index + 1
  next index lt = omega (arith, small)

  round-more :
      (left index buffer : ℕ) (h : Heap)
      → index + 1 < total
      → buffer ≡ at index
      → read 2 h.memory (page + field_total_objects) ≡ total
      → link_objects (suc left) index buffer size page h
        ≡ link_objects left (index + 1) (buffer + size) size page (after index h)
  unfolding link_objects
  round-more left index buffer h more here count =
      rw
        (
          load-run 2 page field_total_objects h pos,
          count,
          lt→ltb index total (omega arith),
          lt→ltb (index + 1) total more,
          store-first 8 buffer (buffer + size) h (omega (arith, here)),
          stored,
          next index (omega arith),
        )
        (ap
          (λ v.
            link_objects left (index + 1) (buffer + size) size page
              (record h { memory = write 8 h.memory (at index) v }))
          (link-more index more))
    where
      stored : write 8 h.memory buffer (buffer + size) ≡ written index h.memory
      stored = ap₂ (write 8 h.memory) here (omega (arith, here) ∙ sym (link-more index more))

  round-last :
      (left index buffer : ℕ) (h : Heap)
      → index < total
      → total ≤ index + 1
      → buffer ≡ at index
      → read 2 h.memory (page + field_total_objects) ≡ total
      → link_objects (suc left) index buffer size page h
        ≡ link_objects left (index + 1) buffer size page (after index h)
  unfolding link_objects
  round-last left index buffer h lt last here count =
      rw
        (
          load-run 2 page field_total_objects h pos,
          count,
          lt→ltb index total lt,
          le→not-ltb (index + 1) total last,
          store-first 8 buffer 0 h (omega (arith, here)),
          stored,
          next index lt,
        )
        (ap
          (λ v.
            link_objects left (index + 1) buffer size page
              (record h { memory = write 8 h.memory (at index) v }))
          (link-last index last))
    where
      stored : write 8 h.memory buffer 0 ≡ written index h.memory
      stored = ap₂ (write 8 h.memory) here (sym (link-last index last))

  pub link_objects-Linked :
      (left index buffer : ℕ) (h : Heap)
      → index + left ≡ total
      → (index < total → buffer ≡ at index)
      → read 2 h.memory (page + field_total_objects) ≡ total
      → (m' : Memory) × (link_objects left index buffer size page h
          ≡ some (tt, record h { memory = m' }))
        × Linked page size total index h.memory m'
  unfolding link_objects
  link_objects-Linked zero index buffer h e here count = (
    h.memory,
    rw (load-run 2 page field_total_objects h pos, count, le→not-ltb index total (omega arith))
        refl,
    subst (λ i. Linked page size total i h.memory h.memory) (sym last) (Linked-none h.memory),
  )
    where
      last : index ≡ total
      last = omega arith
  link_objects-Linked (suc left) index buffer h e here count = elim (le-cases total (index + 1)) [
    | inr more ↦
        let (m', run, rest) =
          link_objects-Linked left (index + 1) (buffer + size) (after index h) (omega arith)
            (λ lt. omega (arith, here (omega arith))) (count-kept index h count) in
        (
          m',
          round-more left index buffer h more (here (omega arith)) count ∙ run,
          Linked-cons index h.memory m' (omega arith) rest,
        )
    | inl last ↦
        let (m', run, rest) =
          link_objects-Linked left (index + 1) buffer (after index h) (omega arith)
            (λ lt. absurd (omega (arith, last))) (count-kept index h count) in
        (
          m',
          round-last left index buffer h (omega arith) last (here (omega arith)) count ∙ run,
          Linked-cons index h.memory m' (omega arith) rest,
        )
  ]
