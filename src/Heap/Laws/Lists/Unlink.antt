-- ===== src/Heap/Laws/Lists/Unlink.antt =====
-- The steps of `heap_remove_slab_from_cache`.
use yoix.Base.{
  ℕ, zero, suc, ◌+◌, ◌<◌, ◌≡◌, ◌≢◌, refl, sym, ap, ◌∙◌, subst, false, List, ◌∷◌, some, arith, ◌==◌,
  if◌then◌else◌, eq→==, ne→not-==,
}
use yoix.Base.Memory.{Memory, read-lt}
use yoix.Heap.State.{Heap, field_next, update}
use yoix.Heap.Access.{Ready, load-run, store-run, phy_to_virt-run}
use yoix.Heap.Slabs.{remove_from}
use yoix.Heap.Laws.Lists.{
  Absent, erase, IsPage, next_of, set_next, SlabList, SlabList-cong, next-set_next,
  next-set_next_other,
}

-- The link that leads to a part of the list: the cache's, or a page's.
abbrev pub cell : ℕ → ℕ → ℕ → Heap → ℕ
cell offset index zero h = h.partial_pages index
cell offset index (suc prev) h = next_of offset h.memory (suc prev)

-- Only the lists of cache `index` may have changed.
pub record OnlyList (index : ℕ) (h h' : Heap) : Type 0 where
  pub others : (j : ℕ) → j ≢ index → h'.partial_pages j ≡ h.partial_pages j
  pub sizes : h'.object_size ≡ h.object_size
  pub frames : h'.frames ≡ h.frames
  pub hhdm : h'.hhdm ≡ h.hhdm

-- `q` is gone from the list behind `prev`, and only links of the list, of `prev` and of `q` have changed.
pub record Removed (offset index q prev : ℕ) (xs : List ℕ) (h h' : Heap) : Type 0 where
  pub rest : SlabList offset h'.memory (cell offset index prev h') (erase q xs)
  pub kept :
      (t : ℕ)
      → IsPage t
      → Absent t xs
      → t ≢ prev
      → t ≢ q
      → next_of offset h'.memory t ≡ next_of offset h.memory t
  pub head : 0 < prev → h'.partial_pages index ≡ h.partial_pages index
  pub only : OnlyList index h h'

-- `prev` is 0 or a page in front of the list.
abbrev pub Before : ℕ → ℕ → List ℕ → Type 0
Before zero q xs = Unit {0}
Before (suc prev) q xs = IsPage (suc prev) × Absent (suc prev) xs × (suc prev ≢ q)

module _ (offset index q : ℕ) where
  abbrev unlinked : Heap → Heap
  unlinked h = record h {
    memory = set_next offset q 0 h.memory;
    partial_pages = update h.partial_pages index (next_of offset h.memory q);
  }

  abbrev bypassed : ℕ → Heap → Heap
  bypassed prev h = record h {
    memory = set_next offset q 0 (set_next offset prev (next_of offset h.memory q) h.memory);
  }

  module _ (h : Heap) (ready : Ready offset h) (fuel : ℕ) (q_page : IsPage q) where
    pos : 0 < q + offset
    pos = omega (arith, ready.some_offset)

    nonzero : (q + offset == 0) ≡ false
    nonzero = ground (arith, pos)

    real : (q == 0) ≡ false
    real = ground (arith, q_page.real)

    at_head : remove_from (suc fuel) index q 0 q h ≡ some (tt, unlinked h)
    unfolding remove_from
    at_head =
        rw
          (
            real,
            phy_to_virt-run h q ready.mapped ready.window q_page.in_memory,
            nonzero,
            eq→== q q refl,
            load-run 8 (q + offset) field_next h pos,
          )
          (store-run 8 (q + offset) field_next 0
            (record h { partial_pages = update h.partial_pages index (next_of offset h.memory q) })
            pos)

    behind :
        (prev : ℕ)
        → IsPage (suc prev)
        → remove_from (suc fuel) index q (suc prev) q h ≡ some (tt, bypassed (suc prev) h)
    unfolding remove_from
    behind prev p =
        rw
          (
            real,
            phy_to_virt-run h q ready.mapped ready.window q_page.in_memory,
            nonzero,
            eq→== q q refl,
            load-run 8 (q + offset) field_next h pos,
            suc_nonzero,
            phy_to_virt-run h (suc prev) ready.mapped ready.window p.in_memory,
            prev_nonzero,
            store-run 8 (suc prev + offset) field_next (next_of offset h.memory q) h prev_pos,
          )
          (store-run 8 (q + offset) field_next 0
            (record h { memory = set_next offset (suc prev) (next_of offset h.memory q) h.memory })
            pos)
      where
        suc_nonzero : (suc prev == 0) ≡ false
        suc_nonzero = ground arith

        prev_pos : 0 < suc prev + offset
        prev_pos = omega arith

        prev_nonzero : (suc prev + offset == 0) ≡ false
        prev_nonzero = ground (arith, prev_pos)

  -- Past a page that is not `q`.
  pub further :
      (h : Heap) (ready : Ready offset h) (fuel prev x : ℕ)
      → IsPage x
      → x ≢ q
      → remove_from (suc fuel) index q prev x h
        ≡ remove_from fuel index q x (next_of offset h.memory x) h
  unfolding remove_from
  further h ready fuel prev x p d =
      rw
        (
          x_real,
          phy_to_virt-run h x ready.mapped ready.window p.in_memory,
          x_nonzero,
          ne→not-== x q d,
          load-run 8 (x + offset) field_next h x_pos,
        )
        refl
    where
      x_real : (x == 0) ≡ false
      x_real = ground (arith, p.real)

      x_pos : 0 < x + offset
      x_pos = omega (arith, ready.some_offset)

      x_nonzero : (x + offset == 0) ≡ false
      x_nonzero = ground (arith, x_pos)

  erase-here : (xs : List ℕ) → erase q (q ∷ xs) ≡ xs
  erase-here xs = ap (λ b. if b then xs else q ∷ erase q xs) (eq→== q q refl)

  pub erase-past : (x : ℕ) (xs : List ℕ) → x ≢ q → erase q (x ∷ xs) ≡ x ∷ erase q xs
  erase-past x xs d = ap (λ b. if b then xs else x ∷ erase q xs) (ne→not-== x q d)

  abbrev pub Result : ℕ → ℕ → ℕ → List ℕ → Heap → Type 0
  Result fuel prev p xs h =
      (h' : Heap) × (remove_from fuel index q prev p h ≡ some (tt, h'))
      × Removed offset index q prev xs h h'

  -- The page is the one to remove.
  pub found :
      (h : Heap) (fuel prev : ℕ) (xs : List ℕ)
      → Ready offset h
      → IsPage q
      → Absent q xs
      → SlabList offset h.memory (next_of offset h.memory q) xs
      → Before prev q (q ∷ xs)
      → Result (suc fuel) prev q (q ∷ xs) h
  found h fuel zero xs ready real fresh rest before = (
    unlinked h,
    at_head h ready fuel real,
    record {
      rest =
          subst (SlabList offset (unlinked h).memory (cell offset index 0 (unlinked h)))
            (sym (erase-here xs))
            (subst (λ p. SlabList offset (unlinked h).memory p xs) (sym here)
              (SlabList-cong rest q q
                (λ t tp ne _. next-set_next_other offset h.memory q 0 t real tp ne) fresh fresh));
      kept = λ t tp _ _ ne. next-set_next_other offset h.memory q 0 t real tp ne;
      head = λ lt. absurd (omega arith);
      only = record {
        others = λ j ne.
            ap (λ b. if b then next_of offset h.memory q else h.partial_pages j)
              (ne→not-== j index ne);
        sizes = refl;
        frames = refl;
        hhdm = refl;
      };
    },
  )
    where
      here : cell offset index 0 (unlinked h) ≡ next_of offset h.memory q
      here =
          ap (λ b. if b then next_of offset h.memory q else h.partial_pages index)
            (eq→== index index refl)
  found h fuel (suc prev) xs ready real fresh rest (prev_page, (_, prev_absent), ne_prev) =
      let next : ℕ = next_of offset h.memory q in
      let linked : Memory = set_next offset (suc prev) next h.memory in
      let h' : Heap = bypassed (suc prev) h in
      let same : (t : ℕ)
          → IsPage t
          → t ≢ suc prev
          → t ≢ q
          → next_of offset h'.memory t ≡ next_of offset h.memory t =
        λ t tp ne_p ne_q.
          next-set_next_other offset linked q 0 t real tp ne_q
          ∙ next-set_next_other offset h.memory (suc prev) next t prev_page tp ne_p in
      let here : cell offset index (suc prev) h' ≡ next =
        next-set_next_other offset linked q 0 (suc prev) real prev_page ne_prev
        ∙ next-set_next offset h.memory (suc prev) next
            (read-lt 8 h.memory (q + offset + field_next)) in
      (
        h',
        behind h ready fuel real prev prev_page,
        record {
          rest =
              subst (SlabList offset h'.memory (cell offset index (suc prev) h'))
                (sym (erase-here xs))
                (subst (λ p. SlabList offset h'.memory p xs) (sym here)
                  (SlabList-cong rest (suc prev) q same prev_absent fresh));
          kept = λ t tp _ ne_p ne_q. same t tp ne_p ne_q;
          head = λ _. refl;
          only = record { others = λ j ne. refl; sizes = refl; frames = refl; hhdm = refl };
        },
      )
