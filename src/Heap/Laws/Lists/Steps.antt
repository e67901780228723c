-- ===== src/Heap/Laws/Lists/Steps.antt =====
-- `heap_remove_slab_from_cache` and `heap_insert_slab_into_cache`, on the list of a cache.
use yoix.Base.{
  ℕ, ◌+◌, ◌^◌, ◌<◌, ◌≡◌, ◌≢◌, refl, sym, ap, subst, false, List, [], ◌∷◌, some, arith, ◌==◌,
  if◌then◌else◌, eq→==, ne→not-==,
}
use yoix.Base.Memory.{Memory}
use yoix.Buddy.State.{max_pages}
use yoix.Heap.State.{Heap, field_next, update}
use yoix.Heap.Access.{Ready, store-run, phy_to_virt-run}
use yoix.Heap.Slabs.{remove_slab_from_cache, insert_slab_into_cache}
use yoix.Heap.Laws.Lists.{
  Absent, erase, IsPage, next_of, set_next, SlabList, end, page, SlabList-cong, next-set_next,
  next-set_next_other,
}
use yoix.Heap.Laws.Lists.Count.{length-SlabList}
use yoix.Heap.Laws.Lists.Unlink.{OnlyList}
use yoix.Heap.Laws.Lists.Remove.{CacheList, remove_from-Removed}

-- No page of the first list is in the second.
abbrev pub Apart : List ℕ → List ℕ → Type 0
Apart [] zs = Unit {0}
Apart (y ∷ ys) zs = Absent y zs × Apart ys zs

SlabList-apart :
    {offset : ℕ} {m m' : Memory} {p : ℕ} {ys : List ℕ}
    → SlabList offset m p ys
    → (zs : List ℕ) → ((t : ℕ) → IsPage t → Absent t zs → next_of offset m' t ≡ next_of offset m t)
    → Apart ys zs
    → SlabList offset m' p ys
SlabList-apart (end e) zs same apart = end e
SlabList-apart {offset} {m} {m'} (page {p} {xs} real fresh rest) zs same (here, apart) =
    page real fresh (
      subst (λ n. SlabList offset m' n xs) (sym (same p real here))
        (SlabList-apart rest zs same apart))

-- The list of the cache `index`, `xs` before, is `ys` now; the lists of other caches that have neither
-- `q` nor a page of `xs` stay.
pub record ListStep (offset index q : ℕ) (xs ys : List ℕ) (h h' : Heap) : Type 0 where
  pub now : CacheList offset index ys h'
  pub only : OnlyList index h h'
  pub apart :
      (j : ℕ) (zs : List ℕ)
      → j ≢ index
      → CacheList offset j zs h
      → Apart zs (q ∷ xs)
      → CacheList offset j zs h'

others_stay :
    {offset index q : ℕ} (xs : List ℕ) {h h' : Heap}
    → OnlyList index h h'
    → ((t : ℕ)
        → IsPage t
        → Absent t (q ∷ xs)
        → next_of offset h'.memory t ≡ next_of offset h.memory t)
    → (j : ℕ) (zs : List ℕ) → j ≢ index
    → CacheList offset j zs h
    → Apart zs (q ∷ xs)
    → CacheList offset j zs h'
others_stay {offset} {index} {q} xs {h} {h'} only same j zs ne list apart =
    subst (λ p. SlabList offset h'.memory p zs) (sym (only.others j ne))
      (SlabList-apart list (q ∷ xs) same apart)

-- On the list of slab pages of a cache, `heap_remove_slab_from_cache` erases the given page, and leaves
-- a list without it as it is. The lists of the other caches, their sizes and the page allocator stay.
pub remove_slab_from_cache-erase :
    {offset : ℕ} {h : Heap} (index q : ℕ) (xs : List ℕ)
    → Ready offset h
    → CacheList offset index xs h
    → (h' : Heap) × (remove_slab_from_cache index q h ≡ some (tt, h'))
      × ListStep offset index q xs (erase q xs) h h'
unfolding remove_slab_from_cache
remove_slab_from_cache-erase {offset} {h} index q xs ready list =
    let (h', run, removed) =
      remove_from-Removed offset index q h max_pages 0 (h.partial_pages index) xs ready list refl tt
        (length-SlabList list) in
    (
      h',
      run,
      record {
        now = removed.rest;
        only = removed.only;
        apart = others_stay xs removed.only (λ t real (ne, absent).
            removed.kept t real absent (λ e. absurd (omega (arith, real.real, e)))
              (λ e. ne (sym e)));
      },
    )

-- `heap_insert_slab_into_cache` puts a page that is not in the list of the cache in front of it. The lists
-- of the other caches, their sizes and the page allocator stay.
pub insert_slab_into_cache-cons :
    {offset : ℕ} {h : Heap} (index q : ℕ) (xs : List ℕ)
    → Ready offset h
    → CacheList offset index xs h
    → IsPage q
    → Absent q xs
    → (h' : Heap) × (insert_slab_into_cache index q h ≡ some (tt, h'))
      × ListStep offset index q xs (q ∷ xs) h h'
unfolding insert_slab_into_cache
insert_slab_into_cache-cons {offset} {h} index q xs ready list real absent =
    let first : ℕ = h.partial_pages index in
    let h' : Heap = record h {
      memory = set_next offset q first h.memory;
      partial_pages = update h.partial_pages index q;
    } in
    let only : OnlyList index h h' = record {
      others = λ j ne. ap (λ b. if b then q else h.partial_pages j) (ne→not-== j index ne);
      sizes = refl;
      frames = refl;
      hhdm = refl;
    } in
    (
      h',
      rw
          (
            phy_to_virt-run h q ready.mapped ready.window real.in_memory,
            nonzero,
            store-run 8 (q + offset) field_next first h pos,
          )
          refl,
      record {
        now =
            subst (λ p. SlabList offset h'.memory p (q ∷ xs))
              (sym (ap (λ b. if b then q else h.partial_pages index) (eq→== index index refl)))
              (page real absent (
                subst (λ p. SlabList offset h'.memory p xs)
                  (sym (next-set_next offset h.memory q first (word list)))
                  (SlabList-cong list q q
                    (λ t tp ne _. next-set_next_other offset h.memory q first t real tp ne) absent
                    absent)));
        only = only;
        apart = others_stay xs only (λ t tp (ne, _).
            next-set_next_other offset h.memory q first t real tp (λ e. ne (sym e)));
      },
    )
  where
    pos : 0 < q + offset
    pos = omega (arith, ready.some_offset)

    nonzero : (q + offset == 0) ≡ false
    nonzero = ground (arith, pos)

    word : {p : ℕ} {ys : List ℕ} → SlabList offset h.memory p ys → p < 256 ^ 8
    word (end e) = omega (arith, e)
    word (page real _ _) = omega (arith, real.in_memory)
