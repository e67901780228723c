-- ===== src/Buddy/Laws/FreePages.antt =====
-- `buddy_free_pages` by address, and what it does after `buddy_alloc_pages`.
use yoix.Base.{
  ℕ, ◌*◌, ◌/◌, ◌%◌, ◌^◌, ◌≤◌, ◌<◌, ◌≡◌, refl, sym, ◌∙◌, subst, ◌≢◌, inl, inr, false, not, ◌||◌,
  Option, some, arith, ◌==◌, lt→ltb, lt→not-leb, eq→==, ne→not-==, same_outcome, pure,
  if◌then◌else◌,
}
use yoix.Buddy.State.{Buddy, max_pages, max_order, page_size, invalid_address, allocated, u32}
use yoix.Buddy.Ops.{order_from_pages, alloc_pages, free_pages, free_block}
use yoix.Buddy.Pages.{pow-pos, In-cases}
use yoix.Buddy.Valid.{status, IsValid}
use yoix.Buddy.Laws.Rounding.{order_from_pages-Least}
use yoix.Buddy.Laws.Allocate.{Allocated}
use yoix.Buddy.Laws.AllocPages.{PagesResult, block, refused, alloc_pages-Result}
use yoix.Buddy.Laws.Free.{Freed, Block, free_block-Freed}

module _ (s : Buddy) (x pages : ℕ) (some_pages : 0 < pages) (real : 0 < x)
    (lt : x < max_pages) where
  -- An address of a page inside memory, other than page 0, passes the guards on the address.
  free_pages-guards :
      free_pages (x * page_size) pages s
      ≡ (if not (s.page_state x == allocated)
            then pure tt
            else free_block x (order_from_pages pages))
          s
  unfolding free_pages
  free_pages-guards =
      rw (guards, on_page, frame, lt→not-leb max_pages x lt, lt→ltb x max_pages lt) refl
    where
      guards : ((x * page_size == 0) || (x * page_size == invalid_address) || (pages == 0)) ≡ false
      guards = ground arith

      on_page : not (x * page_size % page_size == 0) ≡ false
      on_page = ground arith

      frame : u32 (x * page_size / page_size) ≡ x
      frame = omega arith

  free_pages-enters :
      s.page_state x ≡ allocated
      → free_pages (x * page_size) pages s ≡ free_block x (order_from_pages pages) s
  free_pages-enters used = free_pages-guards ∙ rw (eq→== (s.page_state x) allocated used) refl

  -- A page that is not allocated stops it.
  free_pages-stops : s.page_state x ≢ allocated → free_pages (x * page_size) pages s ≡ some (tt, s)
  free_pages-stops unused =
      free_pages-guards ∙ rw (ne→not-== (s.page_state x) allocated unused) refl

-- Freeing a block that its caller holds, by its address and a number of pages of the same order, makes exactly its
-- pages free and keeps the state valid.
pub free_pages-Freed :
    {s : Buddy} (x pages : ℕ)
    → IsValid s
    → 0 < pages
    → pages ≤ 2 ^ max_order
    → 0 < x
    → Block s x (order_from_pages pages)
    → (s' : Buddy) × (free_pages (x * page_size) pages s ≡ some (tt, s'))
      × Freed s x (order_from_pages pages) s'
free_pages-Freed {s} x pages valid pos le real b =
    let order : ℕ = order_from_pages pages in
    let (s', run, freed, _) =
      free_block-Freed valid x order (order_from_pages-Least pages le).0 b in
    let lt : x < max_pages = omega (arith, b.fits, pow-pos (order_from_pages pages)) in
    let used : s.page_state x ≡ allocated =
      b.used x (omega arith) (omega (arith, pow-pos (order_from_pages pages))) in
    (s', free_pages-enters s x pages pos real lt used ∙ run, freed)

-- Freeing the same block a second time changes nothing.
pub free_pages-twice :
    {s s' : Buddy} (x pages again : ℕ)
    → 0 < again
    → 0 < x
    → x < max_pages
    → Freed s x (order_from_pages pages) s'
    → free_pages (x * page_size) again s' ≡ some (tt, s')
free_pages-twice {s' = s'} x pages again pos real lt freed =
    free_pages-stops s' x again pos real lt λ used. ground (
      arith,
      freed.now_free x (omega arith) (omega (arith, pow-pos (order_from_pages pages))),
      used,
    )

-- Whatever `buddy_alloc_pages` hands out, other than page 0, can be given back, and then every
-- page has the status that it had before.
pub alloc_pages-free_pages :
    {s s' : Buddy} (pages addr : ℕ)
    → IsValid s
    → 0 < pages
    → pages ≤ 2 ^ max_order
    → alloc_pages pages s ≡ some (addr, s')
    → addr ≢ invalid_address
    → addr ≢ 0
    → (s'' : Buddy) × (free_pages addr pages s' ≡ some (tt, s''))
      × IsValid s''
      × ((i : ℕ) → status (s''.page_state i) ≡ status (s.page_state i))
alloc_pages-free_pages {s} {s'} pages addr valid pos le run real nonzero =
    back (alloc_pages-Result pages valid pos le) run
  where
    Undone : Buddy → Type 0
    Undone u =
        (s'' : Buddy) × (free_pages addr pages u ≡ some (tt, s''))
        × IsValid s''
        × ((i : ℕ) → status (s''.page_state i) ≡ status (s.page_state i))

    undone :
        (x : ℕ) (u : Buddy)
        → Allocated s (order_from_pages pages) x u
        → x * page_size ≡ addr
        → Undone u
    undone x u a e =
        let held : Block u x (order_from_pages pages) = record {
          aligned = a.aligned;
          fits = a.fits;
          used = a.now_used;
        } in
        let (s'', freeing, freed) = free_pages-Freed x pages a.valid pos le (omega arith) held in
        (
          s'',
          subst (λ p. free_pages p pages u ≡ some (tt, s'')) e freeing,
          freed.valid,
          λ i. elim (In-cases x (2 ^ order_from_pages pages) i) [
            | inl (lo, hi) ↦ freed.now_free i lo hi ∙ sym (a.was_free i lo hi)
            | inr o ↦ freed.others i o ∙ a.others i o
          ],
        )

    back :
        {r : Option (ℕ × Buddy)}
        → PagesResult s (order_from_pages pages) r
        → r ≡ some (addr, s')
        → Undone s'
    back (block {x} {s' = u} a) e =
        let (at, to) = same_outcome e in subst Undone to (undone x u a at)
    back (refused none_left) e = absurd (real (sym (same_outcome e).0))
