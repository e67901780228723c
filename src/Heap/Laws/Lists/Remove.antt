-- ===== src/Heap/Laws/Lists/Remove.antt =====
-- The loop of `heap_remove_slab_from_cache`.
use yoix.Base.{
  ℕ, zero, suc, ◌≤◌, ◌<◌, ◌≡◌, ◌≢◌, refl, sym, ◌∙◌, subst, inl, inr, List, [], ◌∷◌, some, arith,
  same-cases,
}
use yoix.Heap.State.{Heap}
use yoix.Heap.Access.{Ready}
use yoix.Heap.Slabs.{remove_from}
use yoix.Heap.Laws.Lists.{length, Absent, erase, Absent-erase, IsPage, next_of, SlabList, end, page}
use yoix.Heap.Laws.Lists.Unlink.{cell, Before, Result, found, further, erase-past}

-- The list of pages of the cache `index`.
abbrev pub CacheList : ℕ → ℕ → List ℕ → Heap → Type 0
CacheList offset index xs h = SlabList offset h.memory (h.partial_pages index) xs

module _ (offset index q : ℕ) where
  ended : (h : Heap) (prev fuel : ℕ) → remove_from fuel index q prev 0 h ≡ some (tt, h)
  unfolding remove_from
  ended h prev zero = refl
  ended h prev (suc fuel) = refl

  none_left :
      (h : Heap) (fuel prev p : ℕ)
      → cell offset index prev h ≡ p
      → p ≡ 0
      → Result offset index q fuel prev p [] h
  none_left h fuel prev p at e = (
    h,
    rw e (ended h prev fuel),
    record {
      rest = end (at ∙ e);
      kept = λ t tp _ _ _. refl;
      head = λ _. refl;
      only = record { others = λ j ne. refl; sizes = refl; frames = refl; hhdm = refl };
    },
  )

  -- What is removed behind `x` is removed from the list that starts with `x`.
  behind_page :
      (h : Heap) (fuel prev x : ℕ) (xs : List ℕ)
      → Ready offset h
      → IsPage x
      → Absent x xs
      → x ≢ q
      → cell offset index prev h ≡ x
      → Before prev q (x ∷ xs)
      → Result offset index q fuel x (next_of offset h.memory x) xs h
      → Result offset index q (suc fuel) prev x (x ∷ xs) h
  behind_page h fuel prev x xs ready real fresh d at before (h', run, removed) = (
    h',
    further offset index q h ready fuel prev x real d ∙ run,
    record {
      rest =
          subst (SlabList offset h'.memory (cell offset index prev h'))
            (sym (erase-past offset index q x xs d))
            (subst (λ p. SlabList offset h'.memory p (x ∷ erase q xs)) (sym (stays prev before at))
              (page real (Absent-erase x q xs fresh) (
                subst (λ p. SlabList offset h'.memory p (erase q xs)) (at_page x real.real)
                  removed.rest)));
      kept = λ t tp (ne_x, absent) ne_p ne_q. removed.kept t tp absent (λ e. ne_x (sym e)) ne_q;
      head = λ _. removed.head real.real;
      only = removed.only;
    },
  )
    where
      at_page : (x : ℕ) → 0 < x → cell offset index x h' ≡ next_of offset h'.memory x
      at_page zero lt = absurd (omega arith)
      at_page (suc x) lt = refl

      stays :
          (prev : ℕ)
          → Before prev q (x ∷ xs)
          → cell offset index prev h ≡ x
          → cell offset index prev h' ≡ x
      stays zero before at = removed.head real.real ∙ at
      stays (suc prev) (prev_page, (ne_x, absent), ne_q) at =
          removed.kept (suc prev) prev_page absent (λ e. ne_x (sym e)) ne_q ∙ at

  pub remove_from-Removed :
      (h : Heap) (fuel prev p : ℕ) (xs : List ℕ)
      → Ready offset h
      → SlabList offset h.memory p xs
      → cell offset index prev h ≡ p
      → Before prev q xs
      → length xs ≤ fuel
      → Result offset index q fuel prev p xs h
  remove_from-Removed h fuel prev p [] ready (end e) at before enough = none_left h fuel prev p at e
  remove_from-Removed h zero prev p (x ∷ xs) ready (page real fresh rest) at before enough =
      absurd (omega (arith, enough))
  remove_from-Removed h (suc fuel) prev p (x ∷ xs) ready (page real fresh rest) at before enough =
      elim (same-cases p q) [
        | inl e ↦
            subst
              (λ y.
                IsPage y
                → Absent y xs
                → SlabList offset h.memory (next_of offset h.memory y) xs
                → Before prev q (y ∷ xs)
                → Result offset index q (suc fuel) prev y (y ∷ xs) h)
              (sym e) (found offset index q h fuel prev xs ready) real fresh rest before
        | inr d ↦ behind_page h fuel prev p xs ready real fresh d at before (
            remove_from-Removed h fuel p (next_of offset h.memory p) xs ready rest
              (at_page p real.real) (passed p real.real real fresh d) (omega (arith, enough)))
      ]
    where
      at_page : (p : ℕ) → 0 < p → cell offset index p h ≡ next_of offset h.memory p
      at_page zero lt = absurd (omega arith)
      at_page (suc p) lt = refl

      passed : (p : ℕ) → 0 < p → IsPage p → Absent p xs → p ≢ q → Before p q xs
      passed zero lt real fresh d = absurd (omega arith)
      passed (suc p) lt real fresh d = (real, fresh, d)
