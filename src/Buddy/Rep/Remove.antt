-- ===== src/Buddy/Rep/Remove.antt =====
-- `buddy_remove_free_block` on the lists: a free block is taken out of its list.
use yoix.Base.{ℕ, ◌^◌, ◌≤◌, ◌<◌, ◌≡◌, refl, sym, subst, ◌≢◌, inl, inr, ◌&&◌, not, true, arith, ◌==◌}
use native.Mathlib.Decide.{ℕ_discrete}
use yoix.Buddy.State.{Buddy, nil, max_pages, max_order, allocated}
use yoix.Buddy.Chain.{has, erase, has-erase, Chain-frame, Chain-tests, Chain-remove, Chain-cast}
use yoix.Buddy.Pages.{fill, fill-inside, fill-outside, In-cases, is_head, pow-pos}
use yoix.Buddy.Pages.Cleared.{block_free, cleared-Shape}
use yoix.Buddy.Rep.{ListRep, Rep, unlinked}

module _ {s : Buddy} {t : ℕ → ℕ} (x k : ℕ) (rep : Rep s t) (order : k ≤ max_order)
    (lt : x < max_pages) (head : t x ≡ k) where
  abbrev t' : ℕ → ℕ
  t' = fill t x (2 ^ k) allocated

  is_head-fill : (j a : ℕ) → j ≤ max_order → is_head t' j a ≡ (is_head t j a && not (a == x))
  is_head-fill j a le = elim (In-cases x (2 ^ k) a) [
    | inl (lo, hi) ↦ ground (
      arith,
      fill-inside t x (2 ^ k) allocated a lo hi,
      block_free x k rep.shape order lt head a lo hi,
    )
    | inr out ↦ ground (arith, fill-outside t x (2 ^ k) allocated a out, pow-pos k)
  ]

  -- What the two neighbours of the frame are.
  pub neighbours :
      (s.free_prev x ≡ nil → s.free_list k ≡ x)
      × (s.free_prev x ≢ nil
          → (s.free_prev x < max_pages)
            × (s.free_next (s.free_prev x) ≡ x)
            × (t (s.free_prev x) ≡ k))
      × (s.free_next x ≢ nil → (s.free_next x < max_pages) × (t (s.free_next x) ≡ k))
  neighbours =
      let (xs, ch, mem) = rep.lists k order in
      let on : has x xs ≡ true = ground (arith, mem x) in
      let (first, before, after) = Chain-tests x ch on in
      (
        first,
        λ d. ground (arith, before d, mem (s.free_prev x)),
        λ d. ground (arith, after d, mem (s.free_next x)),
      )

  same-ListRep : ListRep (unlinked s x k) t' k
  same-ListRep =
      let (xs, ch, mem) = rep.lists k order in
      let on : has x xs ≡ true = ground (arith, mem x) in
      (
        erase x xs,
        Chain-cast (ground arith) refl (Chain-remove x ch on),
        λ a. ground (arith, has-erase a x ch, mem a, is_head-fill k a order),
      )

  other-ListRep : (j : ℕ) → j ≤ max_order → j ≢ k → ListRep (unlinked s x k) t' j
  other-ListRep j le ne =
      let (ys, ch, mem) = rep.lists j le in
      (
        ys,
        Chain-cast (ground arith) refl (Chain-frame ch (λ a m. ground (arith, mem a, neighbours))),
        λ a. ground (arith, mem a, is_head-fill j a le),
      )

  pub unlinked-Rep : Rep (unlinked s x k) t'
  unlinked-Rep = record {
    lists = λ j le. elim (ℕ_discrete j k) [
      | yes e ↦ subst (ListRep (unlinked s x k) t') (sym e) same-ListRep
      | no ne ↦ other-ListRep j le ne
    ];
    shape = cleared-Shape x k rep.shape order lt head;
  }
