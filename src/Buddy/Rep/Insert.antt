-- ===== src/Buddy/Rep/Insert.antt =====
-- `buddy_add_free_block` on the lists: a taken block becomes the head of its list.
use yoix.Base.{
  ℕ, ◌+◌, ◌^◌, ◌≤◌, ◌<◌, ◌≡◌, refl, sym, subst, ◌≢◌, inl, inr, false, ◌∷◌, arith, ◌==◌,
  if◌then◌else◌,
}
use native.Mathlib.Decide.{ℕ_discrete}
use yoix.Buddy.State.{Buddy, nil, max_pages, max_order, free_body}
use yoix.Buddy.Chain.{link, has, Chain-first, Chain-lt, Chain-frame, Chain-relink, Chain-cast}
use yoix.Buddy.Pages.{
  Aligned, Taken, mark, mark-head, mark-body, mark-outside, In-cases, is_head, pow-pos,
}
use yoix.Buddy.Pages.Marked.{mark-Shape}
use yoix.Buddy.Rep.{ListRep, Rep, linked}

module _ {s : Buddy} {t : ℕ → ℕ} (x k : ℕ) (rep : Rep s t) (order : k ≤ max_order)
    (al : Aligned k x) (room : x + 2 ^ k ≤ max_pages) (taken : Taken t x k) where
  here : free_body < t x
  here = taken x (omega arith) (omega (arith, pow-pos k))

  -- Which pages head a block of order `j` afterwards.
  is_head-mark :
      (j a : ℕ)
      → j ≤ max_order
      → is_head (mark t x k) j a ≡ (if a == x then j == k else is_head t j a)
  is_head-mark j a le = elim (In-cases x (2 ^ k) a) [
    | inl (lo, hi) ↦ ground (arith, taken a lo hi, mark-head t x k, mark-body t x k a, pow-pos k)
    | inr out ↦ ground (arith, mark-outside t x k a out, pow-pos k)
  ]

  pub head_bound : (s.free_list k ≢ nil) → s.free_list k < max_pages
  head_bound d =
      let (xs, ch, mem) = rep.lists k order in
      ground (arith, Chain-first ch, Chain-lt (s.free_list k) ch)

  same-ListRep : ListRep (linked s x k) (mark t x k) k
  same-ListRep =
      let (xs, ch, mem) = rep.lists k order in
      let new : has x xs ≡ false = ground (arith, here, mem x) in
      (
        x ∷ xs,
        Chain-cast (ground arith) refl (
            link (omega (arith, pow-pos k)) (ground arith) new (
              Chain-cast (ground arith) refl
                (Chain-relink x ch (λ a m. ground arith) (λ d. ground (arith, Chain-first ch))))),
        λ a. ground (arith, mem a, is_head-mark k a order),
      )

  other-ListRep : (j : ℕ) → j ≤ max_order → j ≢ k → ListRep (linked s x k) (mark t x k) j
  other-ListRep j le ne =
      let (xs, ch, mem) = rep.lists k order in
      let (ys, ch', mem') = rep.lists j le in
      (
        ys,
        Chain-cast (ground arith) refl (
            Chain-frame ch'
              (λ a m. ground (arith, here, mem' a, mem (s.free_list k), Chain-first ch))),
        λ a. ground (arith, here, mem' a, is_head-mark j a le),
      )

  pub linked-Rep : Rep (linked s x k) (mark t x k)
  linked-Rep = record {
    lists = λ j le. elim (ℕ_discrete j k) [
      | yes e ↦ subst (ListRep (linked s x k) (mark t x k)) (sym e) same-ListRep
      | no ne ↦ other-ListRep j le ne
    ];
    shape = mark-Shape x k rep.shape order al room taken;
  }
