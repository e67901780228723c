-- ===== src/Buddy/Pages/Marked.antt =====
-- The shape of the page-state table survives `buddy_mark_block_free` of a taken block.
use yoix.Base.{ℕ, ◌+◌, ◌^◌, ◌≤◌, ◌<◌, ◌≡◌, sym, ap, subst, ◌∙◌, ◌⊎◌, inl, inr, arith}
use yoix.Buddy.State.{max_pages, max_order, free_body}
use yoix.Buddy.Pages.{Aligned, Taken, Shape, mark, mark-head, mark-body, mark-outside, In-cases}

-- A block that was taken becomes a free one.
module _ {t : ℕ → ℕ} (x k : ℕ) (sh : Shape t) (order : k ≤ max_order) (al : Aligned k x)
    (room : x + 2 ^ k ≤ max_pages) (taken : Taken t x k) where
  -- A page that heads a block of the marked table is the new head, or was one outside of it.
  pub mark-heads :
      (y : ℕ)
      → mark t x k y ≤ max_order
      → ((y ≡ x) × (mark t x k y ≡ k)) ⊎ (((y < x) ⊎ (x + 2 ^ k ≤ y)) × (mark t x k y ≡ t y))
  mark-heads y h = elim (In-cases x (2 ^ k) y) [
    | inl inside ↦ ground (arith, mark-head t x k, mark-body t x k y)
    | inr out ↦ inr (out, mark-outside t x k y out)
  ]

  pub mark-body_of_head :
      (y i : ℕ)
      → y < max_pages
      → t y ≤ max_order
      → y < i
      → i < y + 2 ^ t y
      → mark t x k i ≡ free_body
  mark-body_of_head y i lt h lo hi =
      let free : t i ≡ free_body = sh.body y i lt h lo hi in
      elim (In-cases x (2 ^ k) i) [
        | inl inside ↦ absurd (omega (arith, taken i inside.0 inside.1))
        | inr out ↦ mark-outside t x k i out ∙ free
      ]

  mark-owner :
      (i : ℕ)
      → (y : ℕ) × (y < i) × (t y ≤ max_order) × (i < y + 2 ^ t y)
      → (y : ℕ) × (y < i) × (mark t x k y ≤ max_order) × (i < y + 2 ^ mark t x k y)
  mark-owner i (y, lo, h, hi) = elim (In-cases x (2 ^ k) y) [
    | inl inside ↦ absurd (omega (arith, taken y inside.0 inside.1))
    | inr out ↦
        let v : mark t x k y ≡ t y = mark-outside t x k y out in
        (y, lo, omega arith, omega (arith, ap (λ (j : ℕ). 2 ^ j) v))
  ]

  pub mark-Shape : Shape (mark t x k)
  mark-Shape = record {
    aligned = λ y lt h. elim (mark-heads y h) [
      | inl (e, v) ↦ subst (λ j. Aligned j y) (sym v) (subst (Aligned k) (sym e) al)
      | inr (out, v) ↦ subst (λ j. Aligned j y) (sym v) (sh.aligned y lt (omega arith))
    ];
    fits = λ y lt h. elim (mark-heads y h) [
      | inl (e, v) ↦ omega (arith, ap (λ (j : ℕ). 2 ^ j) v)
      | inr (out, v) ↦ omega (arith, ap (λ (j : ℕ). 2 ^ j) v, sh.fits y lt (omega arith))
    ];
    body = λ y i lt h lo hi. elim (mark-heads y h) [
      | inl (e, v) ↦ mark-body t x k i (omega arith) (omega (arith, ap (λ (j : ℕ). 2 ^ j) v))
      | inr (out, v) ↦
          mark-body_of_head y i lt (omega arith) lo (omega (arith, ap (λ (j : ℕ). 2 ^ j) v))
    ];
    owned = λ i lt e. elim (In-cases x (2 ^ k) i) [
      | inl inside ↦ (
        x,
        ground (arith, mark-head t x k),
        omega (arith, mark-head t x k),
        omega (arith, ap (λ (j : ℕ). 2 ^ j) (mark-head t x k)),
      )
      | inr out ↦ mark-owner i (sh.owned i lt (sym (mark-outside t x k i out) ∙ e))
    ];
  }
