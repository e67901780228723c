-- ===== src/Buddy/Pages/Cleared.antt =====
-- The shape of the page-state table survives taking a whole free block out of it.
use yoix.Base.{ℕ, ◌+◌, ◌^◌, ◌≤◌, ◌<◌, ◌≡◌, sym, ap, subst, ◌∙◌, ◌⊎◌, inl, inr, arith, eq-cases}
use yoix.Buddy.State.{max_pages, max_order, free_body, allocated}
use yoix.Buddy.Pages.{Aligned, Shape, fill, fill-inside, fill-outside, In-cases}

-- The free block at `x`, of order `k`, is marked as allocated.
module _ {t : ℕ → ℕ} (x k : ℕ) (sh : Shape t) (order : k ≤ max_order) (lt : x < max_pages)
    (head : t x ≡ k) where
  abbrev pub cleared : ℕ → ℕ
  cleared = fill t x (2 ^ k) allocated

  size : 2 ^ t x ≡ 2 ^ k
  size = ap (λ (j : ℕ). 2 ^ j) head

  -- Every page of the block is its head or belongs to its body.
  pub block_free : (i : ℕ) → x ≤ i → i < x + 2 ^ k → ((i ≡ x) ⊎ (t i ≡ free_body))
  block_free i lo hi = elim (eq-cases i x) [
    | inl e ↦ inl e
    | inr (inl below) ↦ absurd (omega arith)
    | inr (inr above) ↦ inr (sh.body x i lt (omega arith) above (omega (arith, size)))
  ]

  -- A page that still heads a block lies outside.
  pub cleared-heads :
      (y : ℕ) → cleared y ≤ max_order → ((y < x) ⊎ (x + 2 ^ k ≤ y)) × (cleared y ≡ t y)
  cleared-heads y h = elim (In-cases x (2 ^ k) y) [
    | inl (lo, hi) ↦ absurd (omega (arith, fill-inside t x (2 ^ k) allocated y lo hi))
    | inr out ↦ (out, fill-outside t x (2 ^ k) allocated y out)
  ]

  -- Two free blocks do not overlap.
  pub disjoint :
      (y i : ℕ)
      → y < max_pages
      → t y ≤ max_order
      → (y < x) ⊎ (x + 2 ^ k ≤ y)
      → y < i
      → i < y + 2 ^ t y
      → (i < x) ⊎ (x + 2 ^ k ≤ i)
  disjoint y i ly h out lo hi = elim (In-cases x (2 ^ k) i) [
    | inl (a, b) ↦ elim out [
      | inl below ↦ absurd (omega (arith, sh.body y x ly h below (omega arith)))
      | inr above ↦ absurd (omega arith)
    ]
    | inr o ↦ o
  ]

  cleared-owner :
      (i : ℕ)
      → (i < x) ⊎ (x + 2 ^ k ≤ i)
      → (y : ℕ) × (y < i) × (t y ≤ max_order) × (i < y + 2 ^ t y)
      → i < max_pages
      → (y : ℕ) × (y < i) × (cleared y ≤ max_order) × (i < y + 2 ^ cleared y)
  cleared-owner i out (y, lo, h, hi) li = elim (In-cases x (2 ^ k) y) [
    | inl (a, b) ↦ elim (block_free y a b) [
      | inl e ↦ absurd (omega (arith, size, ap (λ (z : ℕ). 2 ^ t z) e))
      | inr e ↦ absurd (omega arith)
    ]
    | inr o ↦
        let v : cleared y ≡ t y = fill-outside t x (2 ^ k) allocated y o in
        (y, lo, omega arith, omega (arith, ap (λ (j : ℕ). 2 ^ j) v))
  ]

  pub cleared-Shape : Shape cleared
  cleared-Shape = record {
    aligned = λ y ly h.
        let (out, v) = cleared-heads y h in
        subst (λ j. Aligned j y) (sym v) (sh.aligned y ly (omega arith));
    fits = λ y ly h.
        let (out, v) = cleared-heads y h in
        omega (arith, ap (λ (j : ℕ). 2 ^ j) v, sh.fits y ly (omega arith));
    body = λ y i ly h lo hi.
        let (out, v) = cleared-heads y h in
        let hi' : i < y + 2 ^ t y = omega (arith, ap (λ (j : ℕ). 2 ^ j) v) in
        fill-outside t x (2 ^ k) allocated i (disjoint y i ly (omega arith) out lo hi')
        ∙ sh.body y i ly (omega arith) lo hi';
    owned = λ i li e. elim (In-cases x (2 ^ k) i) [
      | inl (a, b) ↦ absurd (omega (arith, fill-inside t x (2 ^ k) allocated i a b))
      | inr out ↦
          cleared-owner i out (sh.owned i li (sym (fill-outside t x (2 ^ k) allocated i out) ∙ e))
            li
    ];
  }
