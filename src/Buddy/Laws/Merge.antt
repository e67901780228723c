-- ===== src/Buddy/Laws/Merge.antt =====
-- One round of the coalescing loop of `buddy_free_pages`: the block and its buddy become one.
use yoix.Base.{
  ℕ, suc, ◌+◌, ◌-◌, ◌*◌, ◌/◌, ◌%◌, ◌^◌, ◌≤◌, ◌<◌, ◌≡◌, sym, ◌∙◌, ap, ◌⊎◌, inl, inr, bit_xor, true,
  some, arith, ap₂,
}
use yoix.Base.Bits.{bit_xor-bit}
use native.Mathlib.Nat.{two-pow-succ, add-mul, eq_of_mul-eq-mul_right}
use yoix.Buddy.State.{Buddy, max_pages, max_order, allocated, block_size}
use yoix.Buddy.Blocks.{remove_free_block}
use yoix.Buddy.Pages.{Aligned, fill, fill-inside, fill-outside, pow-pos}
use yoix.Buddy.Pages.Cleared.{block_free}
use yoix.Buddy.Rep.{unlinked}
use yoix.Buddy.Rep.Remove.{neighbours, unlinked-Rep}
use yoix.Buddy.Runs.Marking.{block_size-eq}
use yoix.Buddy.Runs.Listing.{remove_free_block-run}
use yoix.Buddy.Valid.{free, status, Out}
use yoix.Buddy.Laws.Split.{double}

-- `y` is the other half of the block of the next order that holds the block at `x`; `z` is the
-- start of that block.
pub record Buddies (x y z k : ℕ) : Type 0 where
  pub halves : ((z ≡ x) × (y ≡ x + 2 ^ k)) ⊎ ((z ≡ y) × (x ≡ y + 2 ^ k))
  pub aligned : Aligned (suc k) z

abbrev pub other_half : ℕ → ℕ → ℕ
other_half x k = bit_xor x (block_size k)

-- Toggling bit `k` of an aligned frame leads to the other half.
pub other_half-Buddies :
    (x k : ℕ) → k ≤ max_order → Aligned k x → (z : ℕ) × Buddies x (other_half x k) z k
other_half-Buddies x k le (q, e) =
    (h * 2 * 2 ^ k, record { halves = halves; aligned = (h, omega (arith, double h k)) })
  where
    h : ℕ
    h = q / 2

    toggled : other_half x k ≡ (h * 2 + (1 - q % 2)) * 2 ^ k
    toggled = ap₂ bit_xor e (block_size-eq k le) ∙ bit_xor-bit k q

    scaled : {a b : ℕ} → a ≡ b → a * 2 ^ k ≡ b * 2 ^ k
    scaled p = ap (λ (c : ℕ). c * 2 ^ k) p

    parity : (q ≡ h * 2) × (1 - q % 2 ≡ 1) ⊎ (q ≡ h * 2 + 1) × (1 - q % 2 ≡ 0)
    parity = omega arith

    halves :
        ((h * 2 * 2 ^ k ≡ x) × (other_half x k ≡ x + 2 ^ k))
        ⊎ ((h * 2 * 2 ^ k ≡ other_half x k) × (x ≡ other_half x k + 2 ^ k))
    halves = elim parity [
      | inl (even, one) ↦
          let up : (h * 2 + (1 - q % 2)) * 2 ^ k ≡ (h * 2 + 1) * 2 ^ k = scaled (omega arith) in
          inl (omega (arith, e, scaled even), omega (arith, e, toggled, scaled even, up))
      | inr (odd, zero_up) ↦
          let down : (h * 2 + (1 - q % 2)) * 2 ^ k ≡ h * 2 * 2 ^ k = scaled (omega arith) in
          inr (omega (arith, toggled, down), omega (arith, e, toggled, scaled odd, down))
    ]

-- A block has one other half.
pub Buddies-unique : {x y z y' z' k : ℕ} → Buddies x y z k → Buddies x y' z' k → y ≡ y'
Buddies-unique {x} {y} {z} {y'} {z'} {k} a b =
    let (q, e) = a.aligned in
    let (q', e') = b.aligned in
    let p = double q k in
    let p' = double q' k in
    elim a.halves [
      | inl (lower, up) ↦ elim b.halves [
        | inl (lower', up') ↦ up ∙ sym up'
        | inr (lower', up') ↦
            absurd (odd-even q q' (omega (arith, e, e', p, p', lower, lower', up')))
      ]
      | inr (lower, up) ↦ elim b.halves [
        | inl (lower', up') ↦
            absurd (odd-even q' q (omega (arith, e, e', p, p', lower, lower', up)))
        | inr (lower', up') ↦ omega (arith, up, up')
      ]
    ]
  where
    odd-even : (a b : ℕ) → a * 2 * 2 ^ k ≡ b * 2 * 2 ^ k + 2 ^ k → ⊥
    odd-even a b same =
        let parity =
          eq_of_mul-eq-mul_right (2 ^ k) (pow-pos k) (a * 2) (b * 2 + 1)
            (omega (arith, same, add-mul (b * 2) 1 (2 ^ k))) in
        omega (arith, parity)

module _ {s : Buddy} {t : ℕ → ℕ} {x y z k : ℕ} (le : k < max_order) (out : Out s t x k)
    (pair : Buddies x y z k) (lt : y < max_pages) (state : s.page_state y ≡ k) where
  apart : (y < x) ⊎ (x + 2 ^ k ≤ y)
  apart = omega (arith, pair.halves, pow-pos k)

  head : t y ≡ k
  head = sym (out.agrees y apart) ∙ state

  abbrev pub merged : ℕ → ℕ
  merged = fill t y (2 ^ k) allocated

  pub merge-run : remove_free_block y k s ≡ some (true, unlinked s y k)
  merge-run =
      let (first, before, after) = neighbours y k out.rep (omega arith) lt head in
      remove_free_block-run y k s (omega arith) lt first (λ d. ((before d).0, (before d).1))
        (λ d. (after d).0)

  -- The merged block is made up of the two.
  cover :
      (i : ℕ)
      → z ≤ i
      → i < z + 2 ^ suc k
      → ((y ≤ i) × (i < y + 2 ^ k)) ⊎ ((x ≤ i) × (i < x + 2 ^ k) × ((i < y) ⊎ (y + 2 ^ k ≤ i)))
  cover i lo hi = omega (arith, pair.halves, two-pow-succ k)

  pub inside : (z ≤ x) × (x + 2 ^ k ≤ z + 2 ^ suc k)
  inside = omega (arith, pair.halves, two-pow-succ k)

  outside :
      (i : ℕ)
      → (i < z) ⊎ (z + 2 ^ suc k ≤ i)
      → ((i < y) ⊎ (y + 2 ^ k ≤ i)) × ((i < x) ⊎ (x + 2 ^ k ≤ i))
  outside i o =
      (omega (arith, pair.halves, two-pow-succ k), omega (arith, pair.halves, two-pow-succ k))

  pub merge-Out : Out (unlinked s y k) merged z (suc k)
  merge-Out = record {
    rep = unlinked-Rep y k out.rep (omega arith) lt head;
    aligned = pair.aligned;
    fits = omega (
      arith,
      pair.halves,
      out.fits,
      two-pow-succ k,
      out.rep.shape.fits y lt (omega (arith, head)),
      ap (λ (j : ℕ). 2 ^ j) head,
    );
    held = λ i lo hi. elim (cover i lo hi) [
      | inl (a, b) ↦ fill-inside t y (2 ^ k) allocated i a b
      | inr (a, b, o) ↦ fill-outside t y (2 ^ k) allocated i o ∙ out.held i a b
    ];
    agrees = λ i o.
        let (oy, ox) = outside i o in
        out.agrees i ox ∙ sym (fill-outside t y (2 ^ k) allocated i oy);
  }

  -- What the merged block adds was free.
  pub merge-absorbed :
      (i : ℕ) → z ≤ i → i < z + 2 ^ suc k → (i < x) ⊎ (x + 2 ^ k ≤ i) → status (t i) ≡ free
  merge-absorbed i lo hi o = elim (cover i lo hi) [
    | inl (a, b) ↦ ground (arith, head, block_free y k out.rep.shape (omega arith) lt head i a b)
    | inr (a, b, p) ↦ absurd (omega arith)
  ]

  pub merge-others : (i : ℕ) → (i < z) ⊎ (z + 2 ^ suc k ≤ i) → merged i ≡ t i
  merge-others i o = fill-outside t y (2 ^ k) allocated i (outside i o).0
