-- ===== src/Buddy/Chain.antt =====
-- The doubly linked free lists of kernel/src/memory/buddy.c as lists of frames: what a chain of
-- `next` and `prev` entries is, and what survives a change of them.
use yoix.Base.{
  ℕ, ◌<◌, ◌≡◌, refl, ◌∙◌, ◌≢◌, ◌⊎◌, inl, inr, Bool, true, false, ◌||◌, List, [], ◌∷◌, arith, ◌==◌,
  if◌then◌else◌, subst, sym, ◌&&◌, not,
}
use mathlib.Core.Path.{subst₂}
use native.Mathlib.Decide.{ℕ_discrete}
use yoix.Buddy.State.{nil, max_pages, write}

abbrev pub has : ℕ → List ℕ → Bool
has a [] = false
has a (x ∷ xs) = (a == x) || has a xs

abbrev pub erase : ℕ → List ℕ → List ℕ
erase a [] = []
erase a (x ∷ xs) = if a == x then xs else x ∷ erase a xs

abbrev pub Links : Type 0
Links = ℕ → ℕ

-- From `c`, behind `b`, the links lead through the distinct frames of the list to the end.
pub data Chain (n p : Links) : ℕ → ℕ → List ℕ → Type 0 where
  end : {b c : ℕ} → c ≡ nil → Chain n p b c []
  link :
      {b c : ℕ} {xs : List ℕ}
      → c < max_pages
      → p c ≡ b
      → has c xs ≡ false
      → Chain n p c (n c) xs
      → Chain n p b c (c ∷ xs)

erase-first : (x y : ℕ) (ys : List ℕ) → x ≡ y → erase x (y ∷ ys) ≡ ys
erase-first x y ys e = ground arith

erase-later : (x y : ℕ) (ys : List ℕ) → x ≢ y → erase x (y ∷ ys) ≡ y ∷ erase x ys
erase-later x y ys e = ground arith

not-has-erase : (a x : ℕ) (xs : List ℕ) → has a xs ≡ false → has a (erase x xs) ≡ false
not-has-erase a x [] h = refl
not-has-erase a x (y ∷ xs) h = ground (arith, not-has-erase a x xs)

has-ne : (a b : ℕ) (xs : List ℕ) → has a xs ≡ true → has b xs ≡ false → a ≢ b
has-ne a b xs i o e = ground arith

-- The links and the head after `buddy_remove_free_block` has taken `x` out.
abbrev pub next_without : Links → Links → ℕ → Links
next_without n p x = write (if p x == nil then n else write n (p x) (n x)) x nil

abbrev pub prev_without : Links → Links → ℕ → Links
prev_without n p x = write (if n x == nil then p else write p (n x) (p x)) x nil

abbrev pub head_without : Links → Links → ℕ → ℕ → ℕ
head_without n p x c = if p x == nil then n x else c

pub Chain-cast :
    {n p : Links} {b c d : ℕ} {xs ys : List ℕ}
    → c ≡ d
    → xs ≡ ys
    → Chain n p b c xs
    → Chain n p b d ys
Chain-cast {n} {p} {b} e f h = subst₂ (Chain n p b) e f h

module _ {n p : Links} where
  pub Chain-lt :
      {b c : ℕ} {xs : List ℕ} (a : ℕ) → Chain n p b c xs → has a xs ≡ true → a < max_pages
  Chain-lt a (end e) i = absurd (ground arith)
  Chain-lt a (link {c} fits back out rest) i = ground (arith, Chain-lt a rest)

  -- The first frame is on the list, or the list is empty.
  pub Chain-first : {b c : ℕ} {xs : List ℕ} → Chain n p b c xs → (c ≡ nil) ⊎ (has c xs ≡ true)
  Chain-first (end e) = inl e
  Chain-first (link {c} fits back out rest) = inr (ground arith)

  pub Chain-head :
      {b c : ℕ} {xs : List ℕ}
      → Chain n p b c xs
      → c ≢ nil
      → (c < max_pages) × (p c ≡ b) × (has c xs ≡ true)
  Chain-head (end e) d = absurd (d e)
  Chain-head (link {c} fits back out rest) d = (fits, back, ground arith)

  pub Chain-empty : {b c : ℕ} {xs : List ℕ} (a : ℕ) → Chain n p b c xs → c ≡ nil → has a xs ≡ false
  Chain-empty a (end e) d = refl
  Chain-empty a (link fits back out rest) d = absurd (omega arith)

  pub Chain-pred :
      {b c : ℕ} {xs : List ℕ} (a : ℕ)
      → Chain n p b c xs
      → has a xs ≡ true
      → ((p a ≡ b) × (a ≡ c)) ⊎ ((has (p a) xs ≡ true) × (n (p a) ≡ a))
  Chain-pred a (end e) i = absurd (ground arith)
  Chain-pred a (link {c} fits back out rest) i = ground (arith, Chain-pred a rest)

  pub Chain-succ :
      {b c : ℕ} {xs : List ℕ} (a : ℕ)
      → Chain n p b c xs
      → has a xs ≡ true
      → (n a ≡ nil) ⊎ (has (n a) xs ≡ true)
  Chain-succ a (end e) i = absurd (ground arith)
  Chain-succ a (link {c} fits back out rest) i = ground (arith, Chain-succ a rest, Chain-first rest)

  -- A chain survives a change that spares its own frames.
  pub Chain-frame :
      {n' p' : Links} {b c : ℕ} {xs : List ℕ}
      → Chain n p b c xs
      → ((a : ℕ) → has a xs ≡ true → (n' a ≡ n a) × (p' a ≡ p a))
      → Chain n' p' b c xs
  Chain-frame (end e) same = end e
  Chain-frame {n'} {p'} (link {c} fits back out rest) same =
      let at : (n' c ≡ n c) × (p' c ≡ p c) = same c (ground arith) in
      link fits (at.1 ∙ back) out (rw at.0 (Chain-frame rest (λ a i. same a (ground arith))))

  -- So does the part behind a frame, when its first frame is linked back to another one.
  pub Chain-relink :
      {n' p' : Links} {b c : ℕ} {xs : List ℕ} (b' : ℕ)
      → Chain n p b c xs
      → ((a : ℕ) → has a xs ≡ true → (n' a ≡ n a) × (a ≢ c → p' a ≡ p a))
      → (c ≢ nil → p' c ≡ b')
      → Chain n' p' b' c xs
  Chain-relink b' (end e) same first = end e
  Chain-relink {n'} {p'} b' (link {c} fits back out rest) same first =
      let at : n' c ≡ n c = (same c (ground arith)).0 in
      link fits (first (omega arith)) out (
        rw at (
          Chain-frame rest
            (λ a i. ((same a (ground arith)).0, (same a (ground arith)).1 (ground arith)))))

  -- Taking a frame out of the part behind `b`, by a link from its predecessor to its successor.
  pub Chain-unlink :
      {n' p' : Links} {b c : ℕ} {xs : List ℕ} (x : ℕ)
      → Chain n p b c xs
      → has b xs ≡ false
      → n b ≡ c
      → has x xs ≡ true
      → n' (p x) ≡ n x
      → ((a : ℕ) → a ≢ p x → n' a ≡ n a)
      → (n x ≢ nil → p' (n x) ≡ p x)
      → ((a : ℕ) → a ≢ n x → p' a ≡ p a)
      → Chain n' p' b (n' b) (erase x xs)
  Chain-unlink x (end e) out from i nx ns px ps = absurd (ground arith)
  Chain-unlink {n'} {p'} {b} x (link {c = y} {xs = ys} fits back new rest) out from i nx ns px ps =
      elim (ℕ_discrete x y) [
        | yes here ↦ subst (Chain n' p' b (n' b)) (sym (erase-first x y ys here)) (
            let onward : n' b ≡ n y = ground arith in
            rw onward (
              Chain-relink b rest
                (λ a m. (ns a (ground (arith, has-ne a b ys m)), λ d. ps a (ground arith)))
                (λ d. ground (arith, px))))
        | no there ↦ subst (Chain n' p' b (n' b)) (sym (erase-later x y ys there)) (
            let below : has x ys ≡ true = ground arith in
            let onward : n' b ≡ y = ground (arith, Chain-pred x rest below, ns b) in
            let spared : p' y ≡ b = ground (arith, Chain-succ x rest below, ps y) in
            rw onward (
              link fits spared (not-has-erase y x ys new)
                (Chain-unlink x rest new refl below nx ns px ps)))
      ]

  -- Erasing keeps exactly the other frames.
  pub has-erase :
      {b c : ℕ} {xs : List ℕ} (a x : ℕ)
      → Chain n p b c xs
      → has a (erase x xs) ≡ (has a xs && not (a == x))
  has-erase a x (end e) = refl
  has-erase a x (link {c} {xs} fits back out rest) = ground (arith, has-erase a x rest)

  -- What the tests of `buddy_remove_free_block` find at a frame of the list.
  pub Chain-tests :
      {c : ℕ} {xs : List ℕ} (x : ℕ)
      → Chain n p nil c xs
      → has x xs ≡ true
      → (p x ≡ nil → c ≡ x)
        × (p x ≢ nil → (p x < max_pages) × (n (p x) ≡ x) × (has (p x) xs ≡ true))
        × (n x ≢ nil → (n x < max_pages) × (has (n x) xs ≡ true))
  Chain-tests x h i = (
    λ e. ground (arith, Chain-pred x h i, Chain-lt (p x) h),
    λ d. ground (arith, Chain-pred x h i, Chain-lt (p x) h),
    λ d. ground (arith, Chain-succ x h i, Chain-lt (n x) h),
  )

-- Taking a frame out leaves a chain of the others.
pub Chain-remove :
    {n p : Links} {c : ℕ} {xs : List ℕ} (x : ℕ)
    → Chain n p nil c xs
    → has x xs ≡ true
    → Chain (next_without n p x) (prev_without n p x) nil (head_without n p x c) (erase x xs)
Chain-remove x (end e) i = absurd (ground arith)
Chain-remove {n} {p} x (link {c = y} {xs = ys} fits back new rest) i = elim (ℕ_discrete x y) [
  | yes here ↦
      Chain-cast (ground arith) (sym (erase-first x y ys here))
        (Chain-relink nil rest (λ a m. ground (arith, has-ne a y ys m)) (λ d. ground arith))
  | no there ↦
      let below : has x ys ≡ true = ground arith in
      let behind : p x ≢ nil = ground (arith, Chain-pred x rest below, Chain-lt (p x) rest) in
      let apart : y ≢ n x = ground (arith, Chain-succ x rest below) in
      let unlinked =
        Chain-unlink {n' = write n (p x) (n x)} {p' = if n x == nil then p else write p (n x) (p x)}
          x rest new refl below (ground arith) (λ a d. ground arith) (λ d. ground arith)
          (λ a d. ground arith) in
      Chain-cast (ground arith) (sym (erase-later x y ys there)) (
        link fits (ground arith) (not-has-erase y x ys new) (
          Chain-frame (Chain-cast (ground arith) refl unlinked)
            (λ a m. ground (arith, has-erase a x rest))))
]
