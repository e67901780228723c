-- ===== src/Buddy/Laws/Split.antt =====
-- The splitting loop of `buddy_allocate_block`.
use yoix.Base.{
  ℕ, zero, suc, ◌+◌, ◌*◌, ◌^◌, ◌≤◌, ◌<◌, ◌≡◌, refl, sym, ◌∙◌, ap, subst, ◌⊎◌, inl, inr, some, arith,
  le-cases,
}
use native.Mathlib.Nat.{two-pow-succ}
use yoix.Buddy.State.{Buddy, max_pages, max_order, u32}
use yoix.Buddy.Blocks.{add_free_block}
use yoix.Buddy.Ops.{split_block}
use yoix.Buddy.Pages.{Aligned, Taken, mark, mark-outside, pow-pos}
use yoix.Buddy.Rep.Insert.{linked-Rep, head_bound}
use yoix.Buddy.Runs.Marking.{block_size-eq}
use yoix.Buddy.Runs.Listing.{added, add_free_block-run}
use yoix.Buddy.Valid.{status, free, Out, Rep-with_pages, mark-agree, status-mark}

pub double : (q k : ℕ) → q * 2 ^ suc k ≡ 2 * (q * 2 ^ k)
double q k = omega (arith, ap (λ (t : ℕ). q * t) (two-pow-succ k))

-- The upper half of a block that is out goes back; the lower half stays out.
module _ {s : Buddy} {t : ℕ → ℕ} (x k : ℕ) (le : suc k ≤ max_order) (out : Out s t x (suc k)) where
  abbrev upper : ℕ
  upper = x + 2 ^ k

  upper-Aligned : Aligned k upper
  upper-Aligned = let (q, e) = out.aligned in (2 * q + 1, omega (arith, e, double q k))

  upper-Taken : Taken t upper k
  upper-Taken i lo hi = omega (arith, out.held i (omega arith) (omega (arith, two-pow-succ k)))

  upper-fits : upper + 2 ^ k ≤ max_pages
  upper-fits = omega (arith, out.fits, two-pow-succ k)

  half-run : add_free_block upper k s ≡ some (tt, added s upper k)
  half-run =
      add_free_block-run upper k s (omega arith) upper-fits
        (head_bound upper k out.rep (omega arith) upper-Aligned upper-fits upper-Taken)

  half-Out : Out (added s upper k) (mark t upper k) x k
  half-Out = record {
    rep =
        Rep-with_pages (mark s.page_state upper k)
          (linked-Rep upper k out.rep (omega arith) upper-Aligned upper-fits upper-Taken);
    aligned = let (q, e) = out.aligned in (2 * q, omega (arith, e, double q k));
    fits = omega (arith, upper-fits);
    held = λ i lo hi.
        mark-outside t upper k i (inl hi) ∙ out.held i lo (omega (arith, two-pow-succ k));
    agrees = λ i o.
        mark-agree s.page_state t upper k i λ p. out.agrees i (omega (arith, two-pow-succ k, o, p));
  }

-- What the loop leaves of a block of order `top`: the part at its start of order `order`.
pub record SplitResult (n x order top : ℕ) (s : Buddy) (t : ℕ → ℕ) : Type 0 where
  pub state : Buddy
  pub table : ℕ → ℕ
  pub runs : split_block n x order s ≡ some (tt, state)
  pub out : Out state table x order
  pub rest : (i : ℕ) → x + 2 ^ order ≤ i → i < x + 2 ^ top → status (table i) ≡ free
  pub others : (i : ℕ) → (i < x) ⊎ (x + 2 ^ top ≤ i) → table i ≡ t i

module _ {s : Buddy} {t : ℕ → ℕ} (n x order k : ℕ) (le : suc k ≤ max_order)
    (out : Out s t x (suc k)) (e : order + n ≡ k)
    (go : SplitResult n x order k (added s (x + 2 ^ k) k) (mark t (x + 2 ^ k) k)) where
  round-runs : split_block (suc n) x order s ≡ some (tt, go.state)
  unfolding split_block
  round-runs = rw (e, block_size-eq k (omega arith), wrap, half-run x k le out) go.runs
    where
      wrap : u32 (x + 2 ^ k) ≡ x + 2 ^ k
      wrap = omega (arith, out.fits, two-pow-succ k, pow-pos k)

  round-rest : (i : ℕ) → x + 2 ^ order ≤ i → i < x + 2 ^ suc k → status (go.table i) ≡ free
  round-rest i lo hi = elim (le-cases (x + 2 ^ k) i) [
    | inr below ↦ go.rest i lo below
    | inl above ↦
        subst (λ v. status v ≡ free) (sym (go.others i (inr above)))
          (status-mark t (x + 2 ^ k) k i (omega arith) above (omega (arith, two-pow-succ k)))
  ]

  round : SplitResult (suc n) x order (suc k) s t
  round = record {
    state = go.state;
    table = go.table;
    runs = round-runs;
    out = go.out;
    rest = round-rest;
    others = λ i o.
        go.others i (omega (arith, two-pow-succ k))
        ∙ mark-outside t (x + 2 ^ k) k i (omega (arith, two-pow-succ k));
  }

pub split_block-run :
    (n x order top : ℕ) (s : Buddy) (t : ℕ → ℕ)
    → order + n ≡ top
    → top ≤ max_order
    → Out s t x top
    → SplitResult n x order top s t
split_block-run zero x order top s t e le out =
    let e' : top ≡ order = omega arith in
    record {
      state = s;
      table = t;
      runs = unfold split_block in refl;
      out = subst (Out s t x) e' out;
      rest = λ i lo hi. absurd (omega (arith, ap (λ (j : ℕ). 2 ^ j) e'));
      others = λ i o. refl;
    }
split_block-run (suc n) x order zero s t e le out = absurd (omega arith)
split_block-run (suc n) x order (suc k) s t e le out = round n x order k le out (omega arith) (
    split_block-run n x order k (added s (x + 2 ^ k) k) (mark t (x + 2 ^ k) k) (omega arith)
      (omega arith) (half-Out x k le out))
