-- ===== src/Buddy/Laws/Free.antt =====
-- `buddy_free_pages`: the block is merged with its free buddies and given back.
use yoix.Base.{
  ℕ, zero, suc, ◌+◌, ◌-◌, ◌^◌, ◌≤◌, ◌<◌, ◌≡◌, ◌≢◌, refl, sym, ◌∙◌, ap, subst, ◌⊎◌, inl, inr, false,
  some, arith, ltb, ◌==◌, if◌then◌else◌, Bool-cases, ==→eq, le-cases, lt→ltb, lt→not-leb, le→leb,
  eq→==,
}
use yoix.Buddy.State.{Buddy, max_pages, max_order, allocated}
use yoix.Buddy.Ops.{coalesce, free_block}
use yoix.Buddy.Pages.{Aligned, mark-outside, mark-head, In-cases, pow-pos}
use yoix.Buddy.Rep.{unlinked}
use yoix.Buddy.Runs.Listing.{added}
use yoix.Buddy.Valid.{free, status, IsValid, Out, status-mark, add-run, added-IsValid}
use yoix.Buddy.Laws.Merge.{
  Buddies, Buddies-unique, other_half, other_half-Buddies, merged, merge-run, merge-Out,
  merge-absorbed, inside, merge-others,
}

-- What the loop ends with: a block around the first one, all of it out of the lists.
pub record CoalesceResult (left x k : ℕ) (s : Buddy) (t : ℕ → ℕ) : Type 0 where
  pub frame : ℕ
  pub order : ℕ
  pub state : Buddy
  pub table : ℕ → ℕ
  pub runs : coalesce left x k s ≡ some ((frame, order), state)
  pub out : Out state table frame order
  pub in_range : order ≤ max_order
  pub around : (frame ≤ x) × (x + 2 ^ k ≤ frame + 2 ^ order)
  pub stops :
      order < max_order
      → (max_pages ≤ other_half frame order) ⊎ (state.page_state (other_half frame order) ≢ order)
  pub absorbed :
      (i : ℕ) → frame ≤ i → i < frame + 2 ^ order → (i < x) ⊎ (x + 2 ^ k ≤ i) → status (t i) ≡ free
  pub others : (i : ℕ) → (i < frame) ⊎ (frame + 2 ^ order ≤ i) → table i ≡ t i

module _ {left x k : ℕ} {s : Buddy} {t : ℕ → ℕ} (le : k ≤ max_order) (out : Out s t x k) where
  -- The loop stops at once.
  stopped :
      coalesce left x k s ≡ some ((x, k), s)
      → (k < max_order → (max_pages ≤ other_half x k) ⊎ (s.page_state (other_half x k) ≢ k))
      → CoalesceResult left x k s t
  stopped run stops = record {
    frame = x;
    order = k;
    state = s;
    table = t;
    runs = run;
    out = out;
    in_range = le;
    around = omega arith;
    stops = stops;
    absorbed = λ i lo hi o. absurd (omega arith);
    others = λ i o. refl;
  }

-- A round that merges the block with its buddy `y` into the one at `z`.
module _ {left x y z k : ℕ} {s : Buddy} {t : ℕ → ℕ} (le : k < max_order) (out : Out s t x k)
    (pair : Buddies x y z k) (same : other_half x k ≡ y) (lt : y < max_pages)
    (state : s.page_state y ≡ k)
    (go : CoalesceResult left z (suc k) (unlinked s y k) (merged le out pair lt state)) where
  least : (if ltb x y then x else y) ≡ z
  least = ground (arith, pair.halves, pow-pos k)

  round-runs : coalesce (suc left) x k s ≡ some ((go.frame, go.order), go.state)
  unfolding coalesce
  round-runs =
      rw
        (
          same,
          lt→not-leb max_pages y lt,
          lt→ltb y max_pages lt,
          eq→== (s.page_state y) k state,
          merge-run le out pair lt state,
          least,
        )
        go.runs

  round : CoalesceResult (suc left) x k s t
  round = record {
    frame = go.frame;
    order = go.order;
    state = go.state;
    table = go.table;
    runs = round-runs;
    out = go.out;
    in_range = go.in_range;
    around = omega (arith, go.around, inside le out pair lt state);
    stops = go.stops;
    absorbed = λ i lo hi o. elim (In-cases z (2 ^ suc k) i) [
      | inl (a, b) ↦ merge-absorbed le out pair lt state i a b o
      | inr p ↦
          subst (λ v. status v ≡ free) (merge-others le out pair lt state i p)
            (go.absorbed i lo hi p)
    ];
    others = λ i o. go.others i o ∙ merge-others le out pair lt state i (omega (arith, go.around));
  }

coalesce-beyond :
    (left x k : ℕ) (s : Buddy)
    → max_pages ≤ other_half x k
    → coalesce (suc left) x k s ≡ some ((x, k), s)
unfolding coalesce
coalesce-beyond left x k s h = rw (le→leb max_pages (other_half x k) h)

coalesce-other :
    (left x k : ℕ) (s : Buddy)
    → other_half x k < max_pages
    → (s.page_state (other_half x k) == k) ≡ false
    → coalesce (suc left) x k s ≡ some ((x, k), s)
unfolding coalesce
coalesce-other left x k s h d =
    rw (lt→not-leb max_pages (other_half x k) h, lt→ltb (other_half x k) max_pages h, d)

pub coalesce-run :
    (left x k : ℕ) (s : Buddy) (t : ℕ → ℕ)
    → left + k ≡ max_order
    → Out s t x k
    → CoalesceResult left x k s t
coalesce-run zero x k s t e out =
    stopped (omega arith) out (unfold coalesce in refl) (λ more. absurd (omega (arith, more, e)))
coalesce-run (suc left) x k s t e out =
    let (z, pair) = other_half-Buddies x k (omega arith) out.aligned in
    elim (le-cases max_pages (other_half x k)) [
      | inl beyond ↦ stopped (omega arith) out (coalesce-beyond left x k s beyond) (λ _. inl beyond)
      | inr lt ↦ elim (Bool-cases (s.page_state (other_half x k) == k)) [
        | inr other ↦
            stopped (omega arith) out (coalesce-other left x k s lt other)
              (λ _. inr (λ same. absurd (ground (arith, other, same))))
        | inl hit ↦
            let state = ==→eq _ _ hit in
            round (omega arith) out pair refl lt state (
              coalesce-run left z (suc k) (unlinked s (other_half x k) k)
                (merged (omega arith) out pair lt state) (omega arith)
                (merge-Out (omega arith) out pair lt state))
      ]
    ]

-- The pages of the block are free afterwards, and no other page has changed hands.
pub record Freed (s : Buddy) (x k : ℕ) (s' : Buddy) : Type 0 where
  pub valid : IsValid s'
  pub now_free : (i : ℕ) → x ≤ i → i < x + 2 ^ k → status (s'.page_state i) ≡ free
  pub others :
      (i : ℕ) → (i < x) ⊎ (x + 2 ^ k ≤ i) → status (s'.page_state i) ≡ status (s.page_state i)

-- The pages of the block lie in a free block whose other half is no free block of the same order: as
-- long as it was, the two have been merged.
pub record Merged (x k : ℕ) (s' : Buddy) : Type 0 where
  pub head : ℕ
  pub order : ℕ
  pub in_range : order ≤ max_order
  pub around : (head ≤ x) × (x + 2 ^ k ≤ head + 2 ^ order)
  pub listed : s'.page_state head ≡ order
  pub maximal :
      (y z : ℕ)
      → Buddies head y z order
      → order < max_order
      → y < max_pages
      → s'.page_state y ≢ order

-- A block that its caller holds: aligned, inside memory, and every page marked allocated.
pub record Block (s : Buddy) (x k : ℕ) : Type 0 where
  pub aligned : Aligned k x
  pub fits : x + 2 ^ k ≤ max_pages
  pub used : (i : ℕ) → x ≤ i → i < x + 2 ^ k → s.page_state i ≡ allocated

module _ {s : Buddy} (valid : IsValid s) (x k : ℕ) (le : k ≤ max_order) (b : Block s x k) where
  at_start : Out s s.page_state x k
  at_start = record {
    rep = valid;
    aligned = b.aligned;
    fits = b.fits;
    held = b.used;
    agrees = λ i o. refl;
  }

  merged_all : CoalesceResult (max_order - k) x k s s.page_state
  merged_all = coalesce-run (max_order - k) x k s s.page_state (omega arith) at_start

  after : Buddy
  after = added merged_all.state merged_all.frame merged_all.order

  after-free :
      (i : ℕ)
      → merged_all.frame ≤ i
      → i < merged_all.frame + 2 ^ merged_all.order
      → status (after.page_state i) ≡ free
  unfolding after
  after-free i lo hi =
      status-mark merged_all.state.page_state merged_all.frame merged_all.order i
        merged_all.in_range lo hi

  after-others :
      (i : ℕ) → (i < x) ⊎ (x + 2 ^ k ≤ i) → status (after.page_state i) ≡ status (s.page_state i)
  unfolding after
  after-others i o = elim (In-cases merged_all.frame (2 ^ merged_all.order) i) [
    | inl (lo, hi) ↦ after-free i lo hi ∙ sym (merged_all.absorbed i lo hi o)
    | inr p ↦ ap status (
        mark-outside merged_all.state.page_state merged_all.frame merged_all.order i p
        ∙ merged_all.out.agrees i p
        ∙ merged_all.others i p)
  ]

  after-maximal :
      (y z : ℕ)
      → Buddies merged_all.frame y z merged_all.order
      → merged_all.order < max_order
      → y < max_pages
      → after.page_state y ≢ merged_all.order
  unfolding after
  after-maximal y z pair more lt state =
      let (z', pair') =
        other_half-Buddies merged_all.frame merged_all.order merged_all.in_range
          merged_all.out.aligned in
      let same = Buddies-unique pair pair' in
      let kept =
        mark-outside merged_all.state.page_state merged_all.frame merged_all.order y
          (omega (arith, pair.halves, pow-pos merged_all.order)) in
      elim (merged_all.stops more) [
        | inl beyond ↦ absurd (omega (arith, same, beyond, lt))
        | inr other ↦ other (ap merged_all.state.page_state (sym same) ∙ sym kept ∙ state)
      ]

  free_block-run : free_block x k s ≡ some (tt, after)
  unfolding free_block after
  free_block-run = rw merged_all.runs (add-run merged_all.in_range merged_all.out)

  -- Freeing a block that is held, with the order it was allocated at, never leaves the tables. It
  -- makes exactly the pages of the block free and keeps the state valid. The pages then lie in a
  -- free block that is of the largest order, or whose other half lies outside memory or is not the
  -- head of a free block of the same order: free buddies are merged as far as they go.
  pub free_block-Freed :
      (s' : Buddy) × (free_block x k s ≡ some (tt, s')) × Freed s x k s' × Merged x k s'
  free_block-Freed = (
    after,
    free_block-run,
    record {
      valid = unfold after in added-IsValid merged_all.in_range merged_all.out;
      now_free = λ i lo hi.
          after-free i (omega (arith, merged_all.around)) (omega (arith, merged_all.around));
      others = after-others;
    },
    record {
      head = merged_all.frame;
      order = merged_all.order;
      in_range = merged_all.in_range;
      around = merged_all.around;
      listed =
          unfold after in mark-head merged_all.state.page_state merged_all.frame merged_all.order;
      maximal = after-maximal;
    },
  )
