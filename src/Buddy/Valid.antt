-- ===== src/Buddy/Valid.antt =====
-- Valid allocator states of kernel/src/memory/buddy.c, the abstract view of a page, and blocks that
-- an operation has taken out of the lists and not yet given a state in memory.
use yoix.Base.{
  ℕ, ◌+◌, ◌^◌, ◌≤◌, ◌<◌, ◌≡◌, sym, ◌∙◌, subst, fun_ext, ◌⊎◌, inl, inr, some, ◌||◌, arith, leb, ◌==◌,
  if◌then◌else◌,
}
use yoix.Buddy.State.{Buddy, max_pages, max_order, free_body, allocated}
use yoix.Buddy.Pages.{
  Aligned, Taken, mark, mark-head, mark-body, mark-outside, fill, fill-inside, fill-outside,
  In-cases,
}
use yoix.Buddy.Rep.{Rep}
use yoix.Buddy.Rep.Insert.{linked-Rep, head_bound}
use yoix.Buddy.Runs.Marking.{with_pages}
use yoix.Buddy.Runs.Listing.{added, add_free_block-run}
use yoix.Buddy.Blocks.{add_free_block}

pub data Status : Type 0 where
  free in_use unavailable : Status

-- What a page is to the clients of the allocator.
abbrev pub status : ℕ → Status
status v =
    if leb v max_order || (v == free_body)
    then free
    else if v == allocated
    then in_use
    else unavailable

-- The lists stand for the states in memory.
abbrev pub IsValid : Buddy → Type 0
IsValid s = Rep s s.page_state

pub Rep-with_pages : {s : Buddy} {t : ℕ → ℕ} (u : ℕ → ℕ) → Rep s t → Rep (with_pages s u) t
Rep-with_pages u rep = record { lists = rep.lists; shape = rep.shape }

-- The block is in no list; outside of it memory agrees with the table.
pub record Out (s : Buddy) (t : ℕ → ℕ) (x k : ℕ) : Type 0 where
  pub rep : Rep s t
  pub aligned : Aligned k x
  pub fits : x + 2 ^ k ≤ max_pages
  pub held : (i : ℕ) → x ≤ i → i < x + 2 ^ k → t i ≡ allocated
  pub agrees : (i : ℕ) → (i < x) ⊎ (x + 2 ^ k ≤ i) → s.page_state i ≡ t i

pub mark-agree :
    (f g : ℕ → ℕ) (x k i : ℕ)
    → ((i < x) ⊎ (x + 2 ^ k ≤ i) → f i ≡ g i)
    → mark f x k i ≡ mark g x k i
mark-agree f g x k i same = elim (In-cases x (2 ^ k) i) [
  | inl (lo, hi) ↦
      ground (arith, mark-head f x k, mark-head g x k, mark-body f x k i, mark-body g x k i)
  | inr out ↦ mark-outside f x k i out ∙ same out ∙ sym (mark-outside g x k i out)
]

pub status-mark :
    (t : ℕ → ℕ) (x k i : ℕ) → k ≤ max_order → x ≤ i → i < x + 2 ^ k → status (mark t x k i) ≡ free
status-mark t x k i le lo hi = ground (arith, mark-head t x k, mark-body t x k i)

-- Giving a block back: it is added to its list, and the state is valid again.
module _ {s : Buddy} {t : ℕ → ℕ} {x k : ℕ} (le : k ≤ max_order) (out : Out s t x k) where
  held-Taken : Taken t x k
  held-Taken i lo hi = omega (arith, out.held i lo hi)

  pub add-run : add_free_block x k s ≡ some (tt, added s x k)
  add-run =
      add_free_block-run x k s le out.fits
        (head_bound x k out.rep le out.aligned out.fits held-Taken)

  marked : mark t x k ≡ (added s x k).page_state
  marked = fun_ext λ i. mark-agree t s.page_state x k i λ o. sym (out.agrees i o)

  pub added-IsValid : IsValid (added s x k)
  added-IsValid = subst (Rep (added s x k)) marked (
      Rep-with_pages (mark s.page_state x k)
        (linked-Rep x k out.rep le out.aligned out.fits held-Taken))

  -- Marking it allocated instead leaves it with the caller.
  kept : t ≡ fill s.page_state x (2 ^ k) allocated
  kept = fun_ext λ i. elim (In-cases x (2 ^ k) i) [
    | inl (lo, hi) ↦ out.held i lo hi ∙ sym (fill-inside s.page_state x (2 ^ k) allocated i lo hi)
    | inr o ↦ sym (out.agrees i o) ∙ sym (fill-outside s.page_state x (2 ^ k) allocated i o)
  ]

  pub kept-IsValid : IsValid (with_pages s (fill s.page_state x (2 ^ k) allocated))
  kept-IsValid =
      subst (Rep (with_pages s (fill s.page_state x (2 ^ k) allocated))) kept
        (Rep-with_pages _ out.rep)
