-- ===== src/Heap/Laws/Classes.antt =====
-- `heap_cache_index`.
use yoix.Base.{
  ℕ, ◌+◌, ◌*◌, ◌^◌, ◌≤◌, ◌<◌, ◌≡◌, refl, ap, inl, inr, none, some, List, [], ◌∷◌, arith, le-cases,
  same-cases, le→leb, lt→not-leb, le→not-ltb, lt→ltb,
}
use yoix.Heap.State.{class_count, min_object_size}
use yoix.Heap.Slabs.{class_from, cache_index, cache_sizes}

-- The class is the smallest whose objects hold the request.
pub record Class (size index : ℕ) : Type 0 where
  pub in_range : index < class_count
  pub holds : size ≤ 8 * 2 ^ index
  pub least : (j : ℕ) → j < index → 8 * 2 ^ j < size

pub cache_index-none : (size : ℕ) → 2048 < size → cache_index size ≡ none
unfolding cache_index class_from
cache_index-none size h = ground arith

-- The sizes from a class on double, up to the last class.
abbrev Doubling : ℕ → List ℕ → Type 0
Doubling index [] = index ≡ class_count
Doubling index (size ∷ sizes) =
    (index < class_count) × (size ≡ 8 * 2 ^ index) × Doubling (index + 1) sizes

class_from-Class :
    (index : ℕ) (sizes : List ℕ) (size : ℕ)
    → Doubling index sizes
    → size ≤ 2048
    → ((j : ℕ) → j < index → 8 * 2 ^ j < size)
    → (found : ℕ) × (class_from index sizes size ≡ some found) × Class size found
unfolding class_from
class_from-Class index [] size last small passed =
    absurd (omega (arith, passed 8 (omega (arith, last))))
class_from-Class index (next ∷ sizes) size (lt, here, later) small passed =
    elim (le-cases size next) [
      | inl fits ↦ (
        index,
        rw (le→leb size next fits) refl,
        record { in_range = lt; holds = omega (arith, here); least = passed },
      )
      | inr more ↦ rw (lt→not-leb size next more) (
          class_from-Class (index + 1) sizes size later small (λ j lt'. elim (same-cases j index) [
            | inl e ↦ omega (arith, ap (λ (k : ℕ). 2 ^ k) e, here, more)
            | inr d ↦ passed j (ground (arith, d))
          ]))
    ]

-- For requests of at most 2048 bytes `heap_cache_index` returns the smallest class whose objects hold
-- the request.
pub cache_index-Class :
    (size : ℕ) → size ≤ 2048 → (index : ℕ) × (cache_index size ≡ some index) × Class size index
unfolding cache_index
cache_index-Class size h = elim (le-cases min_object_size size) [
  | inl le ↦
      rw (le→not-ltb size min_object_size le)
        (class_from-Class 0 cache_sizes size doubling h (λ j lt. absurd (omega arith)))
  | inr lt ↦ rw (lt→ltb size min_object_size lt) (
      rounded_up lt (
        class_from-Class 0 cache_sizes min_object_size doubling (omega arith)
          (λ j lt. absurd (omega arith))))
]
  where
    doubling : Doubling 0 cache_sizes
    doubling = omega arith

    rounded_up :
        size < min_object_size
        → (index : ℕ) × (class_from 0 cache_sizes min_object_size ≡ some index)
          × Class min_object_size index
        → (index : ℕ) × (class_from 0 cache_sizes min_object_size ≡ some index) × Class size index
    rounded_up lt (index, run, c) = (
      index,
      run,
      record {
        in_range = c.in_range;
        holds = omega (arith, c.holds);
        least = λ j lt'. absurd (omega (arith, c.least 0 (omega (arith, lt'))));
      },
    )
