-- ===== src/Heap/Laws/Lists/Count.antt =====
-- The length of a list of slab pages.
use yoix.Base.{
  ℕ, zero, suc, ◌*◌, ◌%◌, ◌≤◌, ◌<◌, ◌≡◌, subst, inl, inr, List, [], ◌∷◌, arith, same-cases, eq→==,
  ne→not-==,
}
use yoix.Base.Memory.{Memory}
use yoix.Buddy.State.{max_pages, page_size}
use yoix.Heap.Laws.Lists.{length, Absent, erase, Absent-erase, SlabList, end, page}

-- Addresses of pages below page `n`, none of them twice.
abbrev Below : ℕ → List ℕ → Type 0
Below n [] = Unit {0}
Below n (x ∷ xs) = (x < n * page_size) × (x % page_size ≡ 0) × Absent x xs × Below n xs

SlabList-Below :
    {offset : ℕ} {m : Memory} {p : ℕ} {xs : List ℕ} → SlabList offset m p xs → Below max_pages xs
SlabList-Below (end e) = tt
SlabList-Below (page real fresh rest) = (real.in_memory, real.whole, fresh, SlabList-Below rest)

Below-erase : (n q : ℕ) (xs : List ℕ) → Below n xs → Below n (erase q xs)
Below-erase n q [] b = tt
Below-erase n q (x ∷ xs) (lt, whole, fresh, below) = elim (same-cases x q) [
  | inl e ↦ rw (eq→== x q e) below
  | inr d ↦ rw (ne→not-== x q d) (lt, whole, Absent-erase x q xs fresh, Below-erase n q xs below)
]

length-erase : (q : ℕ) (xs : List ℕ) → length xs ≤ suc (length (erase q xs))
length-erase q [] = omega arith
length-erase q (x ∷ xs) = elim (same-cases x q) [
  | inl e ↦ rw (eq→== x q e) (omega arith)
  | inr d ↦ rw (ne→not-== x q d) (omega (arith, length-erase q xs))
]

-- Without the last page.
Below-less : (n : ℕ) (xs : List ℕ) → Below (suc n) xs → Absent (n * page_size) xs → Below n xs
Below-less n [] b a = tt
Below-less n (x ∷ xs) (lt, whole, fresh, below) (ne, absent) =
    (omega (arith, lt, whole, ne), whole, fresh, Below-less n xs below absent)

-- An erased page is gone, since it is in the list once.
erase-Absent : (n q : ℕ) (xs : List ℕ) → Below n xs → Absent q (erase q xs)
erase-Absent n q [] b = tt
erase-Absent n q (x ∷ xs) (lt, whole, fresh, below) = elim (same-cases x q) [
  | inl e ↦ rw (eq→== x q e) (subst (λ y. Absent y xs) e fresh)
  | inr d ↦ rw (ne→not-== x q d) (d, erase-Absent n q xs below)
]

length-Below : (n : ℕ) (xs : List ℕ) → Below n xs → length xs ≤ n
length-Below n [] b = omega arith
length-Below zero (x ∷ xs) (lt, _, _, _) = absurd (omega (arith, lt))
length-Below (suc n) (x ∷ xs) b =
    let q : ℕ = n * page_size in
    omega (
      arith,
      length-erase q (x ∷ xs),
      length-Below n (erase q (x ∷ xs)) (
          Below-less n (erase q (x ∷ xs)) (Below-erase (suc n) q (x ∷ xs) b)
            (erase-Absent (suc n) q (x ∷ xs) b)),
    )

-- A list has at most as many pages as memory.
pub length-SlabList :
    {offset : ℕ} {m : Memory} {p : ℕ} {xs : List ℕ} → SlabList offset m p xs → length xs ≤ max_pages
length-SlabList {xs = xs} l = length-Below max_pages xs (SlabList-Below l)
