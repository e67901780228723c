-- ===== src/Heap/Laws/Lists.antt =====
-- The list of slab pages of a cache, as a list of their addresses.
pub mod Count
pub mod Unlink
pub mod Remove
pub mod Steps
use yoix.Base.{
  ℕ, zero, suc, ◌+◌, ◌*◌, ◌-◌, ◌/◌, ◌%◌, ◌^◌, ◌≤◌, ◌<◌, ◌≡◌, ◌≢◌, refl, sym, ap, ◌∙◌, subst, ◌⊎◌,
  inl, inr, true, false, List, [], ◌∷◌, some, arith, ◌==◌, if◌then◌else◌, same-cases, eq→==,
  ne→not-==,
}
use yoix.Base.Memory.{Memory, read, write, read-write, read-write_apart, read-lt}
use yoix.Buddy.State.{Buddy, max_phys, max_pages, page_size}
use yoix.Heap.State.{Heap, field_next, update}

abbrev pub length : List ℕ → ℕ
length [] = 0
length (x ∷ xs) = suc (length xs)

-- `q` is not in the list.
abbrev pub Absent : ℕ → List ℕ → Type 0
Absent q [] = Unit {0}
Absent q (x ∷ xs) = (x ≢ q) × Absent q xs

-- The list without `q`.
abbrev pub erase : ℕ → List ℕ → List ℕ
erase q [] = []
erase q (x ∷ xs) = if x == q then xs else x ∷ erase q xs

pub Absent-erase : (p q : ℕ) (xs : List ℕ) → Absent p xs → Absent p (erase q xs)
Absent-erase p q [] a = tt
Absent-erase p q (x ∷ xs) (ne, a) = elim (same-cases x q) [
  | inl e ↦ rw (eq→== x q e) a
  | inr d ↦ rw (ne→not-== x q d) (ne, Absent-erase p q xs a)
]

-- The address of a page of memory other than page 0.
pub record IsPage (p : ℕ) : Type 0 where
  pub real : 0 < p
  pub in_memory : p < max_phys
  pub whole : p % page_size ≡ 0

abbrev pub next_of : ℕ → Memory → ℕ → ℕ
next_of offset m p = read 8 m (p + offset + field_next)

-- The memory once the field `next` of the page at `p` is `v`.
abbrev pub set_next : ℕ → ℕ → ℕ → Memory → Memory
set_next offset p v m = write 8 m (p + offset + field_next) v

-- The pages from `p` on by their fields `next`, none of them twice.
pub data SlabList (offset : ℕ) (m : Memory) : ℕ → List ℕ → Type 0 where
  end : {p : ℕ} → p ≡ 0 → SlabList offset m p []
  page :
      {p : ℕ} {xs : List ℕ}
      → IsPage p
      → Absent p xs
      → SlabList offset m (next_of offset m p) xs
      → SlabList offset m p (p ∷ xs)

-- A list depends on the fields `next` of its pages.
pub SlabList-cong :
    {offset : ℕ} {m m' : Memory} {p : ℕ} {xs : List ℕ}
    → SlabList offset m p xs
    → (q r : ℕ) → ((t : ℕ) → IsPage t → t ≢ q → t ≢ r → next_of offset m' t ≡ next_of offset m t)
    → Absent q xs
    → Absent r xs
    → SlabList offset m' p xs
SlabList-cong (end e) q r same no_q no_r = end e
SlabList-cong {offset} {m} {m'} (page {p} {xs} real fresh rest) q r same (ne_q, no_q) (ne_r, no_r) =
    page real fresh (
      subst (λ n. SlabList offset m' n xs) (sym (same p real ne_q ne_r))
        (SlabList-cong rest q r same no_q no_r))

pub next-set_next :
    (offset : ℕ) (m : Memory) (p v : ℕ) → v < 256 ^ 8 → next_of offset (set_next offset p v m) p ≡ v
next-set_next offset m p v h = read-write 8 m (p + offset + field_next) v h

pub next-set_next_other :
    (offset : ℕ) (m : Memory) (p v t : ℕ)
    → IsPage p
    → IsPage t
    → t ≢ p
    → next_of offset (set_next offset p v m) t ≡ next_of offset m t
next-set_next_other offset m p v t a b d =
    read-write_apart 8 8 m (p + offset + field_next) v (t + offset + field_next)
      (ground (arith, a.whole, b.whole, d))
