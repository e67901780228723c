-- ===== src/Paging/Space.antt =====
-- The address space that page tables stand for: what each page of virtual addresses is mapped to.
pub mod Growth
pub mod Lookup
pub mod Leaf
pub mod Refines
pub mod Window
pub mod Undo
use yoix.Base.{
  ℕ, ◌+◌, ◌*◌, ◌/◌, ◌%◌, ◌^◌, ◌≤◌, ◌<◌, ◌≡◌, Bool, Option, none, some, List, [], ◌∷◌, suc, ◌==◌,
  if◌then◌else◌,
}
use yoix.Paging.Machine.{Machine, pml4_index, pdpt_index, pd_index, pt_index}
use yoix.Paging.Entries.{page}
use yoix.Paging.Tables.{word}

-- The page that the entries at the indices lead to, from the page at `p` on.
abbrev pub follow : ℕ → Machine → ℕ → List ℕ → Option ℕ
follow offset m p [] = some p
follow offset m p (i ∷ is) =
    let rest = follow offset m (page (word offset m p i)) is in
    if word offset m p i % 2 == 1 then rest else none

abbrev pub indices : ℕ → List ℕ
indices v = pml4_index v ∷ pdpt_index v ∷ pd_index v ∷ pt_index v ∷ []

-- The page that the page of `v` is mapped to.
abbrev pub translate : ℕ → Machine → ℕ → Option ℕ
translate offset m v = follow offset m (page m.cr3) (indices v)

-- The processor ignores the bits of an address from 48 on.
abbrev pub same_page : ℕ → ℕ → Bool
same_page u v = u / 2 ^ 12 % 2 ^ 36 == v / 2 ^ 12 % 2 ^ 36

abbrev pub length : List ℕ → ℕ
length [] = 0
length (i ∷ is) = suc (length is)

abbrev pub AllIndex : List ℕ → Type 0
AllIndex [] = Unit {0}
AllIndex (i ∷ is) = (i < 512) × AllIndex is

-- No table is named by two entries.
abbrev pub IsTree : ℕ → Machine → (ℕ → ℕ) → Type 0
IsTree offset m level =
    (p i q j : ℕ)
    → 2 ≤ level p
    → i < 512
    → word offset m p i % 2 ≡ 1
    → 2 ≤ level q
    → j < 512
    → word offset m q j % 2 ≡ 1
    → page (word offset m p i) ≡ page (word offset m q j)
    → (p ≡ q) × (i ≡ j)
