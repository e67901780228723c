-- ===== src/Buddy/Laws/Usable.antt =====
-- `buddy_init` against the memory map as the boot protocol describes it: a page is usable that lies wholly
-- inside an entry of the usable type.
use yoix.Base.{
  ℕ, ◌+◌, ◌*◌, ◌^◌, ◌≤◌, ◌<◌, ◌≡◌, ◌⊎◌, inl, inr, some, none, true, Option, List, [], ◌∷◌, arith,
  Bool-cases,
}
use yoix.Buddy.State.{Buddy, max_pages, page_size, reserved}
use yoix.Buddy.Init.{MemmapEntry, init}
use yoix.Buddy.Valid.{free, status, IsValid}
use yoix.Buddy.Laws.Memmap.{length, covers, covered, Apart, covers-usable}
use yoix.Buddy.Laws.Init.{init-IsValid}

-- The page `i` lies inside the entry, which is usable, and below the allocator's limit.
abbrev pub UsableIn : Option MemmapEntry → ℕ → Type 0
UsableIn none i = ⊥
UsableIn (some e) i =
    (e.type ≡ 0)
    × (e.base ≤ i * page_size)
    × ((i + 1) * page_size ≤ e.base + e.length)
    × (i < max_pages)

abbrev pub Usable : List (Option MemmapEntry) → ℕ → Type 0
Usable [] i = ⊥
Usable (e ∷ es) i = UsableIn e i ⊎ Usable es i

-- No page is usable twice.
abbrev pub Disjoint : List (Option MemmapEntry) → Type 0
Disjoint [] = Unit {0}
Disjoint (e ∷ es) = ((i : ℕ) → UsableIn e i → Usable es i → ⊥) × Disjoint es

-- The entries end below the last page of the address space.
abbrev pub InSpace : List (Option MemmapEntry) → Type 0
InSpace [] = Unit {0}
InSpace (none ∷ es) = InSpace es
InSpace (some e ∷ es) = (e.base + e.length + page_size < 2 ^ 64) × InSpace es

covers-UsableIn :
    (e : Option MemmapEntry) (es : List (Option MemmapEntry)) (i : ℕ)
    → InSpace (e ∷ es)
    → covers e i ≡ true
    → UsableIn e i
covers-UsableIn none es i inside c = absurd (ground (arith, c))
covers-UsableIn (some e) es i inside c = (covers-usable e i inside.0).0 c

UsableIn-covers :
    (e : Option MemmapEntry) (es : List (Option MemmapEntry)) (i : ℕ)
    → InSpace (e ∷ es)
    → UsableIn e i
    → covers e i ≡ true
UsableIn-covers none es i inside u = absurd u
UsableIn-covers (some e) es i inside u = (covers-usable e i inside.0).1 u

rest_inside :
    (e : Option MemmapEntry) (es : List (Option MemmapEntry)) → InSpace (e ∷ es) → InSpace es
rest_inside none es inside = inside
rest_inside (some e) es inside = inside.1

covered-Usable :
    (es : List (Option MemmapEntry)) (i : ℕ) → InSpace es → covered es i ≡ true → Usable es i
covered-Usable [] i inside c = absurd (ground (arith, c))
covered-Usable (e ∷ es) i inside c = elim (Bool-cases (covers e i)) [
  | inl here ↦ inl (covers-UsableIn e es i inside here)
  | inr other ↦ inr (covered-Usable es i (rest_inside e es inside) (ground (arith, other, c)))
]

Usable-covered :
    (es : List (Option MemmapEntry)) (i : ℕ) → InSpace es → Usable es i → covered es i ≡ true
Usable-covered [] i inside u = absurd u
Usable-covered (e ∷ es) i inside (inl here) =
    let c = UsableIn-covers e es i inside here in ground (arith, c)
Usable-covered (e ∷ es) i inside (inr there) =
    let c = Usable-covered es i (rest_inside e es inside) there in ground (arith, c)

Disjoint-Apart : (es : List (Option MemmapEntry)) → InSpace es → Disjoint es → Apart es
Disjoint-Apart [] inside disjoint = tt
Disjoint-Apart (e ∷ es) inside (once, disjoint) = (
  λ i c. elim (Bool-cases (covered es i)) [
    | inr never ↦ never
    | inl again ↦ absurd (
        once i (covers-UsableIn e es i inside c)
          (covered-Usable es i (rest_inside e es inside) again))
  ],
  Disjoint-Apart es (rest_inside e es inside) disjoint,
)

-- With entries that end below the last page of the address space and share no usable page,
-- `buddy_init` ends without leaving its tables, in a valid state: a page that lies wholly inside a
-- usable entry and below the limit of the allocator is free, and every other page is reserved.
pub init-Usable :
    (es : List (Option MemmapEntry)) (s : Buddy)
    → InSpace es
    → Disjoint es
    → (s' : Buddy) × (init (some (record { entry_count = length es; entries = some es })) s
        ≡ some (tt, s'))
      × IsValid s'
      × ((i : ℕ) → Usable es i → status (s'.page_state i) ≡ free)
      × ((i : ℕ) → i < max_pages → (Usable es i → ⊥) → s'.page_state i ≡ reserved)
init-Usable es s inside disjoint =
    let (s', run, valid, frees, others) = init-IsValid es s (Disjoint-Apart es inside disjoint) in
    (
      s',
      run,
      valid,
      λ i u. frees i (Usable-covered es i inside u),
      λ i lt unused. elim (Bool-cases (covered es i)) [
        | inl c ↦ absurd (unused (covered-Usable es i inside c))
        | inr c ↦ others i lt c
      ],
    )
