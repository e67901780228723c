-- ===== src/Buddy/Laws/Memmap.antt =====
-- Which pages `buddy_init` adds for an entry of the boot loader's memory map.
use yoix.Base.{
  ℕ, suc, ◌+◌, ◌-◌, ◌*◌, ◌/◌, ◌^◌, ◌≤◌, ◌<◌, ◌≡◌, refl, ◌↔◌, inl, inr, some, none, Bool, true,
  false, ◌||◌, ◌&&◌, Option, List, [], ◌∷◌, arith, leb, ltb, Bool-cases,
}
use yoix.Base.Bits.{bit_and-high}
use yoix.Buddy.State.{max_pages, page_size, u64}
use yoix.Buddy.Ops.{align_up, align_down}
use yoix.Buddy.Init.{MemmapEntry, usable_frames}
use yoix.Buddy.Laws.Rounding.{align_up-page, align_down-page}

abbrev pub length : List (Option MemmapEntry) → ℕ
length [] = 0
length (_ ∷ es) = suc (length es)

-- Whether the page lies in the frames that the loop adds for the entry.
abbrev pub within : Option (ℕ × ℕ) → ℕ → Bool
within none i = false
within (some (first, last)) i = leb first i && ltb i last

abbrev pub covers : Option MemmapEntry → ℕ → Bool
covers none i = false
covers (some entry) i = within (usable_frames entry) i

abbrev pub covered : List (Option MemmapEntry) → ℕ → Bool
covered [] i = false
covered (e ∷ es) i = covers e i || covered es i

-- The usable entries do not overlap: the boot protocol guarantees it.
abbrev pub Apart : List (Option MemmapEntry) → Type 0
Apart [] = Unit
Apart (e ∷ es) = ((i : ℕ) → covers e i ≡ true → covered es i ≡ false) × Apart es

align_up-multiple : (v : ℕ) → (q : ℕ) × (align_up v page_size ≡ q * page_size)
unfolding align_up
align_up-multiple v =
    let w : ℕ = u64 (u64 (v + page_size) + 2 ^ 64 - 1) in
    (w / 4096, bit_and-high 52 12 w (omega arith))

align_down-multiple : (v : ℕ) → v < 2 ^ 64 → (q : ℕ) × (align_down v page_size ≡ q * page_size)
unfolding align_down
align_down-multiple v h = (v / 4096, bit_and-high 52 12 v (omega arith))

-- The frames of a usable entry are a range inside memory.
pub usable_frames-bounds :
    (e : MemmapEntry) {first last : ℕ}
    → usable_frames e ≡ some (first, last)
    → (first < last) × (last ≤ max_pages)
unfolding usable_frames
usable_frames-bounds e h =
    ground
      (arith, align_up-multiple e.base, align_down-multiple (u64 (e.base + e.length)) (omega arith))

-- Without wrap-around these are exactly the pages that lie wholly inside a usable entry and below
-- the allocator's limit.
pub covers-usable :
    (e : MemmapEntry) (i : ℕ)
    → e.base + e.length + page_size < 2 ^ 64
    → (covers (some e) i ≡ true) ↔ (
        (e.type ≡ 0)
        × (e.base ≤ i * page_size)
        × ((i + 1) * page_size ≤ e.base + e.length)
        × (i < max_pages))
unfolding usable_frames
covers-usable e i small = ground (
  arith,
  align_up-page e.base (omega arith),
  align_down-page (u64 (e.base + e.length)) (omega arith),
)

within-lt :
    (r : Option (ℕ × ℕ)) (i : ℕ)
    → ((first last : ℕ) → r ≡ some (first, last) → (first < last) × (last ≤ max_pages))
    → within r i ≡ true
    → i < max_pages
within-lt none i bounds c = absurd (ground arith)
within-lt (some (first, last)) i bounds c = ground (arith, (bounds first last refl).1)

pub covered-lt : (es : List (Option MemmapEntry)) (i : ℕ) → covered es i ≡ true → i < max_pages
covered-lt [] i c = absurd (ground arith)
covered-lt (none ∷ es) i c = covered-lt es i c
covered-lt (some e ∷ es) i c = elim (Bool-cases (covered es i)) [
  | inl later ↦ covered-lt es i later
  | inr never ↦
      within-lt (usable_frames e) i (λ first last h. usable_frames-bounds e h) (ground arith)
]
