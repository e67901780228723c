-- ===== src/Buddy/Examples/Starting.antt =====
-- The loops that add memory, the initialization and the arithmetic of buddy.c at concrete states.
use yoix.Base.{
  inl, inr, ℕ, ◌+◌, ◌*◌, ◌^◌, ◌≤◌, ◌<◌, ◌≡◌, ◌↔◌, true, Option, some, none, List, [], ◌∷◌, arith,
}
use yoix.Buddy.State
use yoix.Buddy.State.{Buddy, nil, max_pages, max_order, reserved, free_body, allocated}
use yoix.Buddy.State.{block_size}
use yoix.Buddy.Ops.{align_down, order_from_pages, add_range}
use yoix.Buddy.Init.{MemmapEntry, init}
use yoix.Buddy.Laws.Rounding.{order_from_pages-Least, align_down-page}
use yoix.Buddy.Laws.AddRange.{Added, add_range-Added}
use yoix.Buddy.Laws.Memmap.{covers, covers-usable}
use yoix.Buddy.Laws.Usable.{Usable, init-Usable}
use yoix.Buddy.Valid.{IsValid, status, free}
use yoix.Buddy.Examples.{sample, sample-IsValid}

order_from_pages-Least_example :
    (order_from_pages 5 ≤ max_order)
    × (5 ≤ 2 ^ order_from_pages 5)
    × ((j : ℕ) → j < order_from_pages 5 → 2 ^ j < 5)
order_from_pages-Least_example = order_from_pages-Least 5 (omega arith)

align_down_at_page : align_down 0x1fff State.page_size ≡ 0x1000
align_down_at_page = align_down-page 0x1fff (omega arith)

add_range-Added_example :
    (s' : Buddy) × (add_range 9 7 sample ≡ some (tt, s')) × Added sample 9 7 s'
add_range-Added_example = add_range-Added 9 7 sample-IsValid (omega arith) (λ i lo hi. ground arith)

abbrev low_memory : MemmapEntry
low_memory = record { base = 0x1800; length = 0x6000; type = 0 }

covers-usable_example : (covers (some low_memory) 3 ≡ true) ↔ (
    (low_memory.type ≡ 0)
    × (0x1800 ≤ 3 * State.page_size)
    × ((3 + 1) * State.page_size ≤ 0x1800 + 0x6000)
    × (3 < max_pages))
covers-usable_example = covers-usable low_memory 3 (omega arith)

abbrev memory_map : List (Option MemmapEntry)
memory_map = some low_memory ∷ none ∷ []

init-Usable_example :
    (s' : Buddy) × (init (some (record { entry_count = 2; entries = some memory_map })) sample
      ≡ some (tt, s'))
    × IsValid s'
    × ((i : ℕ) → Usable memory_map i → status (s'.page_state i) ≡ free)
    × ((i : ℕ) → i < max_pages → (Usable memory_map i → ⊥) → s'.page_state i ≡ reserved)
init-Usable_example =
    init-Usable memory_map sample (omega arith, tt)
      (
        (λ i here again. elim again [ inl none_here ↦ none_here | inr none_there ↦ none_there ]),
        ((λ i here again. again), tt),
      )
