-- ===== src/Buddy/Init.antt =====
-- kernel/src/memory/buddy.c: `buddy_init`, over what it reads of the boot loader's memory map. The
-- response is the boot loader's; its entries are given by their addresses.
use yoix.Base.{
  ℕ, zero, suc, ◌+◌, ◌-◌, ◌/◌, ◌^◌, not, Option, none, some, List, [], ◌∷◌, Prog, pure, fault, ◌>>◌,
  ltb, leb, ◌==◌, if◌then◌else◌,
}
use yoix.Buddy.State.{Buddy, page_size, max_pages, u32, u64}
use yoix.Buddy.Blocks.{reset}
use yoix.Buddy.Ops.{align_up, align_down, add_range}

-- `LIMINE_MEMMAP_USABLE`.
abbrev pub memmap_usable : ℕ
memmap_usable = 0

-- The fields of `struct limine_memmap_entry`.
pub record MemmapEntry : Type 0 where
  pub base : ℕ
  pub length : ℕ
  pub type : ℕ

-- `struct limine_memmap_response`: `entries` is NULL or an array of pointers.
pub record MemmapResponse : Type 0 where
  pub entry_count : ℕ
  pub entries : Option (List (Option MemmapEntry))

-- The frames of a usable entry, or nothing if the loop passes it over.
unfoldable pub usable_frames : MemmapEntry → Option (ℕ × ℕ)
usable_frames entry =
    if not (entry.type == memmap_usable)
    then none
    else let start = align_up entry.base page_size in
      let end = align_down (u64 (entry.base + entry.length)) page_size in
      if leb end start
      then none
      else let first_frame = start / page_size in
        let last_frame = end / page_size in
        if leb max_pages first_frame
        then none
        else some (first_frame, if ltb max_pages last_frame then max_pages else last_frame)

unfoldable pub add_frames : Option (ℕ × ℕ) → Prog Buddy (Unit {0})
add_frames none = pure tt
add_frames (some (first_frame, last_frame)) =
    add_range (u32 first_frame) (u32 (last_frame + 2 ^ 64 - first_frame))

unfoldable pub add_entry : Option MemmapEntry → Prog Buddy (Unit {0})
add_entry none = pure tt
add_entry (some entry) = add_frames (usable_frames entry)

-- The loop over the entries, with the rounds left. Reading past the array is a fault.
unfoldable pub add_entries : ℕ → List (Option MemmapEntry) → Prog Buddy (Unit {0})
add_entries zero entries = pure tt
add_entries (suc left) [] = fault
add_entries (suc left) (entry ∷ entries) = do add_entry entry; add_entries left entries

unfoldable pub add_response : Option MemmapResponse → Prog Buddy (Unit {0})
add_response none = pure tt
add_response (some response) =
    if response.entry_count == 0 then pure tt else (elim response.entries [
      | none ↦ pure tt
      | some entries ↦ add_entries response.entry_count entries
    ])

unfoldable pub init : Option MemmapResponse → Prog Buddy (Unit {0})
init response = do reset; add_response response
