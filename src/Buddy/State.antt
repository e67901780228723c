-- ===== src/Buddy/State.antt =====
-- The static tables of kernel/src/memory/buddy.c and the accesses to them. A table is a function
-- from its index; an access past the end of the C array is a fault.
use yoix.Base.{ℕ, ◌+◌, ◌%◌, ◌^◌, ◌/◌, ◌*◌, ◌-◌, Prog, check, ◌>>◌, ltb, ◌==◌, if◌then◌else◌, some}

abbrev pub page_size : ℕ
page_size = 0x1000

abbrev pub max_phys : ℕ
max_phys = 1 * 1024 * 1024 * 1024

abbrev pub max_pages : ℕ
max_pages = max_phys / page_size

abbrev pub max_order : ℕ
max_order = 18

abbrev pub invalid_address : ℕ
invalid_address = 2 ^ 64 - 1

-- `UINT32_MAX`, the end of a free list.
abbrev pub nil : ℕ
nil = 2 ^ 32 - 1

-- `BUDDY_PAGE_STATE_FREE_BODY`, `_ALLOCATED` and `_RESERVED`.
abbrev pub free_body : ℕ
free_body = 0xfd

abbrev pub allocated : ℕ
allocated = 0xfe

abbrev pub reserved : ℕ
reserved = 0xff

abbrev pub unsplittable_size : ℕ
unsplittable_size = 4096

abbrev pub u32 : ℕ → ℕ
u32 n = n % 2 ^ 32

abbrev pub u64 : ℕ → ℕ
u64 n = n % 2 ^ 64

pub record Buddy : Type 0 where
  pub page_state : ℕ → ℕ
  pub free_list : ℕ → ℕ
  pub free_next : ℕ → ℕ
  pub free_prev : ℕ → ℕ

abbrev pub write : (ℕ → ℕ) → ℕ → ℕ → ℕ → ℕ
write f i v j = if j == i then v else f j

-- `1U << order`.
unfoldable pub block_size : ℕ → ℕ
block_size order = u32 (2 ^ order)

abbrev pub in_pages : ℕ → Prog Buddy (Unit {0})
in_pages i = check (ltb i max_pages)

abbrev pub in_lists : ℕ → Prog Buddy (Unit {0})
in_lists order = check (ltb order (max_order + 1))

abbrev pub read_state : ℕ → Prog Buddy ℕ
read_state i = in_pages i >> λ s. some (s.page_state i, s)

abbrev pub read_next : ℕ → Prog Buddy ℕ
read_next i = in_pages i >> λ s. some (s.free_next i, s)

abbrev pub read_prev : ℕ → Prog Buddy ℕ
read_prev i = in_pages i >> λ s. some (s.free_prev i, s)

abbrev pub read_list : ℕ → Prog Buddy ℕ
read_list order = in_lists order >> λ s. some (s.free_list order, s)

abbrev pub write_state : ℕ → ℕ → Prog Buddy (Unit {0})
write_state i v = in_pages i >> λ s. some (tt, record s { page_state = write s.page_state i v })

abbrev pub write_next : ℕ → ℕ → Prog Buddy (Unit {0})
write_next i v = in_pages i >> λ s. some (tt, record s { free_next = write s.free_next i v })

abbrev pub write_prev : ℕ → ℕ → Prog Buddy (Unit {0})
write_prev i v = in_pages i >> λ s. some (tt, record s { free_prev = write s.free_prev i v })

abbrev pub write_list : ℕ → ℕ → Prog Buddy (Unit {0})
write_list order v =
    in_lists order >> λ s. some (tt, record s { free_list = write s.free_list order v })
