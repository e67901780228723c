-- ===== src/Paging/Entries.antt =====
-- The entries and indices of kernel/src/memory/vmm.c as arithmetic.
use yoix.Base.{ℕ, ◌+◌, ◌*◌, ◌/◌, ◌%◌, ◌^◌, ◌<◌, ◌≡◌, ap, ap₂, ◌∙◌, bit_and, bit_or, arith}
use yoix.Base.Bits.{bit_and-mask, bit_and-field, bit_or-shifted, bit_or-low}
use yoix.Paging.Machine.{page_present, page_writable, page_addr_mask}

-- The page that an entry or an address names.
abbrev pub page : ℕ → ℕ
page e = e / 4096 % 2 ^ 40 * 4096

pub bit_and-present : (e : ℕ) → bit_and e page_present ≡ e % 2
bit_and-present e = bit_and-mask 1 e

pub bit_and-address : (e : ℕ) → bit_and e page_addr_mask ≡ page e
bit_and-address e = bit_and-field 40 12 e

pub bit_and-index : (a : ℕ) → bit_and a 0x1FF ≡ a % 512
bit_and-index a = bit_and-mask 9 a

-- The entry of a new table.
pub table_entry : (q : ℕ) → bit_or (bit_or (q * 4096) page_present) page_writable ≡ q * 4096 + 3
table_entry q =
    ap (λ (n : ℕ). bit_or n page_writable) (bit_or-shifted 12 q 1 (omega arith))
    ∙ bit_or-low 12 q 1 2 (omega arith) (omega arith)

-- The entry of a page.
pub page_entry :
    (p flags : ℕ) → flags < 4096 → bit_or (bit_and p page_addr_mask) flags ≡ page p + flags
page_entry p flags h =
    ap (λ (n : ℕ). bit_or n flags) (bit_and-address p)
    ∙ bit_or-shifted 12 (p / 4096 % 2 ^ 40) flags h

-- The address that an entry of the last level gives.
pub entry_address :
    (e v : ℕ) → bit_or (bit_and e page_addr_mask) (bit_and v 0xFFF) ≡ page e + v % 4096
entry_address e v =
    ap₂ bit_or (bit_and-address e) (bit_and-mask 12 v)
    ∙ bit_or-shifted 12 (e / 4096 % 2 ^ 40) (v % 4096) (omega arith)
