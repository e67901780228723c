-- ===== src/Paging/Tables.antt =====
-- The page tables of kernel/src/memory/vmm.c as a graph. `level` says which physical pages hold
-- tables, and of which level; 0 is a page that holds none.
use yoix.Base.{
  ℕ, ◌+◌, ◌*◌, ◌/◌, ◌%◌, ◌^◌, ◌≤◌, ◌<◌, ◌≡◌, ◌≢◌, refl, ap, ◌∙◌, true, not, some, Prog, arith, ◌==◌,
}
use yoix.Buddy.State.{Buddy, max_pages, max_phys, u64}
use yoix.Buddy.Valid.{IsValid, status, free}
use yoix.Paging.Machine.{
  Machine, to_virt, slot, load, store, write_word, phy_to_virt, with_frames, on_frames,
}
use yoix.Paging.Entries.{page}

-- Entry `i` of the table at the physical address `p`.
abbrev pub word : ℕ → Machine → ℕ → ℕ → ℕ
word offset m p i = m.words (p + offset + 8 * i)

-- The entry is present and names the page `q`.
abbrev pub Link : ℕ → Machine → ℕ → ℕ → ℕ → Type 0
Link offset m p i q = (word offset m p i % 2 ≡ 1) × (page (word offset m p i) ≡ q)

-- The tables can be reached through the direct map, none lies in a free page, and a present entry
-- names a table of the level below.
pub record Tables (offset : ℕ) (m : Machine) (level : ℕ → ℕ) : Type 0 where
  pub mapped : m.hhdm ≡ some offset
  pub some_offset : 0 < offset
  pub window : max_phys + offset ≤ 2 ^ 64
  pub valid : IsValid m.frames
  pub root : level (page m.cr3) ≡ 4
  pub bounded : (p : ℕ) → 0 < level p → p + 4096 + offset ≤ 2 ^ 64
  pub aligned : (p : ℕ) → 0 < level p → p % 4096 ≡ 0
  pub used :
      (p : ℕ) → 0 < level p → p / 4096 < max_pages → status (m.frames.page_state (p / 4096)) ≢ free
  pub next :
      (p i : ℕ)
      → 2 ≤ level p
      → i < 512
      → word offset m p i % 2 ≡ 1
      → level (page (word offset m p i)) + 1 ≡ level p

module _ {offset : ℕ} {m : Machine} (mapped : m.hhdm ≡ some offset) (p : ℕ) where
  pub phy_to_virt-run : p + 4096 + offset ≤ 2 ^ 64 → phy_to_virt p m ≡ some (p + offset, m)
  unfolding phy_to_virt
  phy_to_virt-run h = ap (λ a. some (a, m)) (ap (λ hhdm. to_virt hhdm p) mapped ∙ same)
    where
      same : u64 (p + offset) ≡ p + offset
      same = omega arith

module _ (offset p i : ℕ) (some_offset : 0 < offset) (h : p + 4096 + offset ≤ 2 ^ 64)
    (lt : i < 512) where
  slot-eq : slot (p + offset) i ≡ p + offset + 8 * i
  slot-eq = omega arith

  real : not (p + offset == 0) ≡ true
  real = ground arith

  pub load-run : (m : Machine) → load (p + offset) i m ≡ some (word offset m p i, m)
  unfolding load
  load-run m = rw (real, slot-eq) refl

  pub store-run :
      (v : ℕ) (m : Machine)
      → store (p + offset) i v m
        ≡ some (tt, record m { words = write_word m.words (p + offset + 8 * i) v })
  unfolding store
  store-run v m = rw (real, slot-eq) refl

pub on_frames-run :
    {A : Type 0} (call : Prog Buddy A) (m : Machine) {a : A} {s' : Buddy}
    → call m.frames ≡ some (a, s')
    → on_frames call m ≡ some (a, record m { frames = s' })
unfolding on_frames
on_frames-run call m e = ap (with_frames m) e
