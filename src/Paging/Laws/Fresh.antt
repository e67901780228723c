-- ===== src/Paging/Laws/Fresh.antt =====
-- `Make_Page`.
use yoix.Base.{
  ℕ, zero, suc, ◌+◌, ◌*◌, ◌^◌, ◌≤◌, ◌<◌, ◌≡◌, refl, sym, ◌∙◌, subst, ◌⊎◌, inl, inr, false, Option,
  some, arith, ◌==◌, eq-cases,
}
use yoix.Buddy.State.{Buddy, max_phys, page_size, invalid_address, max_pages}
use yoix.Buddy.Ops.{alloc_page, order_from_pages}
use yoix.Buddy.Valid.{IsValid}
use yoix.Buddy.Laws.Allocate.{Allocated, Exhausted}
use yoix.Buddy.Laws.AllocPages.{PagesResult, block, refused, alloc_pages-Result, one_page}
use yoix.Paging.Machine.{Machine, slot, store, write_word}
use yoix.Paging.Ops.{clear_page, make_page}
use yoix.Paging.Tables.{phy_to_virt-run, on_frames-run}

-- The memory after the loop of `Make_Page`.
unfoldable pub wiped : ℕ → ℕ → ℕ → (ℕ → ℕ) → ℕ → ℕ
wiped zero i base f = f
wiped (suc left) i base f = wiped left (i + 1) base (write_word f (slot base i) 0)

pub clear_page-run :
    (left i base : ℕ) (m : Machine)
    → 0 < base
    → clear_page left i base m ≡ some (tt, record m { words = wiped left i base m.words })
unfolding clear_page wiped store
clear_page-run zero i base m pos = refl
clear_page-run (suc left) i base m pos = rw cleared (clear_page-run left (i + 1) base _ pos)
  where
    cleared : store base i 0 m ≡ some (tt, record m { words = write_word m.words (slot base i) 0 })
    cleared = ground arith

module _ (base : ℕ) (room : base + 4096 ≤ 2 ^ 64) where
  pub wiped-outside :
      (left i : ℕ) (f : ℕ → ℕ) (b : ℕ)
      → i + left ≤ 512
      → (b < base) ⊎ (base + 4096 ≤ b)
      → wiped left i base f b ≡ f b
  unfolding wiped
  wiped-outside zero i f b le out = refl
  wiped-outside (suc left) i f b le out =
      wiped-outside left (i + 1) (write_word f (slot base i) 0) b (omega arith) out ∙ ground arith

  wiped-before :
      (left i : ℕ) (f : ℕ → ℕ) (b : ℕ)
      → i + left ≤ 512
      → b < base + 8 * i
      → wiped left i base f b ≡ f b
  unfolding wiped
  wiped-before zero i f b le out = refl
  wiped-before (suc left) i f b le out =
      wiped-before left (i + 1) (write_word f (slot base i) 0) b (omega arith) (omega arith)
      ∙ ground arith

  pub wiped-inside :
      (left i : ℕ) (f : ℕ → ℕ) (j : ℕ)
      → i + left ≤ 512
      → i ≤ j
      → j < i + left
      → wiped left i base f (base + 8 * j) ≡ 0
  unfolding wiped
  wiped-inside zero i f j le lo hi = absurd (omega arith)
  wiped-inside (suc left) i f j le lo hi = elim (eq-cases i j) [
    | inl here ↦
        wiped-before left (i + 1) (write_word f (slot base i) 0) (base + 8 * j) (omega arith)
          (omega arith)
        ∙ ground arith
    | inr other ↦
        (wiped-inside left (i + 1) (write_word f (slot base i) 0) j (omega arith) (omega arith)
          (omega arith))
  ]

-- A zeroed page that was free, or nothing when no page is free.
pub data MakeResult (offset : ℕ) (m : Machine) : Option (ℕ × Machine) → Type 0 where
  none_free : Exhausted m.frames 0 → MakeResult offset m (some (invalid_address, m))
  made :
      {x : ℕ} {s' : Buddy}
      → Allocated m.frames 0 x s'
      → MakeResult offset m (
          some (
            x * page_size,
            record m { frames = s'; words = wiped 512 0 (x * page_size + offset) m.words },
          ))

make_page-none :
    {m : Machine}
    → alloc_page m.frames ≡ some (invalid_address, m.frames)
    → make_page m ≡ some (invalid_address, m)
unfolding make_page
make_page-none {m} e = rw (on_frames-run alloc_page m e) refl

module _ {offset : ℕ} (m : Machine) (mapped : m.hhdm ≡ some offset) (some_offset : 0 < offset)
    (window : max_phys + offset ≤ 2 ^ 64) where
  make_page-made :
      {x : ℕ} {s' : Buddy}
      → x < max_pages
      → alloc_page m.frames ≡ some (x * page_size, s')
      → make_page m
        ≡ some (
          x * page_size,
          record m { frames = s'; words = wiped 512 0 (x * page_size + offset) m.words },
        )
  unfolding make_page
  make_page-made {x} {s'} lt e =
      rw
        (
          on_frames-run alloc_page m e,
          real,
          phy_to_virt-run {m = record m { frames = s' }} mapped (x * page_size) (omega arith),
          clear_page-run 512 0 (x * page_size + offset) (record m { frames = s' }) (omega arith),
        )
        refl
    where
      real : (x * page_size == invalid_address) ≡ false
      real = ground arith

  pub make_page-Result : IsValid m.frames → MakeResult offset m (make_page m)
  unfolding alloc_page
  make_page-Result valid = go (alloc_pages-Result 1 valid (omega arith) (omega arith)) refl
    where
      go :
          {r : Option (ℕ × Buddy)}
          → PagesResult m.frames (order_from_pages 1) r
          → alloc_page m.frames ≡ r
          → MakeResult offset m (make_page m)
      go (block {x} {s'} a) e =
          let a' : Allocated m.frames 0 x s' = subst (λ k. Allocated m.frames k x s') one_page a in
          subst (MakeResult offset m) (sym (make_page-made (omega (arith, a'.fits)) e)) (made a')
      go (refused small) e =
          subst (MakeResult offset m) (sym (make_page-none e))
            (none_free (subst (Exhausted m.frames) one_page small))
