-- ===== src/Paging/Laws/Reached.antt =====
-- What a step to the next level leaves in the tables.
use yoix.Base.{ℕ, ◌+◌, ◌%◌, ◌<◌, ◌≡◌, ◌≢◌, ◌⊎◌, Option, some}
use yoix.Buddy.Laws.Allocate.{Exhausted}
use yoix.Paging.Machine.{Machine}
use yoix.Paging.Tables.{word, Link, Tables}

-- The entry was present.
abbrev pub Followed : ℕ → Machine → ℕ → ℕ → Type 0
Followed offset m p i = word offset m p i % 2 ≡ 1

-- The table is a new one, and zeroed.
abbrev pub Created : ℕ → (ℕ → ℕ) → ℕ → Machine → Type 0
Created offset level q m' = (level q ≡ 0) × ((j : ℕ) → j < 512 → word offset m' q j ≡ 0)

-- Entry `i` of the table at `p` now names the table at `q`, and every other entry of a table is what it was.
pub record Reached (offset : ℕ) (m : Machine) (level : ℕ → ℕ) (p i q : ℕ) (m' : Machine)
    (level' : ℕ → ℕ) : Type 0 where
  pub tables : Tables offset m' level'
  pub cr3 : m'.cr3 ≡ m.cr3
  pub link : Link offset m' p i q
  pub extends : (r : ℕ) → 0 < level r → level' r ≡ level r
  pub kept :
      (r j : ℕ) → 0 < level r → j < 512 → (r ≢ p) ⊎ (j ≢ i) → word offset m' r j ≡ word offset m r j
  pub marked :
      (r j : ℕ)
      → 0 < level r
      → j < 512
      → word offset m r j % 2 ≡ 1
      → word offset m' r j ≡ word offset m r j
  pub table : (r : ℕ) → 0 < level' r → (0 < level r) ⊎ (r ≡ q)
  pub step : Followed offset m p i ⊎ Created offset level q m'

pub data NextResult (offset : ℕ) (m : Machine) (level : ℕ → ℕ) (p i : ℕ)
    : Option (ℕ × Machine) → Type 0 where
  full : Exhausted m.frames 0 → NextResult offset m level p i (some (0, m))
  reached :
      {q : ℕ} {m' : Machine} (level' : ℕ → ℕ)
      → Reached offset m level p i q m' level'
      → NextResult offset m level p i (some (q + offset, m'))
