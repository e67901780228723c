-- ===== src/Paging/Laws/Levels.antt =====
-- The walk of `vmm_map`, which creates the tables that are missing.
use yoix.Base.{
  ℕ, ◌+◌, ◌/◌, ◌%◌, ◌^◌, ◌≤◌, ◌<◌, List, ◌≡◌, refl, sym, ap, ◌∙◌, subst, false, Option, some, arith,
  ◌==◌, if◌then◌else◌, and_then, Prog, pure, ◌>>=◌,
}
use yoix.Buddy.Laws.Allocate.{Exhausted}
use yoix.Paging.Machine.{Machine, pml4_index, pdpt_index, pd_index}
use yoix.Paging.Ops.{get_next_level, next_levels}
use yoix.Paging.Entries.{page}
use yoix.Paging.Tables.{word, Link, Tables}
use yoix.Paging.Space.{follow, length, AllIndex, IsTree}
use yoix.Paging.Space.Growth.{follow-Reached, IsTree-Reached}
use yoix.Paging.Laws.Walk.{Route, index_lt, root-run, Link-level}
use yoix.Paging.Laws.Reached.{Reached, NextResult, full, reached}
use yoix.Paging.Laws.Next.{get_next_level-Result}

-- Later tables keep the earlier ones and their present entries.
pub record Kept (offset : ℕ) (m : Machine) (level : ℕ → ℕ) (m' : Machine) (level' : ℕ → ℕ)
    : Type 0 where
  pub tables : Tables offset m' level'
  pub cr3 : m'.cr3 ≡ m.cr3
  pub extends : (r : ℕ) → 0 < level r → level' r ≡ level r
  pub marked :
      (r j : ℕ)
      → 0 < level r
      → j < 512
      → word offset m r j % 2 ≡ 1
      → word offset m' r j ≡ word offset m r j
  pub space :
      (r : ℕ) (is : List ℕ)
      → 0 < level r
      → level r ≡ length is
      → AllIndex is
      → follow offset m' r is ≡ follow offset m r is
  pub tree : IsTree offset m level → IsTree offset m' level'

module _ {offset : ℕ} {m : Machine} {level : ℕ → ℕ} where
  Kept-same : Tables offset m level → Kept offset m level m level
  Kept-same tables = record {
    tables = tables;
    cr3 = refl;
    extends = λ r pos. refl;
    marked = λ r j pos h on. refl;
    space = λ r is pos deep all. refl;
    tree = λ t. t;
  }

  Kept-Reached :
      {m₁ m₂ : Machine} {level₁ level₂ : ℕ → ℕ} {p i q : ℕ}
      → Kept offset m level m₁ level₁
      → 2 ≤ level₁ p
      → i < 512
      → Reached offset m₁ level₁ p i q m₂ level₂
      → Kept offset m level m₂ level₂
  Kept-Reached {m₁} {level₁ = level₁} k le lt r = record {
    tables = r.tables;
    cr3 = r.cr3 ∙ k.cr3;
    extends = λ t pos. r.extends t (live k t pos) ∙ k.extends t pos;
    marked = λ t j pos h on.
        r.marked t j (live k t pos) h (ap (λ (w : ℕ). w % 2) (k.marked t j pos h on) ∙ on)
        ∙ k.marked t j pos h on;
    space = λ t is pos deep all.
        follow-Reached k.tables le lt r t is (k.extends t pos ∙ deep) all
        ∙ k.space t is pos deep all;
    tree = λ t. IsTree-Reached k.tables le lt r (k.tree t);
  }
    where
      live : Kept offset m level m₁ level₁ → (t : ℕ) → 0 < level t → 0 < level₁ t
      live k t pos = omega (arith, k.extends t pos)

  Reached-Link :
      (r j : ℕ) {p i q n : ℕ} {m' : Machine} {level' : ℕ → ℕ}
      → 0 < level r
      → j < 512
      → Reached offset m level p i q m' level'
      → Link offset m r j n
      → Link offset m' r j n
  Reached-Link r j pos h k (on, names) =
      let same = k.marked r j pos h on in (ap (λ (w : ℕ). w % 2) same ∙ on, ap page same ∙ names)

-- The table of the last level, or NULL with no free page.
pub data Walked (offset : ℕ) (m : Machine) (level : ℕ → ℕ) (v : ℕ)
    : Option (ℕ × Machine) → Type 0 where
  stuck :
      {m' : Machine} (level' : ℕ → ℕ)
      → Kept offset m level m' level'
      → Exhausted m'.frames 0
      → Walked offset m level v (some (0, m'))
  walked :
      {p3 p2 p1 : ℕ} {m' : Machine} (level' : ℕ → ℕ)
      → Kept offset m level m' level'
      → Route offset m' v p3 p2 p1
      → Walked offset m level v (some (p1 + offset, m'))

module _ {offset : ℕ} {m : Machine} {level : ℕ → ℕ} (tables : Tables offset m level) (v : ℕ) where
  real : (p : ℕ) → (p + offset == 0) ≡ false
  real p = ground (arith, tables.some_offset)

  -- The second and the third step, each from what the one before left.
  abbrev third : ℕ → Prog Machine ℕ
  third pd = if pd == 0 then pure 0 else get_next_level pd (pd_index v)

  abbrev second : ℕ → Prog Machine ℕ
  second pdpt = if pdpt == 0 then pure 0 else (get_next_level pdpt (pdpt_index v) >>= third)

  steps : next_levels v m ≡ and_then (get_next_level (page m.cr3 + offset) (pml4_index v) m) second
  unfolding next_levels
  steps = rw (root-run tables, real (page m.cr3)) refl

  module _ {m₂ : Machine} {level₂ : ℕ → ℕ} {q3 q2 : ℕ} (k : Kept offset m level m₂ level₂)
      (pml4 : Link offset m₂ (page m₂.cr3) (pml4_index v) q3)
      (pdpt : Link offset m₂ q3 (pdpt_index v) q2) where
    level-q3 : level₂ q3 ≡ 3
    level-q3 = omega (
      arith,
      k.tables.root,
      Link-level k.tables (omega (arith, k.tables.root)) (index_lt (v / 2 ^ 39)) pml4,
    )

    level-q2 : level₂ q2 ≡ 2
    level-q2 = omega (
      arith,
      level-q3,
      Link-level k.tables (omega (arith, level-q3)) (index_lt (v / 2 ^ 30)) pdpt,
    )

    third-Walked : Walked offset m level v (third (q2 + offset) m₂)
    third-Walked = rw (real q2) (
        go (
          get_next_level-Result k.tables q2 (pd_index v) (omega (arith, level-q2))
            (index_lt (v / 2 ^ 21))))
      where
        go :
            {r : Option (ℕ × Machine)}
            → NextResult offset m₂ level₂ q2 (pd_index v) r
            → Walked offset m level v r
        go (full small) = stuck level₂ k small
        go (reached {m' = m₃} level₃ next) =
            walked level₃ (Kept-Reached k (omega (arith, level-q2)) (index_lt (v / 2 ^ 21)) next)
              (record {
                pml4 =
                    subst (λ c. Link offset m₃ (page c) (pml4_index v) q3) (sym next.cr3)
                      (Reached-Link (page m₂.cr3) (pml4_index v) (omega (arith, k.tables.root))
                        (index_lt (v / 2 ^ 39)) next pml4);
                pdpt =
                    Reached-Link q3 (pdpt_index v) (omega (arith, level-q3)) (index_lt (v / 2 ^ 30))
                      next pdpt;
                pd = next.link;
              })

  module _ {m₁ : Machine} {level₁ : ℕ → ℕ} {q3 : ℕ} (k : Kept offset m level m₁ level₁)
      (pml4 : Link offset m₁ (page m₁.cr3) (pml4_index v) q3) where
    top : level₁ q3 ≡ 3
    top = omega (
      arith,
      k.tables.root,
      Link-level k.tables (omega (arith, k.tables.root)) (index_lt (v / 2 ^ 39)) pml4,
    )

    second-Walked : Walked offset m level v (second (q3 + offset) m₁)
    second-Walked = rw (real q3) (
        go (
          get_next_level-Result k.tables q3 (pdpt_index v) (omega (arith, top))
            (index_lt (v / 2 ^ 30))))
      where
        go :
            {r : Option (ℕ × Machine)}
            → NextResult offset m₁ level₁ q3 (pdpt_index v) r
            → Walked offset m level v (and_then r third)
        go (full small) = stuck level₁ k small
        go (reached {m' = m₂} level₂ next) =
            third-Walked (Kept-Reached k (omega (arith, top)) (index_lt (v / 2 ^ 30)) next)
              (subst (λ c. Link offset m₂ (page c) (pml4_index v) q3) (sym next.cr3)
                (Reached-Link (page m₁.cr3) (pml4_index v) (omega (arith, k.tables.root))
                  (index_lt (v / 2 ^ 39)) next pml4))
              next.link

  -- The walk of `vmm_map` ends at a table of the last level, or no page was free for one.
  pub next_levels-Walked : Walked offset m level v (next_levels v m)
  next_levels-Walked = rw steps (
      go (
        get_next_level-Result tables (page m.cr3) (pml4_index v) (omega (arith, tables.root))
          (index_lt (v / 2 ^ 39))))
    where
      go :
          {r : Option (ℕ × Machine)}
          → NextResult offset m level (page m.cr3) (pml4_index v) r
          → Walked offset m level v (and_then r second)
      go (full small) = stuck level (Kept-same tables) small
      go (reached {q = q} {m' = m₁} level₁ next) =
          second-Walked
            (Kept-Reached (Kept-same tables) (omega (arith, tables.root)) (index_lt (v / 2 ^ 39))
              next)
            (subst (λ c. Link offset m₁ (page c) (pml4_index v) q) (sym next.cr3) next.link)
