-- ===== src/Paging/Laws/Map.antt =====
-- `vmm_map`.
use yoix.Base.{
  ℕ, ◌+◌, ◌/◌, ◌%◌, ◌^◌, ◌≤◌, ◌<◌, ◌≡◌, ◌≢◌, refl, sym, ap, ◌∙◌, subst, ◌⊎◌, Bool, true, false,
  Option, some, arith, ◌==◌,
}
use yoix.Buddy.Laws.Allocate.{Exhausted}
use yoix.Paging.Machine.{Machine, pml4_index, pdpt_index, pd_index, pt_index}
use yoix.Paging.Ops.{next_levels, map, get_phys}
use yoix.Paging.Entries.{page, page_entry}
use yoix.Paging.Tables.{word, Link, Tables, store-run}
use yoix.Paging.Laws.Walk.{Route, index_lt, Route-levels, get_phys-present}
use yoix.Paging.Laws.Levels.{Kept, Walked, stuck, walked, next_levels-Walked}
use yoix.Paging.Laws.Leaf.{stored, stored-here, stored-kept, stored-Tables, stored-Route}

-- A path through tables that were there before.
module _ {offset : ℕ} {m m₁ : Machine} {level level₁ : ℕ → ℕ} (tables : Tables offset m level)
    (k : Kept offset m level m₁ level₁) where
  Kept-Link : (r j q : ℕ) → 0 < level r → j < 512 → Link offset m r j q → Link offset m₁ r j q
  Kept-Link r j q pos h (on, names) =
      let same = k.marked r j pos h on in (ap (λ (n : ℕ). n % 2) same ∙ on, ap page same ∙ names)

  pub Kept-Route : (u q3 q2 q1 : ℕ) → Route offset m u q3 q2 q1 → Route offset m₁ u q3 q2 q1
  Kept-Route u q3 q2 q1 path =
      let (three, two, _) = Route-levels tables path in
      record {
        pml4 =
            subst (λ c. Link offset m₁ (page c) (pml4_index u) q3) (sym k.cr3)
              (Kept-Link (page m.cr3) (pml4_index u) q3 (omega (arith, tables.root))
                (index_lt (u / 2 ^ 39)) path.pml4);
        pdpt =
            Kept-Link q3 (pdpt_index u) q2 (omega (arith, three)) (index_lt (u / 2 ^ 30)) path.pdpt;
        pd = Kept-Link q2 (pd_index u) q1 (omega (arith, two)) (index_lt (u / 2 ^ 21)) path.pd;
      }

  -- What the entry of the last level was, unless it is the one that is written.
  pub others-kept :
      (p1 v w u q3 q2 q1 : ℕ)
      → level₁ p1 ≡ 1
      → Route offset m u q3 q2 q1
      → word offset m q1 (pt_index u) % 2 ≡ 1
      → (q1 ≢ p1) ⊎ (pt_index u ≢ pt_index v)
      → get_phys u (stored offset m₁ p1 (pt_index v) w v)
        ≡ some
            (page (word offset m q1 (pt_index u)) + u % 4096, stored offset m₁ p1 (pt_index v) w v)
  others-kept p1 v w u q3 q2 q1 last path on d =
      let (_, _, one) = Route-levels tables path in
      let index = index_lt (v / 2 ^ 12) in
      let same =
        stored-kept k.tables p1 (pt_index v) w v last index q1 (pt_index u)
          (omega (arith, k.extends q1 (omega (arith, one)), one)) (index_lt (u / 2 ^ 12)) d
        ∙ k.marked q1 (pt_index u) (omega (arith, one)) (index_lt (u / 2 ^ 12)) on in
      get_phys-present (stored-Tables k.tables p1 (pt_index v) w v last index)
        (stored-Route k.tables p1 (pt_index v) w v last index u q3 q2 q1
          (Kept-Route u q3 q2 q1 path))
        (ap (λ (n : ℕ). n % 2) same ∙ on)
      ∙ ap (λ (n : ℕ). some (page n + u % 4096, stored offset m₁ p1 (pt_index v) w v)) same

-- The page is mapped, or there was no free page for a table. Every other entry of the last level that
-- was present translates as before.
pub data MapResult (offset : ℕ) (m : Machine) (v phys : ℕ) : Option (Bool × Machine) → Type 0 where
  mapped :
      {m' : Machine} (level' : ℕ → ℕ) (p3 p2 p1 : ℕ)
      → Tables offset m' level'
      → Route offset m' v p3 p2 p1
      → get_phys v m' ≡ some (page phys + v % 4096, m')
      → ((u q3 q2 q1 : ℕ)
          → Route offset m u q3 q2 q1
          → word offset m q1 (pt_index u) % 2 ≡ 1
          → (q1 ≢ p1) ⊎ (pt_index u ≢ pt_index v)
          → get_phys u m' ≡ some (page (word offset m q1 (pt_index u)) + u % 4096, m'))
      → MapResult offset m v phys (some (true, m'))
  unmapped :
      {m' : Machine} (level' : ℕ → ℕ)
      → Tables offset m' level'
      → Exhausted m'.frames 0
      → MapResult offset m v phys (some (false, m'))

module _ {offset : ℕ} (m : Machine) (some_offset : 0 < offset) (v phys flags : ℕ)
    (small : flags < 4096) where
  pub map-stuck :
      {m₁ : Machine} → next_levels v m ≡ some (0, m₁) → map v phys flags m ≡ some (false, m₁)
  unfolding map
  map-stuck run = rw run refl

  pub map-stored :
      {m₁ : Machine} (p1 : ℕ)
      → p1 + 4096 + offset ≤ 2 ^ 64
      → next_levels v m ≡ some (p1 + offset, m₁)
      → map v phys flags m ≡ some (true, stored offset m₁ p1 (pt_index v) (page phys + flags) v)
  unfolding map
  map-stored {m₁} p1 room run =
      rw
        (
          run,
          real,
          page_entry phys flags small,
          store-run offset p1 (pt_index v) some_offset room (index_lt (v / 2 ^ 12))
              (page phys + flags) m₁,
        )
        refl
    where
      real : (p1 + offset == 0) ≡ false
      real = ground (arith, some_offset)

-- `vmm_map` on well-formed tables, with flags that set the present bit, stays inside the tables and
-- leaves them well formed. It returns true, and then `vmm_get_phys` translates the address to the
-- page that was given, with the offset of the address in the page, and every address with another
-- present entry of the last level as before; or it returns false, and then no page is left for a
-- table.
pub map-Result :
    {offset : ℕ} {m : Machine} {level : ℕ → ℕ} (v phys flags : ℕ)
    → Tables offset m level
    → flags < 4096
    → flags % 2 ≡ 1
    → MapResult offset m v phys (map v phys flags m)
map-Result {offset} {m} {level} v phys flags tables small on = go (next_levels-Walked tables v) refl
  where
    go :
        {r : Option (ℕ × Machine)}
        → Walked offset m level v r
        → next_levels v m ≡ r
        → MapResult offset m v phys (map v phys flags m)
    go (stuck level' k none_free) run =
        subst (MapResult offset m v phys)
          (sym (map-stuck m tables.some_offset v phys flags small run))
          (unmapped level' k.tables none_free)
    go (walked {p3} {p2} {p1} {m' = m₁} level' k path) run =
        let (_, _, last) = Route-levels k.tables path in
        let index = index_lt (v / 2 ^ 12) in
        let entry : ℕ = page phys + flags in
        let after = stored-Tables k.tables p1 (pt_index v) entry v last index in
        let here = stored-here k.tables p1 (pt_index v) entry v last index in
        subst (MapResult offset m v phys)
          (sym (
            map-stored m tables.some_offset v phys flags small p1
              (k.tables.bounded p1 (omega (arith, last))) run))
          (mapped level' p3 p2 p1 after
            (stored-Route k.tables p1 (pt_index v) entry v last index v p3 p2 p1 path)
            (get_phys-present after
                (stored-Route k.tables p1 (pt_index v) entry v last index v p3 p2 p1 path)
                (ap (λ (n : ℕ). n % 2) here ∙ omega (arith, on))
              ∙ ap (λ (n : ℕ). some (n, stored offset m₁ p1 (pt_index v) entry v))
                  (ap (λ (n : ℕ). page n + v % 4096) here ∙ omega (arith, small)))
            (λ u q3 q2 q1 there on_u d.
              others-kept tables k p1 v entry u q3 q2 q1 last there on_u d))
