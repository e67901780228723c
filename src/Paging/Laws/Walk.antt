-- ===== src/Paging/Laws/Walk.antt =====
-- `vmm_get_existing_level` and `vmm_get_phys`.
use yoix.Base.{
  bit_and, ℕ, ◌+◌, ◌/◌, ◌%◌, ◌^◌, ◌≤◌, ◌<◌, ◌≡◌, refl, sym, ap, ◌∙◌, true, false, some, arith, ◌==◌,
}
use yoix.Buddy.State.{invalid_address}
use yoix.Paging.Machine.{Machine, pml4_index, pdpt_index, pd_index, pt_index, load}
use yoix.Paging.Ops.{root, get_existing_level, existing_levels, get_phys}
use yoix.Paging.Entries.{page, bit_and-present, bit_and-address, bit_and-index, entry_address}
use yoix.Paging.Tables.{word, Link, Tables, phy_to_virt-run, load-run}

-- The tables that the indices of `v` lead to.
pub record Route (offset : ℕ) (m : Machine) (v p3 p2 p1 : ℕ) : Type 0 where
  pub pml4 : Link offset m (page m.cr3) (pml4_index v) p3
  pub pdpt : Link offset m p3 (pdpt_index v) p2
  pub pd : Link offset m p2 (pd_index v) p1

pub index_lt : (a : ℕ) → bit_and a 0x1FF < 512
index_lt a = omega (arith, bit_and-index a)

module _ {offset : ℕ} {m : Machine} {level : ℕ → ℕ} (tables : Tables offset m level) where
  pub root-run : root m ≡ some (page m.cr3 + offset, m)
  unfolding root
  root-run = rw (bit_and-address m.cr3) (
      phy_to_virt-run tables.mapped (page m.cr3)
        (tables.bounded (page m.cr3) (omega (arith, tables.root))))

  pub Link-level : {p i q : ℕ} → 2 ≤ level p → i < 512 → Link offset m p i q → level q + 1 ≡ level p
  Link-level {p} {i} le lt (present, names) =
      ap (λ r. level r + 1) (sym names) ∙ tables.next p i le lt present

  pub get_existing_level-run :
      {p i q : ℕ}
      → 2 ≤ level p
      → i < 512
      → Link offset m p i q
      → get_existing_level (p + offset) i m ≡ some (q + offset, m)
  unfolding get_existing_level
  get_existing_level-run {p} {i} {q} le lt link =
      rw
        (
          load-run offset p i tables.some_offset (tables.bounded p (omega arith)) lt m,
          present,
          bit_and-address (word offset m p i),
          link.1,
        )
        (phy_to_virt-run tables.mapped q (tables.bounded q (omega (arith, Link-level le lt link))))
    where
      present : (bit_and (word offset m p i) 1 == 0) ≡ false
      present = ground (arith, bit_and-present (word offset m p i), link.0)

  module _ {v p3 p2 p1 : ℕ} (path : Route offset m v p3 p2 p1) where
    pub Route-levels : (level p3 ≡ 3) × (level p2 ≡ 2) × (level p1 ≡ 1)
    Route-levels =
        let three : level p3 ≡ 3 = omega (
          arith,
          tables.root,
          Link-level (omega (arith, tables.root)) (index_lt (v / 2 ^ 39)) path.pml4,
        ) in
        let two : level p2 ≡ 2 =
          omega
            (arith, three, Link-level (omega (arith, three)) (index_lt (v / 2 ^ 30)) path.pdpt) in
        (
          three,
          two,
          omega (arith, two, Link-level (omega (arith, two)) (index_lt (v / 2 ^ 21)) path.pd),
        )

    real : (p : ℕ) → (p + offset == 0) ≡ false
    real p = ground (arith, tables.some_offset)

    pub existing_levels-run : existing_levels v m ≡ some (p1 + offset, m)
    unfolding existing_levels
    existing_levels-run =
        let (three, two, one) = Route-levels in
        rw
          (
            root-run,
            real (page m.cr3),
            get_existing_level-run (omega (arith, tables.root)) (index_lt (v / 2 ^ 39)) path.pml4,
            real p3,
            get_existing_level-run (omega (arith, three)) (index_lt (v / 2 ^ 30)) path.pdpt,
            real p2,
          )
          (get_existing_level-run (omega (arith, two)) (index_lt (v / 2 ^ 21)) path.pd)

    load-last : load (p1 + offset) (pt_index v) m ≡ some (word offset m p1 (pt_index v), m)
    load-last =
        let (_, _, one) = Route-levels in
        load-run offset p1 (pt_index v) tables.some_offset (tables.bounded p1 (omega (arith, one)))
          (index_lt (v / 2 ^ 12)) m

    -- A present entry of the last level gives the page, and the address its last 12 bits.
    pub get_phys-present :
        word offset m p1 (pt_index v) % 2 ≡ 1
        → get_phys v m ≡ some (page (word offset m p1 (pt_index v)) + v % 4096, m)
    unfolding get_phys
    get_phys-present on =
        rw
          (
            existing_levels-run,
            real p1,
            load-last,
            present,
            entry_address (word offset m p1 (pt_index v)) v,
          )
          refl
      where
        present : (bit_and (word offset m p1 (pt_index v)) 1 == 0) ≡ false
        present = ground (arith, bit_and-present (word offset m p1 (pt_index v)), on)

    pub get_phys-absent :
        word offset m p1 (pt_index v) % 2 ≡ 0 → get_phys v m ≡ some (invalid_address, m)
    unfolding get_phys
    get_phys-absent off = rw (existing_levels-run, real p1, load-last, absent) refl
      where
        absent : (bit_and (word offset m p1 (pt_index v)) 1 == 0) ≡ true
        absent = ground (arith, bit_and-present (word offset m p1 (pt_index v)), off)
