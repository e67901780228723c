-- ===== src/Paging/Space/Lookup.antt =====
-- `vmm_get_phys` looks an address up in the address space.
use yoix.Base.{
  ℕ, ◌+◌, ◌/◌, ◌%◌, ◌^◌, ◌≤◌, ◌<◌, ◌≡◌, refl, sym, ap, ◌∙◌, ◌⊎◌, inl, inr, Option, none, some, List,
  [], ◌∷◌, arith, ◌==◌, true, false, bit_and,
}
use yoix.Buddy.State.{invalid_address}
use yoix.Paging.Machine.{Machine, pml4_index, pdpt_index, pd_index, pt_index}
use yoix.Paging.Ops.{get_existing_level, existing_levels, get_phys}
use yoix.Paging.Entries.{page, bit_and-present}
use yoix.Paging.Tables.{word, Link, Tables, load-run}
use yoix.Paging.Laws.Walk.{
  Route, index_lt, root-run, Link-level, get_existing_level-run, get_phys-present, get_phys-absent,
}
use yoix.Paging.Space.{follow, translate}
use yoix.Paging.Space.Growth.{mod-two, follow-present, follow-absent}

-- The answer of `vmm_get_phys` for what an address translates to.
abbrev pub answer : Option ℕ → ℕ → ℕ
answer none v = invalid_address
answer (some p) v = p + v % 4096

module _ {offset : ℕ} {m : Machine} {level : ℕ → ℕ} (tables : Tables offset m level) (v : ℕ) where
  follow-Link :
      (p i q : ℕ) (is : List ℕ)
      → Link offset m p i q
      → follow offset m p (i ∷ is) ≡ follow offset m q is
  follow-Link p i q is (on, names) =
      follow-present offset m p i is on ∙ ap (λ t. follow offset m t is) names

  pub translate-Route :
      {p3 p2 p1 : ℕ}
      → Route offset m v p3 p2 p1
      → translate offset m v ≡ follow offset m p1 (pt_index v ∷ [])
  translate-Route {p3} {p2} {p1} path =
      follow-Link (page m.cr3) (pml4_index v) p3 (pdpt_index v ∷ pd_index v ∷ pt_index v ∷ [])
        path.pml4
      ∙ follow-Link p3 (pdpt_index v) p2 (pd_index v ∷ pt_index v ∷ []) path.pdpt
      ∙ follow-Link p2 (pd_index v) p1 (pt_index v ∷ []) path.pd

  get_existing_level-absent :
      {p i : ℕ}
      → 2 ≤ level p
      → i < 512
      → word offset m p i % 2 ≡ 0
      → get_existing_level (p + offset) i m ≡ some (0, m)
  unfolding get_existing_level
  get_existing_level-absent {p} {i} le lt off =
      rw
        (load-run offset p i tables.some_offset (tables.bounded p (omega (arith, le))) lt m, absent)
        refl
    where
      absent : (bit_and (word offset m p i) 1 == 0) ≡ true
      absent = ground (arith, bit_and-present (word offset m p i), off)

  real : (p : ℕ) → (p + offset == 0) ≡ false
  real p = ground (arith, tables.some_offset)

  abbrev p4 : ℕ
  p4 = page m.cr3

  four : 2 ≤ level p4
  four = omega (arith, tables.root)

  -- The walk ends at a missing table, and then the address translates to nothing.
  abbrev Missing : Type 0
  Missing = (existing_levels v m ≡ some (0, m)) × (translate offset m v ≡ none)

  missing_pml4 : word offset m p4 (pml4_index v) % 2 ≡ 0 → Missing
  unfolding existing_levels
  missing_pml4 off = (
    rw (root-run tables, real p4, get_existing_level-absent four (index_lt (v / 2 ^ 39)) off) refl,
    follow-absent offset m p4 (pml4_index v) (pdpt_index v ∷ pd_index v ∷ pt_index v ∷ []) off,
  )

  module _ {p3 : ℕ} (pml4 : Link offset m p4 (pml4_index v) p3) where
    three : level p3 ≡ 3
    three = omega (arith, tables.root, Link-level tables four (index_lt (v / 2 ^ 39)) pml4)

    missing_pdpt : word offset m p3 (pdpt_index v) % 2 ≡ 0 → Missing
    unfolding existing_levels
    missing_pdpt off = (
      rw
          (
            root-run tables,
            real p4,
            get_existing_level-run tables four (index_lt (v / 2 ^ 39)) pml4,
            real p3,
            get_existing_level-absent (omega (arith, three)) (index_lt (v / 2 ^ 30)) off,
          )
          refl,
      follow-Link (page m.cr3) (pml4_index v) p3 (pdpt_index v ∷ pd_index v ∷ pt_index v ∷ []) pml4
          ∙ follow-absent offset m p3 (pdpt_index v) (pd_index v ∷ pt_index v ∷ []) off,
    )

    module _ {p2 : ℕ} (pdpt : Link offset m p3 (pdpt_index v) p2) where
      two : level p2 ≡ 2
      two =
          omega
            (arith, three, Link-level tables (omega (arith, three)) (index_lt (v / 2 ^ 30)) pdpt)

      missing_pd : word offset m p2 (pd_index v) % 2 ≡ 0 → Missing
      unfolding existing_levels
      missing_pd off = (
        rw
            (
              root-run tables,
              real p4,
              get_existing_level-run tables four (index_lt (v / 2 ^ 39)) pml4,
              real p3,
              get_existing_level-run tables (omega (arith, three)) (index_lt (v / 2 ^ 30)) pdpt,
              real p2,
            )
            (get_existing_level-absent (omega (arith, two)) (index_lt (v / 2 ^ 21)) off),
        follow-Link (page m.cr3) (pml4_index v) p3 (pdpt_index v ∷ pd_index v ∷ pt_index v ∷ [])
              pml4
            ∙ follow-Link p3 (pdpt_index v) p2 (pd_index v ∷ pt_index v ∷ []) pdpt
            ∙ follow-absent offset m p2 (pd_index v) (pt_index v ∷ []) off,
      )

  -- Either the indices lead to a table of the last level, or the walk ends before.
  pub Route-cases :
      ((p3 : ℕ) × (p2 : ℕ) × (p1 : ℕ) × Route offset m v p3 p2 p1)
      ⊎ ((existing_levels v m ≡ some (0, m)) × (translate offset m v ≡ none))
  Route-cases = elim (mod-two (word offset m p4 (pml4_index v))) [
    | inr off ↦ inr (missing_pml4 off)
    | inl on ↦
        let p3 : ℕ = page (word offset m p4 (pml4_index v)) in
        elim (mod-two (word offset m p3 (pdpt_index v))) [
          | inr off ↦ inr (missing_pdpt (on, refl) off)
          | inl on' ↦
              let p2 : ℕ = page (word offset m p3 (pdpt_index v)) in
              elim (mod-two (word offset m p2 (pd_index v))) [
                | inr off ↦ inr (missing_pd (on, refl) (on', refl) off)
                | inl on'' ↦ inl (
                  p3,
                  p2,
                  page (word offset m p2 (pd_index v)),
                  record { pml4 = (on, refl); pdpt = (on', refl); pd = (on'', refl) },
                )
              ]
        ]
  ]

  get_phys-missing : existing_levels v m ≡ some (0, m) → get_phys v m ≡ some (invalid_address, m)
  unfolding get_phys
  get_phys-missing run = rw run refl

  -- On well-formed tables `vmm_get_phys` changes nothing, and returns the page that the address space has
  -- for the address with the offset of the address in it, or the invalid address where it has none.
  pub get_phys-answer : get_phys v m ≡ some (answer (translate offset m v) v, m)
  get_phys-answer = elim Route-cases [
    | inr (run, nothing) ↦ get_phys-missing run ∙ ap (λ t. some (answer t v, m)) (sym nothing)
    | inl (p3, p2, p1, path) ↦ elim (mod-two (word offset m p1 (pt_index v))) [
      | inl on ↦
          get_phys-present tables path on
          ∙ ap (λ t. some (answer t v, m))
              (sym (translate-Route path ∙ follow-present offset m p1 (pt_index v) [] on))
      | inr off ↦
          get_phys-absent tables path off
          ∙ ap (λ t. some (answer t v, m))
              (sym (translate-Route path ∙ follow-absent offset m p1 (pt_index v) [] off))
    ]
  ]
