-- ===== src/Paging/Space/Undo.antt =====
-- `vmm_unmap` after `vmm_map`.
use yoix.Base.{
  ℕ, ◌/◌, ◌%◌, ◌^◌, ◌≤◌, ◌<◌, ◌≡◌, refl, sym, ap, ◌∙◌, subst, fun_ext, inl, inr, Option, none, some,
  Bool, true, arith, same_outcome, Bool-cases, eq→==,
}
use yoix.Buddy.State.{page_size, max_pages, u32}
use yoix.Paging.Machine.{Machine}
use yoix.Paging.Ops.{map, unmap}
use yoix.Paging.Entries.{page}
use yoix.Paging.Space.{follow, same_page}
use yoix.Paging.Space.Leaf.{same_page-indices}
use yoix.Paging.Space.Refines.{
  AddressSpace, remap, HoldsNoTable, Represents, MapRefines, mapped, unmapped, map-Refines,
  UnmapRefines, nothing, removed, unmap-Refines,
}

-- All addresses of a page are mapped to the same page.
Represents-same :
    {offset : ℕ} {m : Machine} {level : ℕ → ℕ} {space : AddressSpace} (u v : ℕ)
    → Represents offset m level space
    → same_page u v ≡ true
    → space u ≡ space v
Represents-same {offset} {m} u v rep same =
    sym (rep.view u) ∙ ap (follow offset m (page m.cr3)) (same_page-indices u v same) ∙ rep.view v

remap-here : (space : AddressSpace) (v : ℕ) (t : Option ℕ) → remap v t space v ≡ t
remap-here space v t = rw (eq→== (v / 2 ^ 12 % 2 ^ 36) (v / 2 ^ 12 % 2 ^ 36) refl) refl

-- A page that was mapped to nothing is mapped, and then to nothing again.
remap-undone :
    {offset : ℕ} {m : Machine} {level : ℕ → ℕ} {space : AddressSpace} (v : ℕ) (t : Option ℕ)
    → Represents offset m level space
    → space v ≡ none
    → remap v none (remap v t space) ≡ space
remap-undone {space = space} v t rep unused = fun_ext λ u. elim (Bool-cases (same_page u v)) [
  | inl same ↦ rw same (sym (Represents-same u v rep same ∙ unused))
  | inr other ↦ rw other refl
]

module _ {offset : ℕ} {m : Machine} {level : ℕ → ℕ} {space : AddressSpace} (v phys flags : ℕ)
    (rep : Represents offset m level space) (unused : space v ≡ none)
    (device : max_pages ≤ u32 (page phys / page_size)) where
  -- `vmm_unmap` takes the page away.
  abbrev Undone : Machine → Type 0
  Undone m' =
      (m'' : Machine) × (level'' : ℕ → ℕ) × (unmap v m' ≡ some (true, m''))
      × Represents offset m'' level'' space

  unmap-Undone :
      {m' : Machine} (level' : ℕ → ℕ)
      → Represents offset m' level' (remap v (some (page phys)) space)
      → Undone m'
  unmap-Undone {m'} level' rep' = go (unmap-Refines v rep' apart) refl
    where
      here : remap v (some (page phys)) space v ≡ some (page phys)
      here = remap-here space v (some (page phys))

      apart : HoldsNoTable level' (remap v (some (page phys)) space v)
      apart =
          subst (HoldsNoTable level') (sym here)
            (λ q pos lt e. absurd (omega (arith, device, lt, e)))

      go :
          {r : Option (Bool × Machine)}
          → UnmapRefines offset m' level' (remap v (some (page phys)) space) v r
          → unmap v m' ≡ r
          → Undone m'
      go (nothing none_there) run =
          let impossible = sym here ∙ none_there in absurd (ground (arith, impossible))
      go (removed {m' = m''} p known stands freed flushed) run = (
        m'',
        level',
        run,
        subst (Represents offset m'' level') (remap-undone v (some (page phys)) rep unused) stands,
      )

  -- On tables that stand for an address space, after `vmm_map`, with flags below 2 ^ 12 that set
  -- the present bit, has returned true for an address that was mapped to nothing and a page whose
  -- frame number modulo 2 ^ 32 lies outside the memory of the page allocator, `vmm_unmap` returns
  -- true, and the tables stand for the address space from before.
  pub map-unmap :
      {m' : Machine}
      → flags < 4096
      → flags % 2 ≡ 1
      → map v phys flags m ≡ some (true, m')
      → (m'' : Machine) × (level'' : ℕ → ℕ) × (unmap v m' ≡ some (true, m''))
        × Represents offset m'' level'' space
  map-unmap {m'} small on maps = go (map-Refines v phys flags rep small on) maps
    where
      go :
          {r : Option (Bool × Machine)}
          → MapRefines offset space v phys r
          → r ≡ some (true, m')
          → Undone m'
      go (mapped level' before rep' flushed) run =
          subst Undone (same_outcome run).1 (unmap-Undone level' rep')
      go (unmapped level' rep' none_free) run =
          let differ = (same_outcome run).0 in absurd (ground (arith, differ))
