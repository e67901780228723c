-- ===== src/Paging/Space/Refines.antt =====
-- `vmm_map` and `vmm_unmap` as operations on the address space.
use yoix.Base.{
  ℕ, ◌+◌, ◌/◌, ◌%◌, ◌^◌, ◌<◌, ◌≡◌, ◌≢◌, refl, sym, ap, ◌∙◌, subst, inl, inr, Option, none, some,
  List, [], ◌∷◌, Bool, true, false, arith, if◌then◌else◌, eq→==,
}
use yoix.Buddy.State.{page_size, max_pages, u32}
use yoix.Buddy.Laws.Allocate.{Exhausted}
use yoix.Buddy.Laws.FreePage.{PageFreed, free_page-PageFreed}
use yoix.Paging.Machine.{Machine, pt_index}
use yoix.Paging.Ops.{next_levels, existing_levels, map, unmap, get_phys}
use yoix.Paging.Entries.{page}
use yoix.Paging.Tables.{word, Tables}
use yoix.Paging.Laws.Walk.{Route, index_lt, Route-levels}
use yoix.Paging.Laws.Levels.{Walked, stuck, walked, next_levels-Walked, Kept}
use yoix.Paging.Laws.Leaf.{stored, stored-Tables}
use yoix.Paging.Laws.Map.{map-stuck, map-stored}
use yoix.Paging.Laws.Unmap.{with_frames-Tables, unmap-run, unmap-absent}
use yoix.Paging.Space.{follow, translate, indices, same_page, IsTree}
use yoix.Paging.Space.Growth.{mod-two, follow-present, follow-absent}
use yoix.Paging.Space.Lookup.{answer, get_phys-answer, translate-Route, Route-cases}
use yoix.Paging.Space.Leaf.{leaf, IsTree-stored, translate-stored}

-- What the pages of addresses are mapped to.
abbrev pub AddressSpace : Type 0
AddressSpace = ℕ → Option ℕ

-- The page of `v` mapped to a page, or to nothing.
abbrev pub remap : ℕ → Option ℕ → AddressSpace → AddressSpace
remap v target space u = if same_page u v then target else space u

-- Well-formed tables, a tree, that stand for the address space.
pub record Represents (offset : ℕ) (m : Machine) (level : ℕ → ℕ) (space : AddressSpace)
    : Type 0 where
  pub tables : Tables offset m level
  pub tree : IsTree offset m level
  pub view : (u : ℕ) → translate offset m u ≡ space u

-- On tables that stand for an address space `vmm_get_phys` changes nothing, and returns the page that the
-- address is mapped to with the offset of the address in it, or the invalid address where it is mapped
-- to nothing.
pub get_phys-Refines :
    {offset : ℕ} {m : Machine} {level : ℕ → ℕ} {space : AddressSpace} (u : ℕ)
    → Represents offset m level space
    → get_phys u m ≡ some (answer (space u) u, m)
get_phys-Refines {m = m} u rep =
    get_phys-answer rep.tables u ∙ ap (λ t. some (answer t u, m)) (rep.view u)

-- The page is mapped and the translation buffer flushed for it; or no page is left for a table, and
-- the address space is as before.
pub data MapRefines (offset : ℕ) (space : AddressSpace) (v phys : ℕ)
    : Option (Bool × Machine) → Type 0 where
  mapped :
      {m' : Machine} (level' : ℕ → ℕ) (before : List ℕ)
      → Represents offset m' level' (remap v (some (page phys)) space)
      → m'.flushed ≡ v ∷ before
      → MapRefines offset space v phys (some (true, m'))
  unmapped :
      {m' : Machine} (level' : ℕ → ℕ)
      → Represents offset m' level' space
      → Exhausted m'.frames 0
      → MapRefines offset space v phys (some (false, m'))

module _ {offset : ℕ} {m : Machine} {level : ℕ → ℕ} {space : AddressSpace}
    (rep : Represents offset m level space) where
  -- The tables after the walk of `vmm_map` stand for the same address space.
  Represents-Kept :
      {m' : Machine} {level' : ℕ → ℕ}
      → Kept offset m level m' level'
      → Represents offset m' level' space
  Represents-Kept {m'} k = record {
    tables = k.tables;
    tree = k.tree rep.tree;
    view = λ u.
        ap (λ c. follow offset m' (page c) (indices u)) k.cr3
        ∙ k.space (page m.cr3) (indices u) (omega (arith, rep.tables.root)) rep.tables.root (
          index_lt (u / 2 ^ 39),
          (index_lt (u / 2 ^ 30), (index_lt (u / 2 ^ 21), (index_lt (u / 2 ^ 12), tt))),
        )
        ∙ rep.view u;
  }

  -- Writing the entry of an address.
  Represents-stored :
      {v p3 p2 p1 : ℕ} (w : ℕ)
      → Route offset m v p3 p2 p1
      → Represents offset (stored offset m p1 (pt_index v) w v) level (remap v (leaf w) space)
  Represents-stored {v} {p3} {p2} {p1} w path =
      let (_, _, last) = Route-levels rep.tables path in
      let index = index_lt (v / 2 ^ 12) in
      record {
        tables = stored-Tables rep.tables p1 (pt_index v) w v last index;
        tree = IsTree-stored rep.tables p1 (pt_index v) w v last index rep.tree;
        view = λ u.
            translate-stored rep.tables rep.tree path w u
            ∙ ap (λ t. if same_page u v then leaf w else t) (rep.view u);
      }

leaf-page :
    (phys flags : ℕ) → flags < 4096 → flags % 2 ≡ 1 → leaf (page phys + flags) ≡ some (page phys)
leaf-page phys flags small on =
    ap (λ b. if b then some (page (page phys + flags)) else none)
      (eq→== ((page phys + flags) % 2) 1 (omega (arith, on)))
    ∙ ap some (omega (arith, small))

-- On tables that stand for an address space `vmm_map`, with flags that set the present bit, maps the page of
-- the address to the given page, changes nothing else in the address space, flushes the translation
-- buffer and returns true; or it returns false, and then no page is free for a table and the
-- address space is as before.
pub map-Refines :
    {offset : ℕ} {m : Machine} {level : ℕ → ℕ} {space : AddressSpace} (v phys flags : ℕ)
    → Represents offset m level space
    → flags < 4096
    → flags % 2 ≡ 1
    → MapRefines offset space v phys (map v phys flags m)
map-Refines {offset} {m} {level} {space} v phys flags rep small on =
    go (next_levels-Walked rep.tables v) refl
  where
    go :
        {r : Option (ℕ × Machine)}
        → Walked offset m level v r
        → next_levels v m ≡ r
        → MapRefines offset space v phys (map v phys flags m)
    go (stuck level' k none_free) run =
        subst (MapRefines offset space v phys)
          (sym (map-stuck m rep.tables.some_offset v phys flags small run))
          (unmapped level' (Represents-Kept rep k) none_free)
    go (walked {p3} {p2} {p1} {m' = m₁} level' k path) run =
        let (_, _, last) = Route-levels k.tables path in
        let entry : ℕ = page phys + flags in
        let m' : Machine = stored offset m₁ p1 (pt_index v) entry v in
        subst (MapRefines offset space v phys)
          (sym (
            map-stored m rep.tables.some_offset v phys flags small p1
              (k.tables.bounded p1 (omega (arith, last))) run))
          (mapped level' m₁.flushed
            (subst (λ t. Represents offset m' level' (remap v t space))
              (leaf-page phys flags small on)
              (Represents-stored (Represents-Kept rep k) entry path))
            refl)

-- The page that an address is mapped to, if any, has a frame number that is, as the 32 bits that the page
-- allocator keeps of it, that of no table.
abbrev pub HoldsNoTable : (ℕ → ℕ) → Option ℕ → Type 0
HoldsNoTable level none = Unit {0}
HoldsNoTable level (some p) =
    (q : ℕ) → 0 < level q → q / 4096 < max_pages → q / 4096 ≢ u32 (p / page_size)

-- The page is unmapped and passed to `buddy_free_page`, and the translation buffer is flushed for it;
-- or it was not mapped.
pub data UnmapRefines (offset : ℕ) (m : Machine) (level : ℕ → ℕ) (space : AddressSpace) (v : ℕ)
    : Option (Bool × Machine) → Type 0 where
  nothing : space v ≡ none → UnmapRefines offset m level space v (some (false, m))
  removed :
      {m' : Machine} (p : ℕ)
      → space v ≡ some p
      → Represents offset m' level (remap v none space)
      → PageFreed m.frames p m'.frames
      → m'.flushed ≡ v ∷ m.flushed
      → UnmapRefines offset m level space v (some (true, m'))

module _ {offset : ℕ} {m : Machine} {level : ℕ → ℕ} {space : AddressSpace} (v : ℕ)
    (rep : Represents offset m level space) where
  unmap-missing : existing_levels v m ≡ some (0, m) → unmap v m ≡ some (false, m)
  unfolding unmap
  unmap-missing run = rw run refl

  -- A page that is mapped.
  unmap-present :
      {p3 p2 p1 : ℕ}
      → Route offset m v p3 p2 p1
      → word offset m p1 (pt_index v) % 2 ≡ 1
      → space v ≡ some (page (word offset m p1 (pt_index v)))
      → HoldsNoTable level (space v)
      → UnmapRefines offset m level space v (unmap v m)
  unmap-present {p3} {p2} {p1} path on known apart =
      let p : ℕ = page (word offset m p1 (pt_index v)) in
      let (s', run, freed) = free_page-PageFreed rep.tables.valid p in
      let cleared = Represents-stored rep 0 path in
      subst (UnmapRefines offset m level space v) (sym (unmap-run rep.tables path on run)) (
        removed p known
          (record {
            tables =
                with_frames-Tables p s' cleared.tables freed
                  (subst (HoldsNoTable level) known apart);
            tree = cleared.tree;
            view = cleared.view;
          })
          freed refl)

  -- On tables that stand for an address space `vmm_unmap` returns false, and changes nothing, at an
  -- address that is not mapped. At one that is mapped, to a page whose frame number modulo 2 ^ 32 is
  -- that of no table, it returns true: the page of the address is then mapped to nothing, nothing
  -- else changes in the address space, and the translation buffer is flushed. In the page allocator
  -- the page with that number is then free if it was allocated and the page that was mapped is not
  -- page 0; no other page changes its status, and otherwise nothing changes at all.
  pub unmap-Refines : HoldsNoTable level (space v) → UnmapRefines offset m level space v (unmap v m)
  unmap-Refines apart = elim (Route-cases rep.tables v) [
    | inr (run, none_there) ↦
        subst (UnmapRefines offset m level space v) (sym (unmap-missing run))
          (nothing (sym (rep.view v) ∙ none_there))
    | inl (p3, p2, p1, path) ↦
        let seen = sym (rep.view v) ∙ translate-Route rep.tables v path in
        elim (mod-two (word offset m p1 (pt_index v))) [
          | inr off ↦
              subst (UnmapRefines offset m level space v) (sym (unmap-absent rep.tables path off))
                (nothing (seen ∙ follow-absent offset m p1 (pt_index v) [] off))
          | inl on ↦
              unmap-present path on (seen ∙ follow-present offset m p1 (pt_index v) [] on) apart
        ]
  ]
