-- ===== src/IoApic/Windows.antt =====
-- The loop of `init_IOAPIC` in kernel/src/drivers/interrupt/APIC/ioapic.c that maps the windows of the I/O
-- APICs, on tables that stand for an address space.
use yoix.Base.{
  ℕ, ◌+◌, ◌*◌, ◌/◌, ◌<◌, ◌≡◌, ◌≢◌, refl, sym, ap, ◌⊎◌, ◌∙◌, inl, inr, Option, some, Bool, List, [],
  ◌∷◌, arith, ◌==◌, if◌then◌else◌, same-cases,
}
use yoix.Buddy.State.{Buddy, page_size, max_pages, invalid_address, u64}
use yoix.Buddy.Ops.{alloc_page}
use yoix.Buddy.Valid.{status, free}
use yoix.Buddy.Laws.Allocate.{Allocated, Exhausted}
use yoix.Buddy.Laws.AllocPages.{PagesResult, block, refused, alloc_page-Result}
use yoix.Paging.Machine.{Machine, phy_to_virt, to_virt}
use yoix.Paging.Ops.{map}
use yoix.Paging.Entries.{page}
use yoix.Paging.Tables.{on_frames-run, phy_to_virt-run}
use yoix.Paging.Space.Refines.{
  AddressSpace, Represents, MapRefines, mapped, unmapped, map-Refines, remap,
}
use yoix.IoApic.Init.{Setup, map_windows}

-- The window `i` is at `virt` over the machine `m`.
abbrev pub placed : ℕ → ℕ → Machine → Setup → Setup
placed i virt m s = record s {
  machine = m;
  apics = record s.apics { virt_address = λ j. if j == i then virt else s.apics.virt_address j };
}

-- One round: a page is allocated and its address in the direct map is mapped to the I/O APIC,
-- unless no page is left for a table; or no page was free, and the window is at the address of the
-- invalid one.
pub data Round (offset i : ℕ) (s : Setup) (space : AddressSpace)
    : ℕ → Machine → AddressSpace → Type 0 where
  window :
      {x : ℕ} {f : Buddy} {m : Machine} (level : ℕ → ℕ)
      → Allocated s.machine.frames 0 x f
      → Represents offset m level
          (remap (x * page_size + offset) (some (page (s.phys_address i))) space)
      → Round offset i s space
          (x * page_size + offset)
          m
          (remap (x * page_size + offset) (some (page (s.phys_address i))) space)
  no_table :
      {x : ℕ} {f : Buddy} {m : Machine} (level : ℕ → ℕ)
      → Allocated s.machine.frames 0 x f
      → Represents offset m level space
      → Exhausted m.frames 0
      → Round offset i s space (x * page_size + offset) m space
  no_page :
      {m : Machine} {space' : AddressSpace} (level : ℕ → ℕ)
      → Exhausted s.machine.frames 0
      → (space' ≡ remap (u64 (invalid_address + offset)) (some (page (s.phys_address i))) space)
        ⊎ (space' ≡ space)
      → Represents offset m level space'
      → Round offset i s space (u64 (invalid_address + offset)) m space'

-- The rounds of the loop from `i` on, one for each entry.
pub data Windows (offset : ℕ)
    : ℕ → List ℕ → Setup → AddressSpace → Setup → AddressSpace → Type 0 where
  finished : {i : ℕ} {s : Setup} {space : AddressSpace} → Windows offset i [] s space s space
  round :
      {i entry : ℕ} {entries : List ℕ} {s s' : Setup} {space space₁ space' : AddressSpace}
      (virt : ℕ) (m : Machine)
      → Round offset i s space virt m space₁
      → Windows offset (i + 1) entries (placed i virt m s) space₁ s' space'
      → Windows offset i (entry ∷ entries) s space s' space'

-- Well-formed tables with a page less free.
Represents-Allocated :
    {offset : ℕ} {m : Machine} {level : ℕ → ℕ} {space : AddressSpace} {x : ℕ} {f : Buddy}
    → Represents offset m level space
    → Allocated m.frames 0 x f
    → Represents offset (record m { frames = f }) level space
Represents-Allocated {m = m} {level} {x = x} {f} rep a = record {
  tables = record {
    mapped = rep.tables.mapped;
    some_offset = rep.tables.some_offset;
    window = rep.tables.window;
    valid = a.valid;
    root = rep.tables.root;
    bounded = rep.tables.bounded;
    aligned = rep.tables.aligned;
    used = used;
    next = rep.tables.next;
  };
  tree = rep.tree;
  view = rep.view;
}
  where
    used : (p : ℕ) → 0 < level p → p / 4096 < max_pages → status (f.page_state (p / 4096)) ≢ free
    used p pos lt = elim (same-cases (p / 4096) x) [
      | inl same ↦ absurd (
          rep.tables.used p pos lt
            (a.was_free (p / 4096) (omega (arith, same)) (omega (arith, same))))
      | inr other ↦
          λ e. rep.tables.used p pos lt (sym (a.others (p / 4096) (ground (arith, other))) ∙ e)
    ]

module _ {offset : ℕ} (s : Setup) (i entry : ℕ) (entries : List ℕ) {level : ℕ → ℕ}
    {space : AddressSpace} (rep : Represents offset s.machine level space) where
  -- A round that allocates the page at `a` and maps its address `virt`.
  round-run :
      (a virt : ℕ) {f : Buddy} {done : Bool} {m : Machine}
      → alloc_page s.machine.frames ≡ some (a, f)
      → phy_to_virt a (record s.machine { frames = f })
        ≡ some (virt, record s.machine { frames = f })
      → map virt (s.phys_address i) 19 (record s.machine { frames = f }) ≡ some (done, m)
      → map_windows i (entry ∷ entries) s ≡ map_windows (i + 1) entries (placed i virt m s)
  unfolding map_windows
  round-run a virt taken there maps =
      rw (on_frames-run alloc_page s.machine taken, there, maps) refl

  -- What a round leads to: the loop goes on, on tables that stand for an address space.
  abbrev Rounds : Type 0
  Rounds =
      (virt : ℕ) × (m : Machine) × (space' : AddressSpace) × (level' : ℕ → ℕ) × (map_windows i
          (entry ∷ entries) s
        ≡ map_windows (i + 1) entries (placed i virt m s))
      × Round offset i s space virt m space'
      × Represents offset m level' space'

  round-taken :
      (x : ℕ) (f : Buddy)
      → alloc_page s.machine.frames ≡ some (x * page_size, f)
      → Allocated s.machine.frames 0 x f
      → Rounds
  round-taken x f taken a = go (map-Refines virt (s.phys_address i) 19 rep' (omega arith) refl) refl
    where
      virt : ℕ
      virt = x * page_size + offset

      m : Machine
      m = record s.machine { frames = f }

      rep' : Represents offset m level space
      rep' = Represents-Allocated rep a

      there : phy_to_virt (x * page_size) m ≡ some (virt, m)
      there =
          phy_to_virt-run rep.tables.mapped (x * page_size)
            (omega (arith, a.fits, rep.tables.window))

      go :
          {r : Option (Bool × Machine)}
          → MapRefines offset space virt (s.phys_address i) r
          → map virt (s.phys_address i) 19 m ≡ r
          → Rounds
      go (mapped {m'} level' before stands flushed) maps = (
        virt,
        m',
        _,
        level',
        round-run (x * page_size) virt taken there maps,
        window level' a stands,
        stands,
      )
      go (unmapped {m'} level' stands none_left) maps = (
        virt,
        m',
        space,
        level',
        round-run (x * page_size) virt taken there maps,
        no_table level' a stands none_left,
        stands,
      )

  nowhere : phy_to_virt invalid_address s.machine ≡ some (u64 (invalid_address + offset), s.machine)
  unfolding phy_to_virt
  nowhere = ap (λ hhdm. some (to_virt hhdm invalid_address, s.machine)) rep.tables.mapped

  round-refused :
      alloc_page s.machine.frames ≡ some (invalid_address, s.machine.frames)
      → Exhausted s.machine.frames 0
      → Rounds
  round-refused taken none_free =
      go (map-Refines (u64 (invalid_address + offset)) (s.phys_address i) 19 rep (omega arith) refl)
        refl
    where
      go :
          {r : Option (Bool × Machine)}
          → MapRefines offset space (u64 (invalid_address + offset)) (s.phys_address i) r
          → map (u64 (invalid_address + offset)) (s.phys_address i) 19 s.machine ≡ r
          → Rounds
      go (mapped {m'} level' before stands flushed) maps = (
        u64 (invalid_address + offset),
        m',
        _,
        level',
        round-run invalid_address (u64 (invalid_address + offset)) taken nowhere maps,
        no_page level' none_free (inl refl) stands,
        stands,
      )
      go (unmapped {m'} level' stands none_left) maps = (
        u64 (invalid_address + offset),
        m',
        space,
        level',
        round-run invalid_address (u64 (invalid_address + offset)) taken nowhere maps,
        no_page level' none_free (inr refl) stands,
        stands,
      )

  round-Rounds : Rounds
  round-Rounds = go (alloc_page-Result rep.tables.valid) refl
    where
      go :
          {r : Option (ℕ × Buddy)}
          → PagesResult s.machine.frames 0 r
          → alloc_page s.machine.frames ≡ r
          → Rounds
      go (block {x} {s' = f} a) taken = round-taken x f taken a
      go (refused none_free) taken = round-refused taken none_free

-- On tables that stand for an address space, the loop of `init_IOAPIC` that maps the windows returns for
-- any entries: each round takes a page that was free and maps its address in the direct map to the
-- page of the I/O APIC, and nothing else, unless no page is left for a table; or no page was free,
-- and the window is put at the address of the invalid one. The tables stand for the address space
-- that the rounds lead to.
pub map_windows-Windows :
    {offset : ℕ} (i : ℕ) (entries : List ℕ) (s : Setup) {level : ℕ → ℕ} {space : AddressSpace}
    → Represents offset s.machine level space
    → (s' : Setup) × (space' : AddressSpace) × (level' : ℕ → ℕ) × (map_windows i entries s
        ≡ some (tt, s'))
      × Windows offset i entries s space s' space'
      × Represents offset s'.machine level' space'
unfolding map_windows
map_windows-Windows i [] s {level} {space} rep = (s, space, level, refl, finished, rep)
map_windows-Windows i (entry ∷ entries) s rep =
    let (virt, m, space₁, level₁, run, this, rep₁) = round-Rounds s i entry entries rep in
    let (s', space', level', runs, rest, rep') =
      map_windows-Windows (i + 1) entries (placed i virt m s) rep₁ in
    (s', space', level', run ∙ runs, round virt m this rest, rep')
