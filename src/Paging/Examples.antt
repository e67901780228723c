-- ===== src/Paging/Examples.antt =====
-- The page tables of kernel/src/memory/vmm.c at a concrete machine.
use yoix.Base.{
  sym, ◌∙◌, ◌%◌, ◌≤◌, ◌<◌, ℕ, ◌≡◌, refl, some, true, ◌∷◌, [], arith, ◌==◌, if◌then◌else◌,
}
use yoix.Buddy.Examples.{sample, sample-IsValid}
use yoix.Paging.Machine.{Machine, phy_to_virt, load, store, write_word}
use yoix.Paging.Ops.{
  root, get_next_level, get_existing_level, existing_levels, next_levels, map, unmap, get_phys,
}
use yoix.Paging.Tables.{Tables, word}
use yoix.Paging.Laws.Walk.{Route}
use yoix.Paging.Entries.{page}
use yoix.Paging.Space.{translate, IsTree}
use yoix.Paging.Space.Lookup.{answer}
use yoix.Paging.Space.Undo.{map-unmap}
use yoix.Paging.Space.Refines.{
  Represents, MapRefines, map-Refines, UnmapRefines, unmap-Refines, get_phys-Refines,
}

abbrev pub offset : ℕ
offset = 0x100000000

-- Four tables, in frames 1, 2, 3 and 8, map the address 0 to frame 9.
abbrev memory : ℕ → ℕ
memory b =
    if b == 0x100001000
    then 0x2003
    else if b == 0x100002000
    then 0x3003
    else if b == 0x100003000
    then 0x8003
    else if b == 0x100008000
    then 0x9003
    else 0

abbrev pub machine : Machine
machine = record { words = memory; frames = sample; cr3 = 0x1000; hhdm = some offset; flushed = [] }

abbrev pub depth : ℕ → ℕ
depth p =
    if p == 0x1000
    then 4
    else if p == 0x2000
    then 3
    else if p == 0x3000
    then 2
    else if p == 0x8000
    then 1
    else 0

pub machine-Tables : Tables offset machine depth
machine-Tables = record {
  mapped = refl;
  some_offset = omega arith;
  window = omega arith;
  valid = sample-IsValid;
  root = refl;
  bounded = λ p pos. ground arith;
  aligned = λ p pos. ground arith;
  used = λ p pos lt. ground arith;
  next = λ p i two lt on. ground arith;
}

machine-Route : Route offset machine 0 0x2000 0x3000 0x8000
machine-Route = record { pml4 = (refl, refl); pdpt = (refl, refl); pd = (refl, refl) }

get_phys_runs : get_phys 0x123 machine ≡ some (0x9123, machine)
unfolding get_phys existing_levels root phy_to_virt get_existing_level load
get_phys_runs = refl

child : ℕ → ℕ
child p = if p == 0x1000 then 0x2000 else if p == 0x2000 then 0x3000 else 0x8000

-- The entries of the tables above the last level.
machine-entry :
    (p i : ℕ)
    → 2 ≤ depth p
    → i < 512
    → word offset machine p i % 2 ≡ 1
    → (i ≡ 0) × (page (word offset machine p i) ≡ child p)
unfolding child
machine-entry p i two lt on = ground arith

child-injective : (p q : ℕ) → 2 ≤ depth p → 2 ≤ depth q → child p ≡ child q → p ≡ q
unfolding child
child-injective p q two two' e = ground arith

pub machine-IsTree : IsTree offset machine depth
machine-IsTree p i q j two lt on two' lt' on' e =
    let (first, names) = machine-entry p i two lt on in
    let (first', names') = machine-entry q j two' lt' on' in
    (child-injective p q two two' (sym names ∙ e ∙ names'), first ∙ sym first')

pub machine-Represents : Represents offset machine depth (translate offset machine)
machine-Represents = record { tables = machine-Tables; tree = machine-IsTree; view = λ u. refl }

map-Refines_example :
    MapRefines offset (translate offset machine) 0x201000 0x5000 (map 0x201000 0x5000 3 machine)
map-Refines_example = map-Refines 0x201000 0x5000 3 machine-Represents (omega arith) refl

get_phys-Refines_example :
    get_phys 0x123 machine ≡ some (answer (translate offset machine 0x123) 0x123, machine)
get_phys-Refines_example = get_phys-Refines 0x123 machine-Represents

unmap-Refines_example :
    UnmapRefines offset machine depth (translate offset machine) 0 (unmap 0 machine)
unmap-Refines_example = unmap-Refines 0 machine-Represents (λ p pos lt. ground arith)

-- The page of 0x1000 mapped to the registers of a device.
abbrev with_device : Machine
with_device = record machine {
  words = write_word memory 0x100008008 0xFEE00003;
  flushed = 0x1000 ∷ [];
}

map_runs : map 0x1000 0xFEE00000 3 machine ≡ some (true, with_device)
unfolding map next_levels root phy_to_virt get_next_level load store
map_runs = refl

map-unmap_example :
    (m'' : Machine) × (level'' : ℕ → ℕ) × (unmap 0x1000 with_device ≡ some (true, m''))
    × Represents offset m'' level'' (translate offset machine)
map-unmap_example =
    map-unmap 0x1000 0xFEE00000 3 machine-Represents refl (omega arith) (omega arith) refl map_runs
