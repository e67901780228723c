-- ===== src/Kernel/Entry.antt =====
-- kernel/src/main.c: `kmain`, over the state of the parts that it calls. What the boot loader answers and
-- the bytes of the firmware's tables are values. `hcf` never returns: the processor halts.
use yoix.Base.{
  ℕ, not, Bool, true, false, Option, none, some, List, [], ◌∷◌, Prog, pure, fault, ◌>>=◌, ◌>>◌,
  ◌==◌, ◌||◌, ltb, if◌then◌else◌,
}
use yoix.Buddy.Init.{MemmapResponse, init}
use yoix.Paging.Machine.{Machine}
use yoix.Heap.State.{Heap, on_frames}
use yoix.Heap.Ops.{heap_init}
use yoix.Segments.Ops.{Gdt, init_gdt}
use yoix.Idt.Ops.{Idt, idt_init}
use yoix.Acpi.Ops.{Bytes, find_table}
use yoix.LocalApic.Ops.{LocalApic, enable_apic}
use yoix.IoApic.Redirection.{IoApics}
use yoix.IoApic.Init.{Setup, init_ioapic}
use yoix.Kernel.Screen.{Framebuffer, Pixels, draw_pattern}

-- `struct limine_framebuffer_response`.
pub record FramebufferResponse : Type 0 where
  pub framebuffer_count : ℕ
  pub framebuffers : List Framebuffer

-- The responses that `kmain` reads, nothing where one is NULL; that to `hhdm_request` is in the heap.
pub record Responses : Type 0 where
  pub base_revision_supported : Bool
  pub framebuffer : Option FramebufferResponse
  pub memmap : Option MemmapResponse
  pub rsdp : Option ℕ

-- What the linker and the hardware give: the addresses of the interrupt stubs and the tables, the name of
-- the table that is searched for, the bytes of the firmware's tables, the answers of the I/O APICs and
-- what the compiler makes of a shift by the width of a word.
pub record Platform : Type 0 where
  pub stubs : ℕ → ℕ
  pub idt_address : ℕ
  pub tss_address : ℕ
  pub gdt_address : ℕ
  pub apic_sign : ℕ
  pub bytes : Bytes
  pub ioapic : List (ℕ × ℕ) → ℕ → ℕ
  pub wide : ℕ → ℕ

-- The state of the parts. The page allocator and the offset of the direct map are those of the heap; the
-- page tables have `words`, `cr3` and `flushed` besides, the local APIC `msr`, `g_virt_apic` and
-- `written`.
pub record Kernel : Type 0 where
  pub pixels : Pixels
  pub gdt : Gdt
  pub idt : Idt
  pub heap : Heap
  pub words : ℕ → ℕ
  pub cr3 : ℕ
  pub flushed : List ℕ
  pub msr : ℕ → ℕ × ℕ
  pub g_virt_apic : ℕ
  pub written : List (ℕ × ℕ)
  pub apics : IoApics
  pub ioapic_entries : List ℕ
  pub phys_address : ℕ → ℕ
  pub ioapic_version : ℕ
  pub ioapic_id : ℕ

abbrev pub machine_of : Kernel → Machine
machine_of k = record {
  words = k.words;
  frames = k.heap.frames;
  cr3 = k.cr3;
  hhdm = k.heap.hhdm;
  flushed = k.flushed;
}

abbrev pub local_apic_of : Kernel → LocalApic
local_apic_of k = record {
  machine = machine_of k;
  msr = k.msr;
  g_virt_apic = k.g_virt_apic;
  written = k.written;
}

abbrev pub setup_of : Kernel → Setup
setup_of k = record {
  machine = machine_of k;
  apics = k.apics;
  ioapic_entries = k.ioapic_entries;
  phys_address = k.phys_address;
  ioapic_version = k.ioapic_version;
  ioapic_id = k.ioapic_id;
}

abbrev pub set_machine : Kernel → Machine → Kernel
set_machine k m = record k {
  words = m.words;
  heap = record k.heap { frames = m.frames };
  cr3 = m.cr3;
  flushed = m.flushed;
}

abbrev pub set_local_apic : Kernel → LocalApic → Kernel
set_local_apic k s = record (set_machine k s.machine) {
  msr = s.msr;
  g_virt_apic = s.g_virt_apic;
  written = s.written;
}

abbrev pub set_setup : Kernel → Setup → Kernel
set_setup k s = record (set_machine k s.machine) {
  apics = s.apics;
  ioapic_entries = s.ioapic_entries;
  phys_address = s.phys_address;
  ioapic_version = s.ioapic_version;
  ioapic_id = s.ioapic_id;
}

-- A call of a part, whose state is a part of the whole.
module _ {S A : Type 0} (get : Kernel → S) (put : Kernel → S → Kernel) where
  abbrev put_back : Kernel → Option (A × S) → Option (A × Kernel)
  put_back k none = none
  put_back k (some (a, s)) = some (a, put k s)

  abbrev pub on_part : Prog S A → Prog Kernel A
  on_part call k = put_back k (call (get k))

abbrev pub on_pixels : {A : Type 0} → Prog Pixels A → Prog Kernel A
on_pixels = on_part (λ k. k.pixels) (λ k px. record k { pixels = px })

abbrev pub on_heap : {A : Type 0} → Prog Heap A → Prog Kernel A
on_heap = on_part (λ k. k.heap) (λ k h. record k { heap = h })

abbrev pub on_local_apic : {A : Type 0} → Prog LocalApic A → Prog Kernel A
on_local_apic = on_part local_apic_of set_local_apic

abbrev pub on_setup : {A : Type 0} → Prog Setup A → Prog Kernel A
on_setup = on_part setup_of set_setup

abbrev pub set_gdt : Gdt → Prog Kernel (Unit {0})
set_gdt gdt k = some (tt, record k { gdt = gdt })

abbrev pub set_idt : (Idt → Idt) → Prog Kernel (Unit {0})
set_idt f k = some (tt, record k { idt = f k.idt })

-- From the pattern to `enable_apic`, with the first framebuffer.
unfoldable pub start : Platform → Framebuffer → Option MemmapResponse → Prog Kernel (Unit {0})
start platform framebuffer memmap = do
  on_pixels (draw_pattern framebuffer)
  set_gdt (init_gdt platform.tss_address platform.gdt_address)
  set_idt (idt_init platform.stubs platform.idt_address)
  on_heap (on_frames (init memmap))
  on_heap heap_init
  on_local_apic (enable_apic platform.wide)

-- `framebuffers[0]`.
abbrev pub first : List Framebuffer → Prog Kernel Framebuffer
first [] = fault
first (framebuffer ∷ framebuffers) = pure framebuffer

abbrev pub located : Option ℕ → Prog Kernel ℕ
located none = fault
located (some a) = pure a

-- What comes after the guards.
unfoldable pub boot :
    Platform
    → Option FramebufferResponse
    → Option MemmapResponse
    → Option ℕ
    → Prog Kernel (Unit {0})
boot platform (some response) memmap (some rsdp) = do
  framebuffer ← first response.framebuffers
  start platform framebuffer memmap
  madt ← λ k. located (find_table k.heap.hhdm rsdp platform.apic_sign platform.bytes) k
  on_setup (init_ioapic platform.bytes platform.ioapic madt)
boot platform _ memmap _ = fault

abbrev pub is_null : {A : Type 0} → Option A → Bool
is_null none = true
is_null (some a) = false

abbrev pub no_framebuffer : Option FramebufferResponse → Bool
no_framebuffer none = true
no_framebuffer (some response) = ltb response.framebuffer_count 1

abbrev pub no_memmap : Option MemmapResponse → Bool
no_memmap none = true
no_memmap (some response) = response.entry_count == 0 || is_null response.entries

-- Whether `kmain` calls `hcf` before it does anything.
unfoldable pub refused : Responses → Option ℕ → Bool
refused responses hhdm =
    not responses.base_revision_supported
    || no_framebuffer responses.framebuffer
    || no_memmap responses.memmap
    || is_null hhdm
    || is_null responses.rsdp

unfoldable pub kmain : Platform → Responses → Prog Kernel (Unit {0})
kmain platform responses k =
    if refused responses k.heap.hhdm
    then some (tt, k)
    else boot platform responses.framebuffer responses.memmap responses.rsdp k
