-- ===== src/Kernel/Examples.antt =====
-- kernel/src/main.c on the page tables of the paging examples, with 240 pages of usable memory.
use yoix.Base.{ℕ, List, ◌+◌, ◌*◌, ◌≡◌, some, none, false, [], ◌∷◌, arith, ◌==◌, if◌then◌else◌}
use yoix.Buddy.Init.{MemmapEntry}
use yoix.Buddy.Examples.{sample}
use yoix.Paging.Examples.{machine, offset}
use yoix.Segments.Ops.{init_gdt}
use yoix.Idt.Ops.{Idt}
use yoix.Kernel.Running.{Running}
use yoix.Kernel.Screen.{Framebuffer, Pixels, draw_pattern}
use yoix.Kernel.Drawing.{Fits, Drawn, draw_pattern-Drawn}
use yoix.Kernel.Entry.{Platform, Kernel}

abbrev framebuffer : Framebuffer
framebuffer = record { address = 0xFFFF8000FD000000; width = 4; height = 3; pitch = 32 }

framebuffer-Fits : Fits framebuffer
framebuffer-Fits = record {
  address = omega arith;
  lines = omega arith;
  columns = omega arith;
  rows = omega arith;
  size = omega arith;
}

draw_pattern-Drawn_example :
    (px' : Pixels) × (draw_pattern framebuffer (λ i. 7) ≡ some (tt, px'))
    × Drawn framebuffer 0 3 (λ i. 7) px'
draw_pattern-Drawn_example = draw_pattern-Drawn framebuffer framebuffer-Fits (λ i. 7)

-- The pages 16 to 255.
abbrev usable : MemmapEntry
usable = record { base = 0x10000; length = 0xF0000; type = 0 }

abbrev blank_idt : Idt
blank_idt = record {
  idt = λ v. record {
    isr_low = 0;
    kernel_cs = 0;
    ist = 0;
    attributes = 0;
    isr_mid = 0;
    isr_high = 0;
    reserved = 0;
  };
  vectors = λ v. false;
  idtr = record { limit = 0; base = 0 };
  loaded = none;
  enabled = false;
}

abbrev kernel : Kernel
kernel = record {
  pixels = λ i. 0;
  gdt = init_gdt 0 0;
  idt = blank_idt;
  heap = record {
    memory = λ a. 0;
    frames = sample;
    hhdm = some offset;
    object_size = λ i. 0;
    partial_pages = λ i. 0;
  };
  words = machine.words;
  cr3 = machine.cr3;
  flushed = [];
  msr = λ i. (0xFEE00900, 0);
  g_virt_apic = 0;
  written = [];
  apics = record { virt_address = λ i. 0; iso_entries = []; written = [] };
  ioapic_entries = [];
  phys_address = λ i. 0;
  ioapic_version = 0;
  ioapic_id = 0;
}

-- The bytes at the addresses of the list, and 0 elsewhere.
abbrev byte_at : List (ℕ × ℕ) → ℕ → ℕ
byte_at [] a = 0
byte_at ((address, byte) ∷ bytes) a = if a == address then byte else byte_at bytes a

-- A name at 0x500, a root table with one entry, and the table that it names, with an I/O APIC whose
-- registers lie at 0xFEC00000.
abbrev firmware : ℕ → ℕ
firmware = byte_at (
    (0x500, 65)
    ∷ (0x501, 80)
    ∷ (0x502, 73)
    ∷ (0x503, 67)
    ∷ (0x100000004, 40)
    ∷ (0x100000025, 0x10)
    ∷ (0x100001000, 65)
    ∷ (0x100001001, 80)
    ∷ (0x100001002, 73)
    ∷ (0x100001003, 67)
    ∷ (0x100001004, 56)
    ∷ (0x10000102C, 1)
    ∷ (0x10000102D, 12)
    ∷ (0x100001032, 0xC0)
    ∷ (0x100001033, 0xFE)
    ∷ [])

abbrev pc : Platform
pc = record {
  stubs = λ v. 0x1000 + 16 * v;
  idt_address = 0x2000;
  tss_address = 0x3000;
  gdt_address = 0x4000;
  apic_sign = 0x500;
  bytes = firmware;
  ioapic = λ writes index. 0;
  wide = λ n. n;
}
