-- ===== src/Kernel/Boot.antt =====
-- The start of the kernel: the parts of kernel/src/main.c that `kmain` sets up before it looks for the
-- firmware's tables.
use yoix.Base.{
  ℕ, ◌+◌, ◌/◌, ◌%◌, ◌^◌, ◌≤◌, ◌<◌, ◌≡◌, refl, sym, ap, ◌∙◌, subst, Option, some, false, List, arith,
}
use yoix.Buddy.State.{Buddy, page_size, max_pages, max_phys, reserved}
use yoix.Buddy.Init.{MemmapEntry, MemmapResponse, init}
use yoix.Buddy.Valid.{IsValid}
use yoix.Buddy.Laws.Memmap.{Apart, covered, length}
use yoix.Buddy.Laws.Init.{init-IsValid}
use yoix.Paging.Machine.{Machine}
use yoix.Paging.Entries.{page}
use yoix.Paging.Tables.{word}
use yoix.Paging.Space.{IsTree, translate}
use yoix.Paging.Space.Refines.{AddressSpace, Represents}
use yoix.Heap.State.{class_count}
use yoix.Heap.Access.{on_frames-run}
use yoix.Heap.Laws.Caches.{Caches}
use yoix.Heap.Laws.Small.{initial, initial-Caches, initial-empty, heap_init-run}
use yoix.Segments.Ops.{init_gdt}
use yoix.Idt.Ops.{idt_init}
use yoix.LocalApic.Ops.{LocalApic, ia32_apic_base_msr, enable_apic}
use yoix.LocalApic.Switching.{
  WindowMapped, reached, no_page, Enabled, apic_page, enable_apic-Enabled,
}
use yoix.Kernel.Screen.{Framebuffer, Pixels, draw_pattern}
use yoix.Kernel.Drawing.{Fits, Drawn, draw_pattern-Drawn}
use yoix.Kernel.Entry.{Platform, Kernel, machine_of, local_apic_of, set_local_apic, start}

-- What the code takes for granted of the boot loader: a direct map of memory, usable entries that do not
-- overlap, and page tables that stand for an address space and lie in no usable page. Every present
-- entry above the last level names a table: kernel/src/memory/vmm.c knows no large pages.
pub record Loaded (offset : ℕ) (es : List (Option MemmapEntry)) (k : Kernel) (level : ℕ → ℕ)
    (space : AddressSpace) : Type 0 where
  pub mapped : k.heap.hhdm ≡ some offset
  pub some_offset : 0 < offset
  pub whole_pages : offset % page_size ≡ 0
  pub window : max_phys + offset ≤ 2 ^ 64
  pub apart : Apart es
  pub root : level (page k.cr3) ≡ 4
  pub bounded : (p : ℕ) → 0 < level p → p + 4096 + offset ≤ 2 ^ 64
  pub aligned : (p : ℕ) → 0 < level p → p % 4096 ≡ 0
  pub outside : (p : ℕ) → 0 < level p → p / 4096 < max_pages → covered es (p / 4096) ≡ false
  pub next :
      (p i : ℕ)
      → 2 ≤ level p
      → i < 512
      → word offset (machine_of k) p i % 2 ≡ 1
      → level (page (word offset (machine_of k) p i)) + 1 ≡ level p
  pub tree : IsTree offset (machine_of k) level
  pub view : (u : ℕ) → translate offset (machine_of k) u ≡ space u

-- The local APIC has its registers in a page below 2 ^ 32 that the direct map has room for.
pub record HasApic (offset : ℕ) (k : Kernel) : Type 0 where
  pub none_high : (k.msr ia32_apic_base_msr).1 % 16 ≡ 0
  pub fits : apic_page (local_apic_of k) + 4096 + offset ≤ 2 ^ 64

-- What is set up: the pattern is drawn, the segments and the interrupt table are loaded, the caches
-- of the heap have their sizes over a valid page allocator, and the local APIC is on.
pub record Started (offset : ℕ) (space : AddressSpace) (platform : Platform) (fb : Framebuffer)
    (k k' : Kernel) : Type 0 where
  pub drawn : Drawn fb 0 fb.height k.pixels k'.pixels
  pub gdt : k'.gdt ≡ init_gdt platform.tss_address platform.gdt_address
  pub idt : k'.idt ≡ idt_init platform.stubs platform.idt_address k.idt
  pub caches : Caches offset k'.heap
  pub empty : (i : ℕ) → i < class_count → k'.heap.partial_pages i ≡ 0
  pub apic : Enabled offset space (local_apic_of k) (local_apic_of k')

-- The page allocator is valid and the direct map where it was.
window_tables :
    {offset : ℕ} {space : AddressSpace} {base : ℕ} {m : Machine}
    → WindowMapped offset space base m
    → IsValid m.frames × (m.hhdm ≡ some offset)
window_tables (reached level rep window) = (rep.tables.valid, rep.tables.mapped)
window_tables (no_page level rep none_free) = (rep.tables.valid, rep.tables.mapped)

module _ {offset : ℕ} (es : List (Option MemmapEntry)) {k : Kernel} {level : ℕ → ℕ}
    {space : AddressSpace} (loaded : Loaded offset es k level space) where
  abbrev map_response : Option MemmapResponse
  map_response = some (record { entry_count = length es; entries = some es })

  -- The boot loader's tables over an allocator that has them as reserved.
  Loaded-Represents :
      (s : Buddy)
      → IsValid s
      → ((i : ℕ) → i < max_pages → covered es i ≡ false → s.page_state i ≡ reserved)
      → Represents offset (record (machine_of k) { frames = s }) level space
  Loaded-Represents s valid others = record {
    tables = record {
      mapped = loaded.mapped;
      some_offset = loaded.some_offset;
      window = loaded.window;
      valid = valid;
      root = loaded.root;
      bounded = loaded.bounded;
      aligned = loaded.aligned;
      used = λ p pos lt. ground (arith, others (p / 4096) lt (loaded.outside p pos lt));
      next = loaded.next;
    };
    tree = loaded.tree;
    view = loaded.view;
  }

  -- The kernel before `enable_apic`.
  abbrev prepared : Platform → Pixels → Buddy → Kernel
  prepared platform px' s' = record k {
    pixels = px';
    gdt = init_gdt platform.tss_address platform.gdt_address;
    idt = idt_init platform.stubs platform.idt_address k.idt;
    heap = initial (record k.heap { frames = s' });
  }

  module _ (platform : Platform) (fb : Framebuffer) {px' : Pixels} {s' : Buddy}
      {a' : LocalApic} where
    start-run :
        draw_pattern fb k.pixels ≡ some (tt, px')
        → init map_response k.heap.frames ≡ some (tt, s')
        → enable_apic platform.wide (local_apic_of (prepared platform px' s')) ≡ some (tt, a')
        → start platform fb map_response k ≡ some (tt, set_local_apic (prepared platform px' s') a')
    unfolding start
    start-run draws fills enables =
        rw
          (
            draws,
            on_frames-run (init map_response) k.heap fills,
            heap_init-run (record k.heap { frames = s' }),
            enables,
          )
          refl

    -- The window and what has stayed are as in the machine that the local APIC leaves.
    prepared-Started :
        Drawn fb 0 fb.height k.pixels px'
        → Enabled offset space (local_apic_of (prepared platform px' s')) a'
        → Started offset space platform fb k (set_local_apic (prepared platform px' s') a')
    prepared-Started drawn enabled =
        let (valid, same) = window_tables enabled.window in
        record {
          drawn = drawn;
          gdt = refl;
          idt = refl;
          caches = initial-Caches (record {
            mapped = loaded.mapped;
            some_offset = loaded.some_offset;
            whole_pages = loaded.whole_pages;
            window = loaded.window;
            valid = valid;
          });
          empty = initial-empty (record k.heap { frames = s' });
          apic = record {
            window =
                subst (WindowMapped offset space (apic_page (local_apic_of k)))
                  (ap (λ hhdm. record a'.machine { hhdm = hhdm }) (same ∙ sym loaded.mapped))
                  enabled.window;
            virt = enabled.virt;
            base = enabled.base;
            others = enabled.others;
            switch = enabled.switch;
          };
        }

  -- With a framebuffer that fits, what the boot loader leaves, a local APIC that is in reach and a
  -- shift by 32 that takes 0 to 0, the steps of `kmain` up to `enable_apic` return, and have set up
  -- every part: the pattern is drawn, the segment descriptors and the interrupt table are as their
  -- functions make them, the caches of the heap have their sizes and no page over a valid page
  -- allocator, and the local APIC is on, with its registers mapped unless no page is free for a
  -- table.
  pub start-Started :
      (platform : Platform) (fb : Framebuffer) (fits : Fits fb)
      → HasApic offset k
      → platform.wide 0 ≡ 0
      → (k' : Kernel) × (start platform fb
            (some (record { entry_count = length es; entries = some es }))
            k
          ≡ some (tt, k'))
        × Started offset space platform fb k k'
  start-Started platform fb fits apic wide_zero =
      let (px', draws, drawn) = draw_pattern-Drawn fb fits k.pixels in
      let (s', fills, valid, frees, others) = init-IsValid es k.heap.frames loaded.apart in
      let (a', enables, enabled) =
        enable_apic-Enabled platform.wide wide_zero (local_apic_of (prepared platform px' s'))
          (Loaded-Represents s' valid others) apic.none_high loaded.whole_pages apic.fits in
      (
        set_local_apic (prepared platform px' s') a',
        start-run platform fb draws fills enables,
        prepared-Started platform fb drawn enabled,
      )
