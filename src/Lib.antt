-- ===== src/Lib.antt =====
-- Yoix is a small x86-64 kernel in C. This library models its memory management with the kernel
-- heap, its routines on memory, its segment and interrupt descriptors, its interrupt controllers,
-- its timer, its search for firmware tables and its entry point.
--
-- Base: the names and lemmas that the parts share: Boolean tests on ℕ (Base/Tests), programs on a
-- state that may fault (Base/Faults), words in a memory of bytes (Base/Memory), and bit operations
-- as arithmetic (Base/Bits) and by their digits (Base/Digit). A fault is an access past the end of
-- a C array, a NULL pointer that is read or written, or a shift or a division without a defined
-- result.
--
-- Buddy: kernel/src/memory/buddy.c and buddy.h, the allocator of physical pages. Buddy/State holds
-- the four static tables as functions from the index, each access checked against the length of the
-- C array. Buddy/Blocks has buddy_reset, buddy_mark_block_free, buddy_mark_block_allocated,
-- buddy_add_free_block, buddy_remove_free_block and buddy_pop_free_block; Buddy/Ops has align_up,
-- align_down, buddy_order_from_pages, buddy_add_range, buddy_allocate_block, buddy_alloc_pages,
-- buddy_free_pages, buddy_alloc_page and buddy_free_page; Buddy/Init has buddy_init over the memory
-- map as a value. The prefix buddy_ is left out. Buddy/Chain, Buddy/Pages, Buddy/Rep and
-- Buddy/Valid describe the tables: the doubly linked lists, the blocks that the state table marks,
-- and that the two agree. Buddy/Runs says what an operation does to the tables and Buddy/Laws what
-- it does for its caller.
--
-- Paging: kernel/src/memory/vmm.c and vmm.h, page tables. Paging/Machine has the state: words at
-- virtual addresses, the page allocator of Buddy, cr3, the answer to hhdm_request and the flushed
-- addresses; a table pointer is its address. Paging/Ops has Make_Page (make_page) and
-- vmm_get_next_level, vmm_get_existing_level, vmm_map, vmm_unmap and vmm_get_phys, without the
-- prefix vmm_; the walks that vmm_map, and vmm_unmap with vmm_get_phys, have in common are
-- next_levels and existing_levels. Paging/Tables says when tables are well formed: a level for
-- every table, each present entry above the last level names a table of the level below, so that
-- there are no large pages, which the code does not know, and no table lies in a free page.
-- Paging/Space reads the tables as an address space, a function from addresses to pages: Represents
-- (Paging/Space/Refines) says that the tables stand for one, with no table named by two entries;
-- Paging/Space/Window is about the addresses of one page and Paging/Space/Undo about vmm_unmap
-- after vmm_map. The allocator's tables and the kernel's other data are not in the words that a
-- page table can reach.
--
-- Heap: kernel/src/memory/heap.c and heap.h, kmalloc and kfree over the page allocator. Heap/State
-- has the state: bytes at virtual addresses, the page allocator of Buddy, the answer to
-- hhdm_request and heap_caches; a slab page is a structure at the offsets of its fields. Heap/Slabs
-- has heap_cache_index, object_index, heap_remove_slab_from_cache, heap_insert_slab_into_cache and
-- heap_alloc_slab_page, Heap/Ops has heap_alloc_from_cache, heap_free_large, heap_free_small,
-- heap_init, kmalloc and kfree; the prefix heap_ is left out but for heap_init. Ready (Heap/Access)
-- says that the direct map covers memory. Heap/Laws/Format is about a new slab page,
-- Heap/Laws/Lists about the lists of slab pages as lists of addresses, Heap/Laws/Small and
-- Heap/Laws/Requests about the caches after heap_init, and Heap/Laws/Large with Heap/Laws/LargeFree
-- about requests that no class holds. The allocator's tables and heap_caches are not in the bytes
-- that a pointer can reach.
--
-- Routines: memcpy, memset, memmove and memcmp of kernel/src/main.c, over a memory of bytes indexed
-- by address; the blocks do not wrap around the end of the address space.
--
-- Segments: kernel/src/memory/gdt.c, gdt.h and tss.h: encodeGDTEntry, encodeTSSEntry and initGdt
-- (init_gdt) without its machine instructions. Segments/Laws has the reading of a descriptor by the
-- processor.
--
-- Timer: init_pit of kernel/src/system/interrupt/irq/pit.c, over the log of the bytes that are
-- written to ports.
--
-- Pic: kernel/src/system/interrupt/PIC/pic.c and pic.h, every function, over the ports of any
-- machine (Ports), with outb, inb and io_wait of kernel/src/system/cpu/io.h; PIC_sendEOI is
-- send_eoi, PIC_remap remap, PIC_disable disable, IRQ_set_mask irq_set_mask and IRQ_clear_mask
-- irq_clear_mask. What the data ports of the controllers do is the record Masks (Pic/Laws), a
-- hypothesis.
--
-- Idt: kernel/src/system/interrupt/idt.c and idt.h. idt_set_descriptor, idt_init, irq_handler and
-- interrupt_handler over the table, the vectors and what the processor was given by lidt and sti,
-- with write_lapic_register and APIC_EOI (apic_eoi) of kernel/src/system/interrupt/APIC/apic.c.
-- Addresses of the assembly stubs are an argument.
--
-- Acpi: kernel/src/drivers/ACPI/acpi.c: strncmp, doChecksum, GetXSDT, GetRSDT and findTable over a
-- memory of bytes, with phy_to_virt of Paging; search_entries is the loop that findTable has for
-- each of the two root tables.
--
-- IoApic: in IoApic/Ops FindEntries and Get_iso_gsi of kernel/src/drivers/interrupt/APIC/ioapic.c
-- over a memory of bytes; the array that FindEntries fills is a list of addresses, and a NULL array
-- has no room, and the bytes can be read at every address, so that a table that is NULL is no fault
-- there; that there is a table is a hypothesis where it matters. IoApic/Redirection has writeRedir,
-- ioapic_read, ioapic_write, OffsetLower, OffsetUpper, Get_pin, loadRedir and Get_APICID over the
-- words that are written to the windows of the I/O APICs; IoApic/Programming is about them.
-- IoApic/Init has init_IOAPIC (init_ioapic) over Paging, the table and the I/O APICs;
-- IoApic/Windows is about the loop that maps the windows and IoApic/Initial about the whole.
--
-- LocalApic: kernel/src/system/interrupt/APIC/apic.c, with kernel/src/system/cpu/msr.c, over the
-- page tables and the model-specific registers: in LocalApic/Ops check_apic, cpu_set_apic_base,
-- cpu_get_apic_base, enable_apic, disable_apic and read_lapic_register, with cpuHasMSR
-- (cpu_has_msr), cpuGetMSR (cpu_get_msr) and cpuSetMSR (cpu_set_msr). What cpuid and the registers
-- of the local APIC answer is an argument, and so is what the compiler makes of the shift by 32 in
-- cpu_get_apic_base, for which C has no result: a hypothesis says that it takes 0 to 0.
-- LocalApic/Laws is about the base address and LocalApic/Switching about the window of the
-- registers.
--
-- Kernel: kmain of kernel/src/main.c. Kernel/Screen has the pattern that it draws (draw_pattern),
-- over the words of the framebuffer, and Kernel/Entry its guards (refused) and its calls, over the
-- state of all the parts: start is what it does up to enable_apic, boot what it does when every
-- request is answered. To end in hcf is to return. The page tables, the heap, the framebuffer and
-- the windows of the interrupt controllers do not overlap. Kernel/Boot says what the boot loader
-- leaves (Loaded) and what start sets up (Started), Kernel/Drawing what the pattern is,
-- Kernel/Guards when kmain goes on, and Kernel/Running what kmain leaves at its end.
--
-- Bounds and fuel. Words of 32 and 64 bits are natural numbers with `% 2 ^ 32` and `% 2 ^ 64` where
-- the C type wraps. Loops over an order run on the distance to the largest order, 18;
-- buddy_add_range runs on the number of pages, since each round takes at least one page; the loops
-- that fill a table run on the number of entries left. FindEntries runs on the length of the table,
-- since each entry takes at least one byte or is the last. The walk of heap_remove_slab_from_cache
-- runs on the number of pages of memory, which bounds the length of a list without repetition.
-- Running out of fuel is a fault, so that a theorem that an operation returns says the fuel was
-- enough.
--
-- Not modelled: assembly, the boot loader's header kernel/src/boot/limine.h, the bodies of single
-- machine instructions in kernel/src/system/cpu and get_model of its cpuid.c. There is one
-- processor and no interrupt inside an operation; the code takes no locks.
pub mod Base
pub mod Acpi
pub mod Buddy
pub mod Heap
pub mod Idt
pub mod IoApic
pub mod Kernel
pub mod LocalApic
pub mod Paging
pub mod Pic
pub mod Routines
pub mod Segments
pub mod Timer
