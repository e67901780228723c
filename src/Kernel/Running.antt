-- ===== src/Kernel/Running.antt =====
-- `kmain` of kernel/src/main.c up to its end, on a machine with an I/O APIC.
use yoix.Base.{ℕ, ◌+◌, ◌≡◌, List}
use yoix.Paging.Machine.{Machine}
use yoix.Paging.Space.Refines.{AddressSpace}
use yoix.Heap.Laws.Caches.{Caches}
use yoix.Acpi.Ops.{table_length}
use yoix.IoApic.Ops.{madt_size}
use yoix.IoApic.Laws.{Found}
use yoix.IoApic.Initial.{Initialized}
use yoix.Kernel.Screen.{Framebuffer}
use yoix.Kernel.Entry.{Platform, Kernel, setup_of, set_setup}
use yoix.Kernel.Boot.{Started}

-- What `kmain` leaves: everything that is set up before it looks for the firmware's tables, of which
-- only what `init_IOAPIC` works on has changed since, the I/O APICs, and the heap as after `heap_init`.
pub record Running (offset : ℕ) (space : AddressSpace) (platform : Platform) (fb : Framebuffer)
    (madt : ℕ) (entries : List ℕ) (k k' : Kernel) : Type 0 where
  pub started : Kernel
  pub started_space : AddressSpace
  pub isos : List ℕ
  pub before : Started offset space platform fb k started
  pub since : k' ≡ set_setup started (setup_of k')
  pub overrides :
      Found platform.bytes (madt + table_length platform.bytes madt) 2 (madt + madt_size) 256 isos
  pub initialized :
      Initialized offset platform.bytes platform.ioapic entries isos
        (setup_of started)
        started_space
        (setup_of k')
  pub caches : Caches offset k'.heap
