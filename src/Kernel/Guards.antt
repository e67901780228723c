-- ===== src/Kernel/Guards.antt =====
-- The guards of `kmain` in kernel/src/main.c.
use yoix.Base.{ℕ, ◌<◌, ◌≡◌, refl, Option, some, true, false, List, ◌∷◌, arith, le→not-ltb}
use yoix.Buddy.Init.{MemmapEntry}
use yoix.Buddy.Laws.Memmap.{length}
use yoix.Kernel.Screen.{Framebuffer}
use yoix.Kernel.Entry.{Platform, Responses, Kernel, boot, refused, kmain}

module _ (e : Option MemmapEntry) (es : List (Option MemmapEntry)) (fb : Framebuffer)
    (fbs : List Framebuffer) (count rsdp : ℕ) where
  -- Every request is answered.
  abbrev pub answered : Responses
  answered = record {
    base_revision_supported = true;
    framebuffer = some (record { framebuffer_count = count; framebuffers = fb ∷ fbs });
    memmap = some (record { entry_count = length (e ∷ es); entries = some (e ∷ es) });
    rsdp = some rsdp;
  }

  pub answered-refused :
      {offset : ℕ} {hhdm : Option ℕ}
      → hhdm ≡ some offset
      → 0 < count
      → refused answered hhdm ≡ false
  unfolding refused
  answered-refused mapped some_fb = rw (mapped, le→not-ltb count 1 some_fb) (ground arith)

  pub kmain-boot :
      (k : Kernel) (platform : Platform)
      → refused answered k.heap.hhdm ≡ false
      → kmain platform answered k
        ≡ boot platform answered.framebuffer answered.memmap answered.rsdp k
  unfolding kmain
  kmain-boot k platform passed = rw passed refl
