-- ===== src/LocalApic/Switching.antt =====
-- Switching the local APIC on and off: the window of its registers in the address space, and what is
-- written there.
use yoix.Base.{
  ℕ, ◌+◌, ◌-◌, ◌*◌, ◌/◌, ◌%◌, ◌^◌, ◌≤◌, ◌<◌, ◌≡◌, ◌≢◌, refl, ap, ap₂, ◌∙◌, subst, bit_and, Option,
  some, Bool, true, false, ◌∷◌, arith, ne→not-==,
}
use yoix.Base.Digit.{digit, digit_cleared, digit_cleared_other}
use yoix.Buddy.Laws.Allocate.{Exhausted}
use yoix.Paging.Machine.{Machine, phy_to_virt}
use yoix.Paging.Ops.{map}
use yoix.Paging.Entries.{page}
use yoix.Paging.Tables.{phy_to_virt-run}
use yoix.Paging.Space.Refines.{
  AddressSpace, Represents, MapRefines, mapped, unmapped, map-Refines, remap,
}
use yoix.Paging.Space.Window.{Window, remap-Window}
use yoix.LocalApic.Ops.{
  LocalApic, Device, ia32_apic_base_msr, cpu_set_apic_base, cpu_get_apic_base, read_lapic_register,
  enable_apic, disable_apic, window_flags, svr,
}
use yoix.LocalApic.Laws.{with_base, base_of-low, get_apic_base-run, set_apic_base-run}

-- The page of the registers, as the low word of the base register has it.
abbrev pub apic_page : LocalApic → ℕ
apic_page s = (s.msr ia32_apic_base_msr).0 / 4096 % 2 ^ 20 * 4096

-- The page of the registers is mapped at its address in the direct map, and each of its addresses
-- is looked up there; or no page is free for a table, and the address space is as before.
pub data WindowMapped (offset : ℕ) (space : AddressSpace) (base : ℕ) (m : Machine) : Type 0 where
  reached :
      (level : ℕ → ℕ)
      → Represents offset m level (remap (base + offset) (some base) space)
      → Window (base + offset) base m
      → WindowMapped offset space base m
  no_page :
      (level : ℕ → ℕ)
      → Represents offset m level space
      → Exhausted m.frames 0
      → WindowMapped offset space base m

module _ {offset : ℕ} {m : Machine} {level : ℕ → ℕ} {space : AddressSpace} (base : ℕ)
    (rep : Represents offset m level space) (aligned : base % 4096 ≡ 0) (low : base < 2 ^ 32)
    (aligned_offset : offset % 4096 ≡ 0) where
  whole : page base ≡ base
  whole = omega (arith, aligned, low)

  map-WindowMapped :
      (done : Bool) × (m' : Machine) × (map (base + offset) base window_flags m ≡ some (done, m'))
      × WindowMapped offset space base m'
  map-WindowMapped = go (map-Refines (base + offset) base window_flags rep (omega arith) refl) refl
    where
      go :
          {r : Option (Bool × Machine)}
          → MapRefines offset space (base + offset) base r
          → map (base + offset) base window_flags m ≡ r
          → (done : Bool) × (m' : Machine) × (map (base + offset) base window_flags m
              ≡ some (done, m'))
            × WindowMapped offset space base m'
      go (mapped {m'} level' before rep' flushed) run = (
        true,
        m',
        run,
        reached level'
            (subst (λ p. Represents offset m' level' (remap (base + offset) (some p) space)) whole
              rep')
            (remap-Window space (base + offset) base (omega (arith, aligned, aligned_offset)) whole
              rep'),
      )
      go (unmapped {m'} level' rep' none_free) run = (false, m', run, no_page level' rep' none_free)

-- What `enable_apic` leaves: the window, the page with the enable bit in the base register and the
-- other registers as before, and one word written to the local APIC, which switches it on with the
-- spurious vector 255.
pub record Enabled (offset : ℕ) (space : AddressSpace) (s s' : LocalApic) : Type 0 where
  pub window : WindowMapped offset space (apic_page s) s'.machine
  pub virt : s'.g_virt_apic ≡ apic_page s + offset
  pub base : s'.msr ia32_apic_base_msr ≡ (apic_page s + 0x800, 0)
  pub others : (i : ℕ) → i ≢ ia32_apic_base_msr → s'.msr i ≡ s.msr i
  pub switch : s'.written ≡ (apic_page s + offset + 0xF0, 0x1FF) ∷ s.written

-- What `disable_apic` leaves: the window, the registers as before, and one word written to the
-- local APIC, the one it answers with bit 8 cleared.
pub record Disabled (offset : ℕ) (space : AddressSpace) (device : Device) (s s' : LocalApic)
    : Type 0 where
  pub window : WindowMapped offset space (apic_page s) s'.machine
  pub virt : s'.g_virt_apic ≡ s.g_virt_apic
  pub registers : s'.msr ≡ s.msr
  pub word : ℕ
  pub switch : s'.written ≡ (apic_page s + offset + 0xF0, word) ∷ s.written
  pub off : digit 8 word ≡ 0
  pub kept :
      (j : ℕ)
      → j < 32
      → j ≢ 8
      → digit j word ≡ digit j (device s.written (apic_page s + offset + 0xF0))

-- The base register holds the page and the enable bit.
abbrev based : LocalApic → LocalApic
based s = with_base s (apic_page s + 0x800, 0)

module _ (wide : ℕ → ℕ) (wide_zero : wide 0 ≡ 0) {offset : ℕ} (s : LocalApic) {level : ℕ → ℕ}
    {space : AddressSpace} (rep : Represents offset s.machine level space)
    (none_high : (s.msr ia32_apic_base_msr).1 % 16 ≡ 0) (aligned_offset : offset % 4096 ≡ 0)
    (fits : apic_page s + 4096 + offset ≤ 2 ^ 64) where
  get_run : cpu_get_apic_base wide s ≡ some ((apic_page s), s)
  get_run =
      get_apic_base-run wide s
      ∙ ap (λ b. some (b, s)) (base_of-low wide wide_zero (s.msr ia32_apic_base_msr) none_high)

  set_run : cpu_set_apic_base (apic_page s) s ≡ some (tt, (based s))
  set_run =
      set_apic_base-run (apic_page s) s
      ∙ ap₂ (λ lo hi. some (tt, with_base s (lo, hi))) (omega arith) (omega arith)

  get_again : cpu_get_apic_base wide (based s) ≡ some ((apic_page s), (based s))
  get_again =
      get_apic_base-run wide (based s)
      ∙ ap (λ b. some (b, (based s)))
          (base_of-low wide wide_zero ((apic_page s) + 0x800, 0) refl ∙ omega arith)

  virt_run : phy_to_virt (apic_page s) s.machine ≡ some ((apic_page s) + offset, s.machine)
  virt_run = phy_to_virt-run rep.tables.mapped (apic_page s) fits

  enable_run :
      {done : Bool} {m' : Machine}
      → map ((apic_page s) + offset) (apic_page s) window_flags s.machine ≡ some (done, m')
      → enable_apic wide s
        ≡ some (
          tt,
          record (based s) {
            machine = m';
            g_virt_apic = (apic_page s) + offset;
            written = (svr ((apic_page s) + offset), 0x1FF) ∷ s.written;
          },
        )
  unfolding enable_apic
  enable_run run = rw (get_run, set_run, get_again, virt_run, run) refl

  svr_at : svr (apic_page s + offset) ≡ apic_page s + offset + 0xF0
  svr_at = omega (arith, fits)

  -- With a shift by 32 that takes 0 to 0, on tables that stand for an address space, with the
  -- registers in a page below 2 ^ 32 that the direct map, at an aligned offset, has room for,
  -- `enable_apic` returns: it maps that page at its address in the direct map, where
  -- `vmm_get_phys` finds each of the registers, unless no page is free for a table, leaves the
  -- page and the enable bit in the base register, changes no other register of that kind, and
  -- writes the one word that switches the local APIC on.
  pub enable_apic-Enabled :
      (s' : LocalApic) × (enable_apic wide s ≡ some (tt, s')) × Enabled offset space s s'
  enable_apic-Enabled =
      let (done, m', run, window) =
        map-WindowMapped (apic_page s) rep (omega arith) (omega arith) aligned_offset in
      (
        record (based s) {
          machine = m';
          g_virt_apic = apic_page s + offset;
          written = (svr (apic_page s + offset), 0x1FF) ∷ s.written;
        },
        enable_run run,
        record {
          window = window;
          virt = refl;
          base = refl;
          others = λ i other. rw (ne→not-== i ia32_apic_base_msr other) refl;
          switch = ap (λ a. (a, 0x1FF) ∷ s.written) svr_at;
        },
      )

  disable_run :
      {done : Bool} {m' : Machine} (device : Device)
      → map (apic_page s + offset) (apic_page s) window_flags s.machine ≡ some (done, m')
      → disable_apic wide device s
        ≡ some (
          tt,
          record s {
            machine = m';
            written =
                (
                  svr (apic_page s + offset),
                  bit_and (device s.written (svr (apic_page s + offset))) (2 ^ 32 - 1 - 2 ^ 8),
                )
                ∷ s.written;
          },
        )
  unfolding disable_apic read_lapic_register
  disable_run device run = rw (get_run, virt_run, run) refl

  -- Under the same conditions `disable_apic` returns: it maps the page as well, and writes the
  -- word that the local APIC answers back with bit 8 cleared and its 31 other bits as they were.
  pub disable_apic-Disabled :
      (device : Device)
      → (s' : LocalApic) × (disable_apic wide device s ≡ some (tt, s'))
        × Disabled offset space device s s'
  disable_apic-Disabled device =
      let (done, m', run, window) =
        map-WindowMapped (apic_page s) rep (omega arith) (omega arith) aligned_offset in
      let old : ℕ = device s.written (svr (apic_page s + offset)) in
      (
        record s {
          machine = m';
          written = (svr (apic_page s + offset), bit_and old (2 ^ 32 - 1 - 2 ^ 8)) ∷ s.written;
        },
        disable_run device run,
        record {
          window = window;
          virt = refl;
          registers = refl;
          word = bit_and old (2 ^ 32 - 1 - 2 ^ 8);
          switch = ap (λ a. (a, bit_and old (2 ^ 32 - 1 - 2 ^ 8)) ∷ s.written) svr_at;
          off = digit_cleared 32 8 old (omega arith);
          kept = λ j lt other.
              digit_cleared_other 32 j 8 old lt (omega arith) other
              ∙ ap (λ a. digit j (device s.written a)) svr_at;
        },
      )
