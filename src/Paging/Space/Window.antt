-- ===== src/Paging/Space/Window.antt =====
-- The addresses of one page as `vmm_get_phys` looks them up.
use yoix.Base.{ℕ, ◌+◌, ◌/◌, ◌%◌, ◌^◌, ◌<◌, ◌≡◌, refl, ap, ◌∙◌, some, arith, eq→==}
use yoix.Paging.Machine.{Machine}
use yoix.Paging.Ops.{get_phys}
use yoix.Paging.Entries.{page}
use yoix.Paging.Space.Lookup.{answer}
use yoix.Paging.Space.Refines.{AddressSpace, Represents, remap, get_phys-Refines}

-- Every address of the page at `v` is looked up in the page at `phys`.
abbrev pub Window : ℕ → ℕ → Machine → Type 0
Window v phys m = (r : ℕ) → r < 4096 → get_phys (v + r) m ≡ some (phys + r, m)

-- A page that an aligned address is mapped to.
pub remap-Window :
    {offset : ℕ} {m : Machine} {level : ℕ → ℕ} (space : AddressSpace) (v phys : ℕ)
    → v % 4096 ≡ 0
    → page phys ≡ phys
    → Represents offset m level (remap v (some (page phys)) space)
    → Window v phys m
remap-Window {m = m} space v phys aligned whole rep r lt =
    get_phys-Refines (v + r) rep
    ∙ ap (λ t. some (answer t (v + r), m)) here
    ∙ ap (λ a. some (a, m)) (omega (arith, whole, aligned, lt))
  where
    here : remap v (some (page phys)) space (v + r) ≡ some (page phys)
    here =
        rw (eq→== ((v + r) / 2 ^ 12 % 2 ^ 36) (v / 2 ^ 12 % 2 ^ 36) (omega (arith, aligned, lt)))
          refl
