-- ===== src/Timer/Examples.antt =====
-- `init_pit` at concrete frequencies.
use yoix.Base.{◌≡◌, refl, [], ◌∷◌, none, some}
use yoix.Timer.Ops.{divisor_of, init_pit}

init_pit_runs : init_pit 100 [] ≡ some (tt, (0x40, 0x2E) ∷ (0x40, 0x9B) ∷ (0x43, 0x36) ∷ [])
unfolding init_pit divisor_of
init_pit_runs = refl

-- The frequency 0 divides by zero.
init_pit_faults : init_pit 0 [] ≡ none
unfolding init_pit
init_pit_faults = refl
