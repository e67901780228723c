-- ===== src/Routines/Examples.antt =====
-- The routines on memory at concrete blocks.
use yoix.Base.{◌≡◌, refl}
use yoix.Routines.Ops.{Memory, copy_down, memmove, memcmp, compare_up, below}
use yoix.Routines.Laws.{Copied, memmove-Copied, Compared, memcmp-Compared}

-- Every byte holds its address.
abbrev ramp : Memory
ramp b = b

memmove_overlaps : (memmove 12 10 4 ramp).1 15 ≡ 13
unfolding memmove copy_down
memmove_overlaps = refl

memcmp_runs : memcmp 3 5 4 ramp ≡ below
unfolding memcmp compare_up
memcmp_runs = refl

memmove-Copied_example :
    ((memmove 12 10 4 ramp).0 ≡ 12) × Copied 12 10 4 ramp (memmove 12 10 4 ramp).1
memmove-Copied_example = memmove-Copied 12 10 4 ramp

memcmp-Compared_example : Compared 3 5 4 ramp (memcmp 3 5 4 ramp)
memcmp-Compared_example = memcmp-Compared 3 5 4 ramp
