-- ===== src/Routines/Ops.antt =====
-- The routines on memory of kernel/src/main.c. The memory is a function from the address of a byte.
-- The caller's blocks lie inside the address space, so that no address wraps.
use yoix.Base.{ℕ, zero, suc, ◌+◌, ◌%◌, ◌^◌, if◌then◌else◌, ltb, ◌==◌}

abbrev pub Memory : Type 0
Memory = ℕ → ℕ

abbrev pub write_byte : Memory → ℕ → ℕ → Memory
write_byte m a v b = if b == a then v else m b

-- `for (i = 0; i < n; i++) pdest[i] = psrc[i]`, with the rounds left.
unfoldable pub copy_up : ℕ → ℕ → ℕ → ℕ → Memory → Memory
copy_up zero i dest src m = m
copy_up (suc left) i dest src m =
    copy_up left (i + 1) dest src (write_byte m (dest + i) (m (src + i)))

-- `for (i = n; i > 0; i--) pdest[i-1] = psrc[i-1]`.
unfoldable pub copy_down : ℕ → ℕ → ℕ → Memory → Memory
copy_down zero dest src m = m
copy_down (suc i) dest src m = copy_down i dest src (write_byte m (dest + i) (m (src + i)))

unfoldable pub memcpy : ℕ → ℕ → ℕ → Memory → ℕ × Memory
memcpy dest src n m = (dest, copy_up n 0 dest src m)

unfoldable pub set_up : ℕ → ℕ → ℕ → ℕ → Memory → Memory
set_up zero i s c m = m
set_up (suc left) i s c m = set_up left (i + 1) s c (write_byte m (s + i) (c % 2 ^ 8))

unfoldable pub memset : ℕ → ℕ → ℕ → Memory → ℕ × Memory
memset s c n m = (s, set_up n 0 s c m)

unfoldable pub memmove : ℕ → ℕ → ℕ → Memory → ℕ × Memory
memmove dest src n m = (
  dest,
  if ltb dest src
      then copy_up n 0 dest src m
      else if ltb src dest
      then copy_down n dest src m
      else m,
)

-- The sign that `memcmp` returns: -1, 0 or 1.
pub data Sign : Type 0 where
  below equal above : Sign

unfoldable pub compare_up : ℕ → ℕ → ℕ → ℕ → Memory → Sign
compare_up zero i s1 s2 m = equal
compare_up (suc left) i s1 s2 m =
    let rest = compare_up left (i + 1) s1 s2 m in
    if m (s1 + i) == m (s2 + i)
    then rest
    else if ltb (m (s1 + i)) (m (s2 + i))
    then below
    else above

unfoldable pub memcmp : ℕ → ℕ → ℕ → Memory → Sign
memcmp s1 s2 n m = compare_up n 0 s1 s2 m
