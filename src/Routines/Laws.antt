-- ===== src/Routines/Laws.antt =====
-- The theorems about the routines on memory of kernel/src/main.c.
use yoix.Base.{
  ℕ, zero, suc, ◌+◌, ◌%◌, ◌^◌, ◌<◌, ◌≤◌, ◌≡◌, refl, sym, ap, ◌∙◌, ◌⊎◌, inl, inr, arith, le-cases,
  eq-cases, same-cases, lt→ltb, le→not-ltb, eq→==, ne→not-==,
}
use yoix.Routines.Ops.{
  Memory, write_byte, copy_up, copy_down, memcpy, set_up, memset, memmove, Sign, below, equal,
  above, compare_up, memcmp,
}

-- `n` bytes from `src` at `dest`, and nothing else.
pub record Copied (dest src n : ℕ) (m m' : Memory) : Type 0 where
  pub inside : (j : ℕ) → j < n → m' (dest + j) ≡ m (src + j)
  pub outside : (b : ℕ) → (b < dest) ⊎ (dest + n ≤ b) → m' b ≡ m b

-- Upwards: the bytes that are still to be read are not yet written.
copy_up-Copied :
    (left i n dest src : ℕ) (m₀ m : Memory)
    → i + left ≡ n
    → (dest ≤ src) ⊎ (src + n ≤ dest)
    → ((j : ℕ) → j < i → m (dest + j) ≡ m₀ (src + j))
    → ((b : ℕ) → (b < dest) ⊎ (dest + i ≤ b) → m b ≡ m₀ b)
    → Copied dest src n m₀ (copy_up left i dest src m)
unfolding copy_up
copy_up-Copied zero i n dest src m₀ m e away done rest = record {
  inside = λ j lt. done j (omega arith);
  outside = λ b o. rest b (ground (arith, o));
}
copy_up-Copied (suc left) i n dest src m₀ m e away done rest =
    copy_up-Copied left (i + 1) n dest src m₀ (write_byte m (dest + i) (m (src + i))) (omega arith)
      away now_done now_rest
  where
    source : m (src + i) ≡ m₀ (src + i)
    source = rest (src + i) (ground (arith, away))

    now_done : (j : ℕ) → j < i + 1 → write_byte m (dest + i) (m (src + i)) (dest + j) ≡ m₀ (src + j)
    now_done j lt = elim (same-cases j i) [
      | inl e ↦ ground (arith, source, ap (λ k. m₀ (src + k)) e)
      | inr d ↦ ground (arith, d, done j (ground (arith, d)))
    ]

    now_rest :
        (b : ℕ) → (b < dest) ⊎ (dest + (i + 1) ≤ b) → write_byte m (dest + i) (m (src + i)) b ≡ m₀ b
    now_rest b o = ground (arith, rest b (ground (arith, o)), o)

copy_down-Copied :
    (i n dest src : ℕ) (m₀ m : Memory)
    → i ≤ n
    → src < dest
    → ((j : ℕ) → i ≤ j → j < n → m (dest + j) ≡ m₀ (src + j))
    → ((b : ℕ) → (b < dest + i) ⊎ (dest + n ≤ b) → m b ≡ m₀ b)
    → Copied dest src n m₀ (copy_down i dest src m)
unfolding copy_down
copy_down-Copied zero n dest src m₀ m le away done rest = record {
  inside = λ j lt. done j (omega arith) lt;
  outside = λ b o. rest b (ground (arith, o));
}
copy_down-Copied (suc i) n dest src m₀ m le away done rest =
    copy_down-Copied i n dest src m₀ (write_byte m (dest + i) (m (src + i))) (omega arith) away
      now_done now_rest
  where
    source : m (src + i) ≡ m₀ (src + i)
    source = rest (src + i) (inl (omega arith))

    now_done :
        (j : ℕ) → i ≤ j → j < n → write_byte m (dest + i) (m (src + i)) (dest + j) ≡ m₀ (src + j)
    now_done j lo lt = elim (same-cases j i) [
      | inl e ↦ ground (arith, source, ap (λ k. m₀ (src + k)) e)
      | inr d ↦ ground (arith, d, done j (ground (arith, d)) lt)
    ]

    now_rest :
        (b : ℕ) → (b < dest + i) ⊎ (dest + n ≤ b) → write_byte m (dest + i) (m (src + i)) b ≡ m₀ b
    now_rest b o = ground (arith, rest b (ground (arith, o)), o)

-- `memcpy` of blocks that do not overlap copies the bytes, leaves all others, and returns `dest`.
pub memcpy-Copied :
    (dest src n : ℕ) (m : Memory)
    → (dest + n ≤ src) ⊎ (src + n ≤ dest)
    → ((memcpy dest src n m).0 ≡ dest) × Copied dest src n m (memcpy dest src n m).1
unfolding memcpy
memcpy-Copied dest src n m apart = (
  refl,
  copy_up-Copied n 0 n dest src m m (omega arith) (ground (arith, apart))
      (λ j lt. absurd (omega arith)) (λ b o. refl),
)

-- `memmove` copies the bytes as they were before the call, however the blocks overlap, and leaves all
-- others. It returns `dest`.
pub memmove-Copied :
    (dest src n : ℕ) (m : Memory)
    → ((memmove dest src n m).0 ≡ dest) × Copied dest src n m (memmove dest src n m).1
unfolding memmove
memmove-Copied dest src n m = elim (le-cases src dest) [
  | inr up ↦ (
    refl,
    rw (lt→ltb dest src up) (
        copy_up-Copied n 0 n dest src m m (omega arith) (inl (omega arith))
          (λ j lt. absurd (omega arith)) (λ b o. refl)),
  )
  | inl le ↦ elim (eq-cases src dest) [
    | inl e ↦ (
      refl,
      rw (le→not-ltb dest src le, le→not-ltb src dest (omega (arith, e)))
          (record { inside = λ j lt. ap (λ a. m (a + j)) (sym e); outside = λ b o. refl }),
    )
    | inr d ↦ (
      refl,
      rw (le→not-ltb dest src le, lt→ltb src dest (ground (arith, d)))
          (copy_down-Copied n n dest src m m (omega arith) (ground (arith, d))
            (λ j lo lt. absurd (omega arith)) (λ b o. refl)),
    )
  ]
]

set_up-Filled :
    (left i n s c : ℕ) (m₀ m : Memory)
    → i + left ≡ n
    → ((j : ℕ) → j < i → m (s + j) ≡ c % 2 ^ 8)
    → ((b : ℕ) → (b < s) ⊎ (s + i ≤ b) → m b ≡ m₀ b)
    → ((j : ℕ) → j < n → set_up left i s c m (s + j) ≡ c % 2 ^ 8)
      × ((b : ℕ) → (b < s) ⊎ (s + n ≤ b) → set_up left i s c m b ≡ m₀ b)
unfolding set_up
set_up-Filled zero i n s c m₀ m e done rest =
    (λ j lt. done j (omega arith), λ b o. rest b (ground (arith, o)))
set_up-Filled (suc left) i n s c m₀ m e done rest =
    set_up-Filled left (i + 1) n s c m₀ (write_byte m (s + i) (c % 2 ^ 8)) (omega arith)
      (λ j lt. ground (arith, done j)) (λ b o. ground (arith, rest b (ground (arith, o)), o))

-- `memset` writes the low byte of `c` to `n` bytes, leaves all others, and returns `s`.
pub memset-Filled :
    (s c n : ℕ) (m : Memory)
    → ((memset s c n m).0 ≡ s)
      × ((j : ℕ) → j < n → (memset s c n m).1 (s + j) ≡ c % 2 ^ 8)
      × ((b : ℕ) → (b < s) ⊎ (s + n ≤ b) → (memset s c n m).1 b ≡ m b)
unfolding memset
memset-Filled s c n m =
    let (inside, outside) =
      set_up-Filled n 0 n s c m m (omega arith) (λ j lt. absurd (omega arith)) (λ b o. refl) in
    (refl, inside, outside)

-- What `memcmp` says of two blocks: the same bytes, or the first that differ and their order.
pub data Compared (s1 s2 n : ℕ) (m : Memory) : Sign → Type 0 where
  same : ((j : ℕ) → j < n → m (s1 + j) ≡ m (s2 + j)) → Compared s1 s2 n m equal
  less :
      (i : ℕ)
      → i < n
      → ((j : ℕ) → j < i → m (s1 + j) ≡ m (s2 + j))
      → m (s1 + i) < m (s2 + i)
      → Compared s1 s2 n m below
  more :
      (i : ℕ)
      → i < n
      → ((j : ℕ) → j < i → m (s1 + j) ≡ m (s2 + j))
      → m (s2 + i) < m (s1 + i)
      → Compared s1 s2 n m above

compare_up-Compared :
    (left i s1 s2 n : ℕ) (m : Memory)
    → i + left ≡ n
    → ((j : ℕ) → j < i → m (s1 + j) ≡ m (s2 + j))
    → Compared s1 s2 n m (compare_up left i s1 s2 m)
unfolding compare_up
compare_up-Compared zero i s1 s2 n m e so_far = same λ j lt. so_far j (omega arith)
compare_up-Compared (suc left) i s1 s2 n m e so_far = elim (eq-cases (m (s1 + i)) (m (s2 + i))) [
  | inl here ↦ rw (eq→== (m (s1 + i)) (m (s2 + i)) here) (
      compare_up-Compared left (i + 1) s1 s2 n m (omega arith) (λ j lt. elim (same-cases j i) [
        | inl k ↦ ap (λ a. m (s1 + a)) k ∙ here ∙ ap (λ a. m (s2 + a)) (sym k)
        | inr d ↦ so_far j (ground (arith, d))
      ]))
  | inr (inl lt) ↦
      rw
        (
          ne→not-== (m (s1 + i)) (m (s2 + i)) (λ k. omega (arith, k)),
          lt→ltb (m (s1 + i)) (m (s2 + i)) lt,
        )
        (less i (omega arith) so_far lt)
  | inr (inr gt) ↦
      rw
        (
          ne→not-== (m (s1 + i)) (m (s2 + i)) (λ k. omega (arith, k)),
          le→not-ltb (m (s1 + i)) (m (s2 + i)) (omega arith),
        )
        (more i (omega arith) so_far gt)
]

-- `memcmp` returns 0 exactly for equal blocks, and otherwise the order of the first bytes that differ.
pub memcmp-Compared : (s1 s2 n : ℕ) (m : Memory) → Compared s1 s2 n m (memcmp s1 s2 n m)
unfolding memcmp
memcmp-Compared s1 s2 n m =
    compare_up-Compared n 0 s1 s2 n m (omega arith) (λ j lt. absurd (omega arith))
