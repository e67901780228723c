-- ===== src/Acpi/Laws.antt =====
-- The theorems about kernel/src/drivers/ACPI/acpi.c.
use yoix.Base.{
  ℕ, zero, suc, ◌+◌, ◌-◌, ◌%◌, ◌^◌, ◌≤◌, ◌<◌, ◌≡◌, ◌≢◌, refl, sym, ap, ◌∙◌, ◌↔◌, ◌⊎◌, inl, inr,
  true, false, Option, none, some, arith, ◌==◌, Bool-cases, ==→eq, eq→==, same-cases,
}
use yoix.Paging.Machine.{to_virt}
use yoix.Acpi.Ops.{
  Bytes, difference, strncmp, is_zero, sum_bytes, do_checksum, table_length, search_entries,
}

-- The sum of `n` bytes from `a` on, without wrap-around.
abbrev pub total : ℕ → ℕ → Bytes → ℕ
total zero a m = 0
total (suc n) a m = m a + total n (a + 1) m

sum_bytes-total :
    (n a sum : ℕ) (m : Bytes) → sum < 2 ^ 8 → sum_bytes n a sum m ≡ (sum + total n a m) % 2 ^ 8
unfolding sum_bytes
sum_bytes-total zero a sum m h = omega arith
sum_bytes-total (suc n) a sum m h =
    sum_bytes-total n (a + 1) ((sum + m a) % 2 ^ 8) m (omega arith) ∙ omega arith

-- `doChecksum` accepts a table exactly when the sum of all its bytes, as many as its header says, is
-- a multiple of 256.
pub do_checksum-total :
    (header : ℕ) (m : Bytes)
    → (do_checksum header m ≡ true) ↔ (total (table_length m header) header m % 2 ^ 8 ≡ 0)
unfolding do_checksum
do_checksum-total header m =
    let sum = sum_bytes-total (table_length m header) header 0 m (omega arith) in
    (λ e. omega (arith, sum, ==→eq _ _ e), λ e. eq→== _ _ (omega (arith, sum, e)))

-- Two strings agree up to `n` bytes, or up to the end of the first.
abbrev pub Agree : ℕ → ℕ → ℕ → Bytes → Type 0
Agree s1 s2 n m = (j : ℕ) → j < n → ((i : ℕ) → i < j → m (s1 + i) ≢ 0) → m (s1 + j) ≡ m (s2 + j)

difference-zero : (a b : ℕ) → (is_zero (difference a b) ≡ true) ↔ (a ≡ b)
unfolding difference
difference-zero a b = ground arith

module _ (s1 s2 n : ℕ) (m : Bytes) where
  first : Agree s1 s2 (suc n) m → m s1 ≡ m s2
  first agree =
      ap m (omega arith) ∙ agree 0 (omega arith) (λ i lt. absurd (omega arith)) ∙ ap m (omega arith)

  shift-Agree : m s1 ≢ 0 → Agree s1 s2 (suc n) m → Agree (s1 + 1) (s2 + 1) n m
  shift-Agree live agree j lt before =
      ap m (omega arith)
      ∙ agree (j + 1) (omega arith) (λ i lo e. elim (same-cases i 0) [
        | inl z ↦ live (ap m (omega (arith, z)) ∙ e)
        | inr d ↦ before (i - 1) (ground (arith, d)) (ap m (ground (arith, d)) ∙ e)
      ])
      ∙ ap m (omega arith)

  Agree-cons : m s1 ≡ m s2 → Agree (s1 + 1) (s2 + 1) n m → Agree s1 s2 (suc n) m
  Agree-cons same agree j lt before = elim (same-cases j 0) [
    | inl z ↦ ap m (omega (arith, z)) ∙ same ∙ ap m (omega (arith, z))
    | inr d ↦
        ap m (ground (arith, d))
        ∙ agree (j - 1) (ground (arith, d))
            (λ i lo e. before (i + 1) (ground (arith, d)) (ap m (omega arith) ∙ e))
        ∙ ap m (ground (arith, d))
  ]

  ended-Agree : m s1 ≡ 0 → m s1 ≡ m s2 → Agree s1 s2 (suc n) m
  ended-Agree ended same j lt before = elim (same-cases j 0) [
    | inl z ↦ ap m (omega (arith, z)) ∙ same ∙ ap m (omega (arith, z))
    | inr d ↦ absurd (before 0 (ground (arith, d)) (ap m (omega arith) ∙ ended))
  ]

  go_on : m s1 ≢ 0 → m s1 ≡ m s2 → strncmp s1 s2 (suc n) m ≡ strncmp (s1 + 1) (s2 + 1) n m
  unfolding strncmp
  go_on live same = ground (arith, live, same)

  stop : (m s1 ≡ 0) ⊎ (m s1 ≢ m s2) → strncmp s1 s2 (suc n) m ≡ difference (m s1) (m s2)
  unfolding strncmp
  stop why = ground (arith, why)

-- `strncmp` returns 0 exactly for strings that agree in their first `n` bytes up to the end of the first
-- string.
pub strncmp-Agree :
    (s1 s2 n : ℕ) (m : Bytes) → (is_zero (strncmp s1 s2 n m) ≡ true) ↔ Agree s1 s2 n m
strncmp-Agree s1 s2 zero m = (λ e j lt live. absurd (omega arith), λ agree. unfold strncmp in refl)
strncmp-Agree s1 s2 (suc n) m = elim (same-cases (m s1) (m s2)) [
  | inr d ↦ (
    λ e.
        absurd
          (d ((difference-zero (m s1) (m s2)).0 (ap is_zero (sym (stop s1 s2 n m (inr d))) ∙ e))),
    λ agree. absurd (d (first s1 s2 n m agree)),
  )
  | inl same ↦ elim (same-cases (m s1) 0) [
    | inl ended ↦ (
      λ e. ended-Agree s1 s2 n m ended same,
      λ agree. ap is_zero (stop s1 s2 n m (inl ended)) ∙ (difference-zero (m s1) (m s2)).1 same,
    )
    | inr live ↦
        let (to, from) = strncmp-Agree (s1 + 1) (s2 + 1) n m in
        (
          λ e. Agree-cons s1 s2 n m same (to (ap is_zero (sym (go_on s1 s2 n m live same)) ∙ e)),
          λ agree. ap is_zero (go_on s1 s2 n m live same) ∙ from (shift-Agree s1 s2 n m live agree),
        )
  ]
]

-- What the search for a signature finds among the entries from `i` on.
pub data Search (hhdm : Option ℕ) (entry : ℕ → ℕ) (sign n i : ℕ) (m : Bytes)
    : Option ℕ → Type 0 where
  absent :
      ((j : ℕ) → i ≤ j → j < n → is_zero (strncmp (to_virt hhdm (entry j)) sign 4 m) ≡ false)
      → Search hhdm entry sign n i m (some 0)
  present :
      (k : ℕ)
      → i ≤ k
      → k < n
      → to_virt hhdm (entry k) ≢ 0
      → is_zero (strncmp (to_virt hhdm (entry k)) sign 4 m) ≡ true
      → ((j : ℕ) → i ≤ j → j < k → is_zero (strncmp (to_virt hhdm (entry j)) sign 4 m) ≡ false)
      → Search hhdm entry sign n i m (some (to_virt hhdm (entry k)))
  null_entry :
      (k : ℕ) → i ≤ k → k < n → to_virt hhdm (entry k) ≡ 0 → Search hhdm entry sign n i m none

module _ (hhdm : Option ℕ) (entry : ℕ → ℕ) (sign n : ℕ) (m : Bytes) where
  further :
      {i : ℕ} {r : Option ℕ}
      → is_zero (strncmp (to_virt hhdm (entry i)) sign 4 m) ≡ false
      → Search hhdm entry sign n (i + 1) m r
      → Search hhdm entry sign n i m r
  further {i} miss (absent none_later) = absent λ j lo hi. elim (same-cases j i) [
    | inl e ↦ ap (λ k. is_zero (strncmp (to_virt hhdm (entry k)) sign 4 m)) e ∙ miss
    | inr d ↦ none_later j (ground (arith, d)) hi
  ]
  further {i} miss (present k lo hi real hit before) =
      present k (omega arith) hi real hit λ j lo' hi'. elim (same-cases j i) [
        | inl e ↦ ap (λ k. is_zero (strncmp (to_virt hhdm (entry k)) sign 4 m)) e ∙ miss
        | inr d ↦ before j (ground (arith, d)) hi'
      ]
  further miss (null_entry k lo hi e) = null_entry k (omega arith) hi e

  -- The search of `findTable` returns the first entry whose table has the signature, NULL when none
  -- has, and faults only on an entry that stands for a NULL pointer.
  pub search_entries-Search :
      (left i : ℕ)
      → i + left ≡ n
      → Search hhdm entry sign n i m (search_entries hhdm entry sign left i m)
  unfolding search_entries
  search_entries-Search zero i e = absent λ j lo hi. absurd (omega arith)
  search_entries-Search (suc left) i e = elim (Bool-cases (to_virt hhdm (entry i) == 0)) [
    | inl null ↦ rw null (null_entry i (omega arith) (omega arith) (==→eq _ _ null))
    | inr real ↦ elim (Bool-cases (is_zero (strncmp (to_virt hhdm (entry i)) sign 4 m))) [
      | inl hit ↦
          rw (real, hit)
            (present i (omega arith) (omega arith) (ground (arith, real)) hit
              (λ j lo hi. absurd (omega arith)))
      | inr miss ↦ rw (real, miss) (further miss (search_entries-Search left (i + 1) (omega arith)))
    ]
  ]
