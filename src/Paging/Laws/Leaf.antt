-- ===== src/Paging/Laws/Leaf.antt =====
-- Writing an entry of a table of the last level.
use yoix.Base.{
  ℕ, ◌+◌, ◌*◌, ◌/◌, ◌%◌, ◌^◌, ◌≤◌, ◌<◌, ◌≡◌, ◌≢◌, refl, sym, ap, ◌∙◌, ◌⊎◌, inl, ◌∷◌, arith,
  ne→not-==,
}
use yoix.Paging.Machine.{Machine, write_word, pml4_index, pdpt_index, pd_index}
use yoix.Paging.Entries.{page}
use yoix.Paging.Tables.{word, Link, Tables}
use yoix.Paging.Laws.Walk.{Route, index_lt, Route-levels}

-- The machine after `p1[i] = w` and `invlpg_tlb(v)`.
abbrev pub stored : ℕ → Machine → ℕ → ℕ → ℕ → ℕ → Machine
stored offset m p1 i w v = record m {
  words = write_word m.words (p1 + offset + 8 * i) w;
  flushed = v ∷ m.flushed;
}

module _ {offset : ℕ} {m : Machine} {level : ℕ → ℕ} (tables : Tables offset m level) (p1 i w v : ℕ)
    (last : level p1 ≡ 1) (lt : i < 512) where
  pub stored-here : word offset (stored offset m p1 i w v) p1 i ≡ w
  stored-here = ground arith

  pub stored-kept :
      (r j : ℕ)
      → 0 < level r
      → j < 512
      → (r ≢ p1) ⊎ (j ≢ i)
      → word offset (stored offset m p1 i w v) r j ≡ word offset m r j
  stored-kept r j pos h d = rw (ne→not-== (r + offset + 8 * j) (p1 + offset + 8 * i) elsewhere) refl
    where
      elsewhere : r + offset + 8 * j ≢ p1 + offset + 8 * i
      elsewhere e =
          let same : r ≡ p1 =
            omega (arith, tables.aligned r pos, tables.aligned p1 (omega (arith, last))) in
          ground (arith, d, same, e)

  -- Tables of the other levels do not change.
  pub stored-above :
      (r j : ℕ)
      → 2 ≤ level r
      → j < 512
      → word offset (stored offset m p1 i w v) r j ≡ word offset m r j
  stored-above r j two h =
      stored-kept r j (omega (arith, two)) h
        (inl (λ e. absurd (omega (arith, two, last, ap level e))))

  pub stored-Tables : Tables offset (stored offset m p1 i w v) level
  stored-Tables = record {
    mapped = tables.mapped;
    some_offset = tables.some_offset;
    window = tables.window;
    valid = tables.valid;
    root = tables.root;
    bounded = tables.bounded;
    aligned = tables.aligned;
    used = tables.used;
    next = λ r j two h on.
        let same = stored-above r j two h in
        ap (λ n. level (page n) + 1) same
        ∙ tables.next r j two h (ap (λ (n : ℕ). n % 2) (sym same) ∙ on);
  }

  stored-Link :
      (r j n : ℕ)
      → 2 ≤ level r
      → j < 512
      → Link offset m r j n
      → Link offset (stored offset m p1 i w v) r j n
  stored-Link r j n two h (on, names) =
      let same = stored-above r j two h in (ap (λ (n : ℕ). n % 2) same ∙ on, ap page same ∙ names)

  pub stored-Route :
      (u q3 q2 q1 : ℕ)
      → Route offset m u q3 q2 q1
      → Route offset (stored offset m p1 i w v) u q3 q2 q1
  stored-Route u q3 q2 q1 path =
      let (three, two, _) = Route-levels tables path in
      record {
        pml4 =
            stored-Link (page m.cr3) (pml4_index u) q3 (omega (arith, tables.root))
              (index_lt (u / 2 ^ 39)) path.pml4;
        pdpt =
            stored-Link q3 (pdpt_index u) q2 (omega (arith, three)) (index_lt (u / 2 ^ 30))
              path.pdpt;
        pd = stored-Link q2 (pd_index u) q1 (omega (arith, two)) (index_lt (u / 2 ^ 21)) path.pd;
      }
