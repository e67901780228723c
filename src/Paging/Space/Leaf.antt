-- ===== src/Paging/Space/Leaf.antt =====
-- Writing an entry of a table of the last level changes the address space at one page.
use yoix.Base.{
  ℕ, ◌/◌, ◌%◌, ◌^◌, ◌<◌, ◌≡◌, refl, sym, ap, ap₂, ◌∙◌, ◌⊎◌, inl, inr, Option, none, some, List, [],
  ◌∷◌, arith, ◌==◌, if◌then◌else◌, same-cases, Bool-cases, ==→eq, true, false,
}
use yoix.Paging.Machine.{Machine, pml4_index, pdpt_index, pd_index, pt_index}
use yoix.Paging.Entries.{page, bit_and-index}
use yoix.Paging.Tables.{word, Tables}
use yoix.Paging.Laws.Walk.{Route, index_lt, Route-levels}
use yoix.Paging.Laws.Leaf.{
  stored, stored-here, stored-kept, stored-above, stored-Tables, stored-Route,
}
use yoix.Paging.Space.{follow, translate, indices, same_page, length, AllIndex, IsTree}
use yoix.Paging.Space.Growth.{mod-two, follow-present, follow-absent}
use yoix.Paging.Space.Lookup.{translate-Route}

-- The indices lead from `r` to the entry `i` of the table at `p`.
abbrev Ends : ℕ → Machine → ℕ → ℕ → ℕ → List ℕ → Type 0
Ends offset m p i r [] = ⊥
Ends offset m p i r (j ∷ []) = (r ≡ p) × (j ≡ i)
Ends offset m p i r (j ∷ n ∷ is) =
    (word offset m r j % 2 ≡ 1) × Ends offset m p i (page (word offset m r j)) (n ∷ is)

-- What an entry of the last level maps to.
abbrev pub leaf : ℕ → Option ℕ
leaf w = if w % 2 == 1 then some (page w) else none

module _ {offset : ℕ} {m : Machine} {level : ℕ → ℕ} (tables : Tables offset m level) (p1 i w v : ℕ)
    (last : level p1 ≡ 1) (lt : i < 512) where
  abbrev m' : Machine
  m' = stored offset m p1 i w v

  -- Other indices lead where they led.
  follow-stored :
      (r : ℕ) (is : List ℕ)
      → level r ≡ length is
      → AllIndex is
      → (follow offset m' r is ≡ follow offset m r is) ⊎ Ends offset m p1 i r is
  follow-stored r [] deep all = inl refl
  follow-stored r (j ∷ []) deep (j_lt, _) = elim (same-cases r p1) [
    | inr other ↦
        inl
          (ap leaf (stored-kept tables p1 i w v last lt r j (omega (arith, deep)) j_lt (inl other)))
    | inl here ↦ elim (same-cases j i) [
      | inr other ↦
          inl (
            ap leaf
              (stored-kept tables p1 i w v last lt r j (omega (arith, deep)) j_lt (inr other)))
      | inl index ↦ inr (here, index)
    ]
  ]
  follow-stored r (j ∷ n ∷ is) deep (j_lt, all) =
      let same = stored-above tables p1 i w v last lt r j (omega (arith, deep)) j_lt in
      elim (mod-two (word offset m r j)) [
        | inr off ↦ inl (
            follow-absent offset m' r j (n ∷ is) (ap (λ (t : ℕ). t % 2) same ∙ off)
            ∙ sym (follow-absent offset m r j (n ∷ is) off))
        | inl on ↦
            let below : level (page (word offset m r j)) ≡ length (n ∷ is) =
              omega (arith, tables.next r j (omega (arith, deep)) j_lt on, deep) in
            elim (follow-stored (page (word offset m r j)) (n ∷ is) below all) [
              | inr ends ↦ inr (on, ends)
              | inl rest ↦ inl (
                  follow-present offset m' r j (n ∷ is) (ap (λ (t : ℕ). t % 2) same ∙ on)
                  ∙ ap (λ (t : ℕ). follow offset m' (page t) (n ∷ is)) same
                  ∙ rest
                  ∙ sym (follow-present offset m r j (n ∷ is) on))
            ]
      ]

  pub IsTree-stored : IsTree offset m level → IsTree offset m' level
  IsTree-stored tree r j s n two j_lt on two' n_lt on' e =
      let same = stored-above tables p1 i w v last lt r j two j_lt in
      let same' = stored-above tables p1 i w v last lt s n two' n_lt in
      tree r j s n two j_lt (ap (λ (t : ℕ). t % 2) (sym same) ∙ on) two' n_lt
        (ap (λ (t : ℕ). t % 2) (sym same') ∙ on') (ap page (sym same) ∙ e ∙ ap page same')

-- The four indices are those of the page.
same_indices :
    (u v : ℕ)
    → pml4_index u ≡ pml4_index v
    → pdpt_index u ≡ pdpt_index v
    → pd_index u ≡ pd_index v
    → pt_index u ≡ pt_index v
    → same_page u v ≡ true
same_indices u v a b c d = ground (
  arith,
  bit_and-index (u / 2 ^ 39),
  bit_and-index (v / 2 ^ 39),
  bit_and-index (u / 2 ^ 30),
  bit_and-index (v / 2 ^ 30),
  bit_and-index (u / 2 ^ 21),
  bit_and-index (v / 2 ^ 21),
  bit_and-index (u / 2 ^ 12),
  bit_and-index (v / 2 ^ 12),
)

pub same_page-indices : (u v : ℕ) → same_page u v ≡ true → indices u ≡ indices v
same_page-indices u v same =
    ap₂ (λ a b. a ∷ b)
      (bit_and-index (u / 2 ^ 39) ∙ omega (arith, eq) ∙ sym (bit_and-index (v / 2 ^ 39)))
      (ap₂ (λ a b. a ∷ b)
        (bit_and-index (u / 2 ^ 30) ∙ omega (arith, eq) ∙ sym (bit_and-index (v / 2 ^ 30)))
        (ap₂ (λ a b. a ∷ b)
          (bit_and-index (u / 2 ^ 21) ∙ omega (arith, eq) ∙ sym (bit_and-index (v / 2 ^ 21)))
          (ap₂ (λ a b. a ∷ b)
            (bit_and-index (u / 2 ^ 12) ∙ omega (arith, eq) ∙ sym (bit_and-index (v / 2 ^ 12)))
            refl)))
  where
    eq : u / 2 ^ 12 % 2 ^ 36 ≡ v / 2 ^ 12 % 2 ^ 36
    eq = ==→eq (u / 2 ^ 12 % 2 ^ 36) (v / 2 ^ 12 % 2 ^ 36) same

module _ {offset : ℕ} {m : Machine} {level : ℕ → ℕ} (tables : Tables offset m level)
    (tree : IsTree offset m level) {v p3 p2 p1 : ℕ} (path : Route offset m v p3 p2 p1) where
  -- Only the addresses of one page lead to an entry of the last level.
  Ends-same_page :
      (u : ℕ) → Ends offset m p1 (pt_index v) (page m.cr3) (indices u) → same_page u v ≡ true
  Ends-same_page u (on4, (on3, (on2, (here, index)))) =
      let (three, two, one) = Route-levels tables path in
      let q3 : ℕ = page (word offset m (page m.cr3) (pml4_index u)) in
      let q2 : ℕ = page (word offset m q3 (pdpt_index u)) in
      let other : Route offset m u q3 q2 (page (word offset m q2 (pd_index u))) = record {
        pml4 = (on4, refl);
        pdpt = (on3, refl);
        pd = (on2, refl);
      } in
      let (three', two', _) = Route-levels tables other in
      let (same2, pd) =
        tree q2 (pd_index u) p2 (pd_index v) (omega (arith, two')) (index_lt (u / 2 ^ 21)) on2
          (omega (arith, two)) (index_lt (v / 2 ^ 21)) path.pd.0 (here ∙ sym path.pd.1) in
      let (same3, pdpt) =
        tree q3 (pdpt_index u) p3 (pdpt_index v) (omega (arith, three')) (index_lt (u / 2 ^ 30)) on3
          (omega (arith, three)) (index_lt (v / 2 ^ 30)) path.pdpt.0 (same2 ∙ sym path.pdpt.1) in
      let (_, pml4) =
        tree (page m.cr3) (pml4_index u) (page m.cr3) (pml4_index v) (omega (arith, tables.root))
          (index_lt (u / 2 ^ 39)) on4 (omega (arith, tables.root)) (index_lt (v / 2 ^ 39))
          path.pml4.0 (same3 ∙ sym path.pml4.1) in
      same_indices u v pml4 pdpt pd index

  -- The address space after the entry of `v` is written.
  pub translate-stored :
      (w u : ℕ)
      → translate offset (stored offset m p1 (pt_index v) w v) u
        ≡ (if same_page u v then leaf w else translate offset m u)
  translate-stored w u =
      let (_, _, last) = Route-levels tables path in
      let index = index_lt (v / 2 ^ 12) in
      let m' : Machine = stored offset m p1 (pt_index v) w v in
      elim (Bool-cases (same_page u v)) [
        | inl same ↦
            ap (follow offset m' (page m.cr3)) (same_page-indices u v same)
            ∙ translate-Route (stored-Tables tables p1 (pt_index v) w v last index) v
                (stored-Route tables p1 (pt_index v) w v last index v p3 p2 p1 path)
            ∙ ap leaf (stored-here tables p1 (pt_index v) w v last index)
            ∙ sym (ap (λ b. if b then leaf w else translate offset m u) same)
        | inr other ↦
            elim (follow-stored tables p1 (pt_index v) w v last index (page m.cr3) (indices u)
              tables.root
              (
                index_lt (u / 2 ^ 39),
                (index_lt (u / 2 ^ 30), (index_lt (u / 2 ^ 21), (index_lt (u / 2 ^ 12), tt))),
              )) [
                | inl kept ↦ kept ∙ sym (ap (λ b. if b then leaf w else translate offset m u) other)
                | inr ends ↦
                    let both : true ≡ false = sym (Ends-same_page u ends) ∙ other in absurd (cc)
              ]
      ]
