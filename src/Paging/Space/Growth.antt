-- ===== src/Paging/Space/Growth.antt =====
-- A step of `vmm_get_next_level` does not change the address space.
use yoix.Base.{
  ℕ, ◌%◌, ◌≤◌, ◌<◌, ◌≡◌, ◌≢◌, refl, sym, ap, ap₂, ◌∙◌, ◌⊎◌, inl, inr, none, some, List, [], ◌∷◌,
  suc, arith, ◌==◌, if◌then◌else◌, same-cases, eq→==, ne→not-==,
}
use yoix.Paging.Machine.{Machine}
use yoix.Paging.Entries.{page}
use yoix.Paging.Tables.{word, Tables}
use yoix.Paging.Laws.Reached.{Reached}
use yoix.Paging.Space.{follow, length, AllIndex, IsTree}

pub mod-two : (w : ℕ) → (w % 2 ≡ 1) ⊎ (w % 2 ≡ 0)
mod-two w = ground arith

module _ (offset : ℕ) (m : Machine) (p i : ℕ) (is : List ℕ) where
  pub follow-present :
      word offset m p i % 2 ≡ 1
      → follow offset m p (i ∷ is) ≡ follow offset m (page (word offset m p i)) is
  follow-present on = rw (eq→== (word offset m p i % 2) 1 on) refl

  pub follow-absent : word offset m p i % 2 ≡ 0 → follow offset m p (i ∷ is) ≡ none
  follow-absent off = rw (ne→not-== (word offset m p i % 2) 1 (omega (arith, off))) refl

module _ {offset : ℕ} {m m' : Machine} {level level' : ℕ → ℕ} {p i q : ℕ}
    (tables : Tables offset m level) (le : 2 ≤ level p) (i_lt : i < 512)
    (k : Reached offset m level p i q m' level') where
  -- An entry that was absent and now names a new table leads nowhere.
  through_new :
      (r j : ℕ) (is : List ℕ)
      → r ≡ p
      → j ≡ i
      → word offset m r j % 2 ≡ 0
      → AllIndex is
      → 1 ≤ length is
      → follow offset m' r (j ∷ is) ≡ none
  through_new r j [] here index absent all some_left = absurd (omega (arith, some_left))
  through_new r j (n ∷ is) here index absent (lt, all) some_left = elim k.step [
    | inl on ↦ absurd (omega (arith, on, absent, ap₂ (word offset m) here index))
    | inr (_, zeroed) ↦
        let at_new : page (word offset m' r j) ≡ q =
          ap page (ap₂ (word offset m') here index) ∙ k.link.1 in
        let on : word offset m' r j % 2 ≡ 1 =
          ap (λ (w : ℕ). w % 2) (ap₂ (word offset m') here index) ∙ k.link.0 in
        follow-present offset m' r j (n ∷ is) on
        ∙ follow-absent offset m' (page (word offset m' r j)) n is
            (ap (λ t. word offset m' t n % 2) at_new ∙ ap (λ (w : ℕ). w % 2) (zeroed n lt))
  ]

  unchanged :
      (r j n : ℕ) (is : List ℕ)
      → word offset m r j % 2 ≡ 0
      → level r ≡ suc (suc (length is))
      → j < 512
      → AllIndex (n ∷ is)
      → follow offset m' r (j ∷ n ∷ is) ≡ none
  unchanged r j n is off deep lt all = elim (same-cases r p) [
    | inr other ↦ kept (inl other)
    | inl here ↦ elim (same-cases j i) [
      | inr other ↦ kept (inr other)
      | inl index ↦ through_new r j (n ∷ is) here index off all (omega arith)
    ]
  ]
    where
      kept : (r ≢ p) ⊎ (j ≢ i) → follow offset m' r (j ∷ n ∷ is) ≡ none
      kept d =
          follow-absent offset m' r j (n ∷ is)
            (ap (λ (w : ℕ). w % 2) (k.kept r j (omega (arith, deep)) lt d) ∙ off)

  pub follow-Reached :
      (r : ℕ) (is : List ℕ)
      → level r ≡ length is
      → AllIndex is
      → follow offset m' r is ≡ follow offset m r is
  follow-Reached r [] deep all = refl
  follow-Reached r (j ∷ []) deep (lt, _) =
      ap (λ (w : ℕ). if w % 2 == 1 then some (page w) else none)
        (k.kept r j (omega (arith, deep)) lt
          (inl (λ e. absurd (omega (arith, deep, le, ap level e)))))
  follow-Reached r (j ∷ n ∷ is) deep (lt, all) = elim (mod-two (word offset m r j)) [
    | inl on ↦
        let same = k.marked r j (omega (arith, deep)) lt on in
        let below : level (page (word offset m r j)) ≡ length (n ∷ is) =
          omega (arith, tables.next r j (omega (arith, deep)) lt on, deep) in
        follow-present offset m' r j (n ∷ is) (ap (λ (w : ℕ). w % 2) same ∙ on)
        ∙ ap (λ (w : ℕ). follow offset m' (page w) (n ∷ is)) same
        ∙ follow-Reached (page (word offset m r j)) (n ∷ is) below all
        ∙ sym (follow-present offset m r j (n ∷ is) on)
    | inr off ↦ unchanged r j n is off deep lt all ∙ sym (follow-absent offset m r j (n ∷ is) off)
  ]

  -- The names of new tables are new.
  data Named (r j : ℕ) : Type 0 where
    old :
        0 < level r
        → level' r ≡ level r
        → word offset m r j % 2 ≡ 1
        → word offset m' r j ≡ word offset m r j
        → Named r j
    new : r ≡ p → j ≡ i → level q ≡ 0 → Named r j

  old-Named : (r j : ℕ) → 0 < level r → j < 512 → word offset m' r j % 2 ≡ 1 → Named r j
  old-Named r j pos lt on = elim (mod-two (word offset m r j)) [
    | inl was_on ↦ old pos (k.extends r pos) was_on (k.marked r j pos lt was_on)
    | inr off ↦ elim (same-cases r p) [
      | inr other ↦ absurd (omega (arith, on, off, k.kept r j pos lt (inl other)))
      | inl here ↦ elim (same-cases j i) [
        | inr other ↦ absurd (omega (arith, on, off, k.kept r j pos lt (inr other)))
        | inl index ↦ elim k.step [
          | inr (fresh, _) ↦ new here index fresh
          | inl followed ↦ absurd (omega (arith, off, followed, ap₂ (word offset m) here index))
        ]
      ]
    ]
  ]

  -- A table that an old entry names is old.
  followed-level : word offset m p i % 2 ≡ 1 → 0 < level q
  followed-level followed =
      let names : page (word offset m p i) ≡ q =
        ap page (sym (k.marked p i (omega (arith, le)) i_lt followed)) ∙ k.link.1 in
      omega (arith, tables.next p i le i_lt followed, ap level names, le)

  Named-cases : (r j : ℕ) → 2 ≤ level' r → j < 512 → word offset m' r j % 2 ≡ 1 → Named r j
  Named-cases r j two lt on = elim (k.table r (omega (arith, two))) [
    | inl pos ↦ old-Named r j pos lt on
    | inr fresh ↦ elim k.step [
      | inr (_, zeroed) ↦
          absurd (omega (arith, on, ap (λ t. word offset m' t j) fresh, zeroed j lt))
      | inl followed ↦ old-Named r j (omega (arith, ap level fresh, followed-level followed)) lt on
    ]
  ]

  -- An old entry names an old table.
  old-child :
      (r j : ℕ)
      → 2 ≤ level' r
      → j < 512
      → level' r ≡ level r
      → word offset m r j % 2 ≡ 1
      → word offset m' r j ≡ word offset m r j
      → level q ≡ 0
      → page (word offset m' r j) ≢ q
  old-child r j two lt level_r was_on same fresh e = absurd (
      omega (
        arith,
        two,
        level_r,
        tables.next r j (omega (arith, two, level_r)) lt was_on,
        ap (λ (w : ℕ). level (page w)) same,
        ap level e,
        fresh,
      ))

  pub IsTree-Reached : IsTree offset m level → IsTree offset m' level'
  IsTree-Reached tree r j s n two lt on two' lt' on' e =
      go (Named-cases r j two lt on) (Named-cases s n two' lt' on')
    where
      at_new : (t h : ℕ) → t ≡ p → h ≡ i → page (word offset m' t h) ≡ q
      at_new t h here index = ap page (ap₂ (word offset m') here index) ∙ k.link.1

      go : Named r j → Named s n → (r ≡ s) × (j ≡ n)
      go (old _ level_r was same) (old _ level_s was' same') =
          tree r j s n (omega (arith, two, level_r)) lt was (omega (arith, two', level_s)) lt' was'
            (ap page (sym same) ∙ e ∙ ap page same')
      go (new here index _) (new here' index' _) = (here ∙ sym here', index ∙ sym index')
      go (old _ level_r was same) (new here index fresh) =
          absurd (old-child r j two lt level_r was same fresh (e ∙ at_new s n here index))
      go (new here index fresh) (old _ level_s was same) =
          absurd (old-child s n two' lt' level_s was same fresh (sym e ∙ at_new r j here index))
