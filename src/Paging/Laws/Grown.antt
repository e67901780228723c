-- ===== src/Paging/Laws/Grown.antt =====
-- The tables after `vmm_get_next_level` has added one.
use yoix.Base.{
  ℕ, ◌+◌, ◌*◌, ◌-◌, ◌/◌, ◌%◌, ◌^◌, ◌≤◌, ◌<◌, ◌≡◌, ◌≢◌, refl, sym, ap, ap₂, ◌∙◌, ◌⊎◌, inl, inr,
  arith, ◌==◌, eq-cases, same-cases, le-cases, ne→not-==, if◌then◌else◌,
}
use yoix.Buddy.State.{Buddy, page_size, max_pages}
use yoix.Buddy.Valid.{status, free}
use yoix.Buddy.Laws.Allocate.{Allocated}
use yoix.Paging.Machine.{Machine, write_word}
use yoix.Paging.Entries.{page}
use yoix.Paging.Tables.{word, Tables}
use yoix.Paging.Laws.Fresh.{wiped, wiped-outside, wiped-inside}
use yoix.Paging.Laws.Reached.{Reached}

module _ {offset : ℕ} {m : Machine} {level : ℕ → ℕ} (tables : Tables offset m level) (p i : ℕ)
    (le : 2 ≤ level p) (lt : i < 512) where
  -- A new table, in a page that was free.
  module _ (absent : word offset m p i % 2 ≡ 0) {x : ℕ} {s' : Buddy}
      (a : Allocated m.frames 0 x s') where
    x_lt : x < max_pages
    x_lt = omega (arith, a.fits)

    abbrev pub grown : Machine
    grown = record m {
      frames = s';
      words =
          write_word (wiped 512 0 (x * page_size + offset) m.words) (p + offset + 8 * i)
            (x * page_size + 3);
    }

    abbrev pub grown_level : ℕ → ℕ
    grown_level r = if r == x * page_size then level p - 1 else level r

    fresh : level (x * page_size) ≡ 0
    fresh = elim (eq-cases (level (x * page_size)) 0) [
      | inl e ↦ e
      | inr d ↦
          let same : x * page_size / 4096 ≡ x = omega arith in
          absurd (
            tables.used (x * page_size) (omega (arith, d)) (omega (arith, same, x_lt)) (
              ap (λ n. status (m.frames.page_state n)) same
              ∙ a.was_free x (omega arith) (omega arith)))
    ]

    level-new : grown_level (x * page_size) ≡ level p - 1
    level-new = ground arith

    level-old : (r : ℕ) → 0 < level r → grown_level r ≡ level r
    level-old r pos = ground (arith, fresh)

    -- Every table is an old one or the new one.
    table-cases :
        (r : ℕ)
        → 0 < grown_level r
        → (r ≡ x * page_size) ⊎ ((0 < level r) × (grown_level r ≡ level r))
    table-cases r pos = ground arith

    apart :
        (r j : ℕ)
        → 0 < level r
        → j < 512
        → (r + offset + 8 * j < x * page_size + offset)
          ⊎ (x * page_size + offset + 4096 ≤ r + offset + 8 * j)
    apart r j pos h = elim (eq-cases r (x * page_size)) [
      | inl e ↦ absurd (omega (arith, ap level e, fresh, pos))
      | inr d ↦ elim (le-cases r (x * page_size)) [
        | inl lo ↦ inl (omega (arith, tables.aligned r pos))
        | inr hi ↦ inr (omega (arith, tables.aligned r pos))
      ]
    ]

    room : x * page_size + offset + 4096 ≤ 2 ^ 64
    room = omega (arith, tables.window, x_lt)

    word-here : word offset grown p i ≡ x * page_size + 3
    word-here = ground arith

    word-kept :
        (r j : ℕ)
        → 0 < level r
        → j < 512
        → (r ≢ p) ⊎ (j ≢ i)
        → word offset grown r j ≡ word offset m r j
    word-kept r j pos h d = rw (ne→not-== (r + offset + 8 * j) (p + offset + 8 * i) elsewhere) (
        wiped-outside (x * page_size + offset) room 512 0 m.words (r + offset + 8 * j) (omega arith)
          (apart r j pos h))
      where
        elsewhere : r + offset + 8 * j ≢ p + offset + 8 * i
        elsewhere e =
            let same : r ≡ p =
              omega (arith, tables.aligned r pos, tables.aligned p (omega (arith, le))) in
            ground (arith, d, same, e)

    word-new : (j : ℕ) → j < 512 → word offset grown (x * page_size) j ≡ 0
    word-new j h =
        rw (ne→not-== (x * page_size + offset + 8 * j) (p + offset + 8 * i) elsewhere)
          (wiped-inside (x * page_size + offset) room 512 0 m.words j (omega arith) (omega arith) h)
      where
        elsewhere : x * page_size + offset + 8 * j ≢ p + offset + 8 * i
        elsewhere e = ground (arith, apart p i (omega (arith, le)) lt, e)

    grown-used :
        (r : ℕ)
        → 0 < grown_level r
        → r / 4096 < max_pages
        → status (grown.frames.page_state (r / 4096)) ≢ free
    grown-used r pos h e = elim (table-cases r pos) [
      | inl new ↦
          let same : r / 4096 ≡ x = omega (arith, new) in
          let used : s'.page_state (r / 4096) ≡ 0xfe =
            ap s'.page_state same ∙ a.now_used x (omega arith) (omega arith) in
          ground (arith, used, e)
      | inr (old, _) ↦ elim (same-cases r (x * page_size)) [
        | inl same ↦ absurd (omega (arith, ap level same, fresh, old))
        | inr other ↦
            absurd (tables.used r old h (sym (a.others (r / 4096) (outside r old other)) ∙ e))
      ]
    ]
      where
        outside : (r : ℕ) → 0 < level r → r ≢ x * page_size → (r / 4096 < x) ⊎ (x + 1 ≤ r / 4096)
        outside r old other = elim (le-cases (x + 1) (r / 4096)) [
          | inl up ↦ inr up
          | inr low ↦ inl (ground (arith, tables.aligned r old, other, low))
        ]

    grown-next :
        (r j : ℕ)
        → 2 ≤ grown_level r
        → j < 512
        → word offset grown r j % 2 ≡ 1
        → grown_level (page (word offset grown r j)) + 1 ≡ grown_level r
    grown-next r j two h on = elim (table-cases r (omega (arith, two))) [
      | inl new ↦
          let zeroed : word offset grown r j ≡ 0 =
            ap (λ t. word offset grown t j) new ∙ word-new j h in
          absurd (omega (arith, zeroed, on))
      | inr (old, level_r) ↦ elim (same-cases r p) [
        | inr other ↦ kept r j old level_r two h on (inl other)
        | inl here ↦ elim (same-cases j i) [
          | inr other ↦ kept r j old level_r two h on (inr other)
          | inl index ↦
              let at_new : page (word offset grown r j) ≡ x * page_size =
                ap page (ap₂ (word offset grown) here index ∙ word-here) ∙ omega (arith, x_lt) in
              omega (arith, ap grown_level at_new, level-new, level_r, ap level here, le)
        ]
      ]
    ]
      where
        kept :
            (r j : ℕ)
            → 0 < level r
            → grown_level r ≡ level r
            → 2 ≤ grown_level r
            → j < 512
            → word offset grown r j % 2 ≡ 1
            → (r ≢ p) ⊎ (j ≢ i)
            → grown_level (page (word offset grown r j)) + 1 ≡ grown_level r
        kept r j old level_r two h on d =
            let same : word offset grown r j ≡ word offset m r j = word-kept r j old h d in
            let below : level (page (word offset m r j)) + 1 ≡ level r =
              tables.next r j (omega (arith, two, level_r)) h
                (ap (λ (w : ℕ). w % 2) (sym same) ∙ on) in
            omega (
              arith,
              below,
              level_r,
              two,
              ap (λ w. grown_level (page w)) same,
              level-old (page (word offset m r j)) (omega (arith, below, two, level_r)),
            )

    grown-Tables : Tables offset grown grown_level
    grown-Tables = record {
      mapped = tables.mapped;
      some_offset = tables.some_offset;
      window = tables.window;
      valid = a.valid;
      root = level-old (page m.cr3) (omega (arith, tables.root)) ∙ tables.root;
      bounded = λ r pos. elim (table-cases r pos) [
        | inl new ↦ omega (arith, new, room)
        | inr (old, _) ↦ tables.bounded r old
      ];
      aligned = λ r pos. elim (table-cases r pos) [
        | inl new ↦ omega (arith, new)
        | inr (old, _) ↦ tables.aligned r old
      ];
      used = grown-used;
      next = grown-next;
    }

    pub grown-Reached : Reached offset m level p i (x * page_size) grown grown_level
    grown-Reached = record {
      tables = grown-Tables;
      cr3 = refl;
      link = (omega (arith, word-here), ap page word-here ∙ omega (arith, x_lt));
      extends = level-old;
      kept = word-kept;
      marked = λ r j pos h on. elim (same-cases r p) [
        | inr other ↦ word-kept r j pos h (inl other)
        | inl here ↦ elim (same-cases j i) [
          | inr other ↦ word-kept r j pos h (inr other)
          | inl index ↦ absurd (omega (arith, ap₂ (word offset m) here index, absent, on))
        ]
      ];
      table = λ r pos. elim (table-cases r pos) [ inl new ↦ inr new | inr (old, _) ↦ inl old ];
      step = inr (fresh, word-new);
    }
