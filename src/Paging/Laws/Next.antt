-- ===== src/Paging/Laws/Next.antt =====
-- `vmm_get_next_level`.
use yoix.Base.{
  ℕ, ◌+◌, ◌*◌, ◌%◌, ◌^◌, ◌≤◌, ◌<◌, ◌≡◌, refl, sym, subst, ◌⊎◌, inl, inr, true, false, Option, some,
  arith, bit_and, ◌==◌,
}
use yoix.Buddy.State.{Buddy, page_size, invalid_address, max_pages}
use yoix.Buddy.Laws.Allocate.{Allocated}
use yoix.Paging.Machine.{Machine}
use yoix.Paging.Ops.{make_page, get_next_level}
use yoix.Paging.Entries.{page, bit_and-present, bit_and-address, table_entry}
use yoix.Paging.Tables.{word, Tables, phy_to_virt-run, load-run, store-run}
use yoix.Paging.Laws.Fresh.{wiped, MakeResult, none_free, made, make_page-Result}
use yoix.Paging.Laws.Reached.{Reached, NextResult, full, reached}
use yoix.Paging.Laws.Grown.{grown, grown_level, grown-Reached}

module _ {offset : ℕ} {m : Machine} {level : ℕ → ℕ} (tables : Tables offset m level) (p i : ℕ)
    (le : 2 ≤ level p) (lt : i < 512) where
  at_p : p + 4096 + offset ≤ 2 ^ 64
  at_p = tables.bounded p (omega (arith, le))

  -- A present entry is followed.
  found : word offset m p i % 2 ≡ 1 → Reached offset m level p i (page (word offset m p i)) m level
  found on = record {
    tables = tables;
    cr3 = refl;
    link = (on, refl);
    extends = λ r pos. refl;
    kept = λ r j pos h d. refl;
    marked = λ r j pos h e. refl;
    table = λ r pos. inl pos;
    step = inl on;
  }

  module _ (absent : word offset m p i % 2 ≡ 0) {x : ℕ} {s' : Buddy}
      (a : Allocated m.frames 0 x s') where
    x_lt : x < max_pages
    x_lt = omega (arith, a.fits)

    next-made :
        make_page m
          ≡ some (
            x * page_size,
            record m { frames = s'; words = wiped 512 0 (x * page_size + offset) m.words },
          )
        → get_next_level (p + offset) i m
          ≡ some (x * page_size + offset, grown tables p i le lt absent a)
    unfolding get_next_level
    next-made run =
        rw
          (
            load-run offset p i tables.some_offset at_p lt m,
            no_entry,
            run,
            real,
            table_entry x,
            store-run offset p i tables.some_offset at_p lt (x * page_size + 3)
                (record m { frames = s'; words = wiped 512 0 (x * page_size + offset) m.words }),
          )
          (phy_to_virt-run {m = grown tables p i le lt absent a} tables.mapped (x * page_size)
            (omega (arith, tables.window, x_lt)))
      where
        no_entry : (bit_and (word offset m p i) 1 == 0) ≡ true
        no_entry = ground (arith, bit_and-present (word offset m p i), absent)

        real : (x * page_size == invalid_address) ≡ false
        real = ground (arith, x_lt)

  next-full :
      word offset m p i % 2 ≡ 0
      → make_page m ≡ some (invalid_address, m)
      → get_next_level (p + offset) i m ≡ some (0, m)
  unfolding get_next_level
  next-full absent run = rw (load-run offset p i tables.some_offset at_p lt m, no_entry, run) refl
    where
      no_entry : (bit_and (word offset m p i) 1 == 0) ≡ true
      no_entry = ground (arith, bit_and-present (word offset m p i), absent)

  next-found :
      word offset m p i % 2 ≡ 1
      → get_next_level (p + offset) i m ≡ some (page (word offset m p i) + offset, m)
  unfolding get_next_level
  next-found on =
      rw
        (
          load-run offset p i tables.some_offset at_p lt m,
          entry,
          bit_and-address (word offset m p i),
        )
        (phy_to_virt-run tables.mapped (page (word offset m p i))
          (tables.bounded (page (word offset m p i)) (omega (arith, le, tables.next p i le lt on))))
    where
      entry : (bit_and (word offset m p i) 1 == 0) ≡ false
      entry = ground (arith, bit_and-present (word offset m p i), on)

  -- On tables that are well formed `vmm_get_next_level` returns the table that the entry names, which
  -- it creates, zeroed and in a page that was free, where the entry is not present. Every other
  -- entry stays, and the tables stay well formed. It returns NULL, and changes nothing, only when
  -- no page is free.
  pub get_next_level-Result : NextResult offset m level p i (get_next_level (p + offset) i m)
  get_next_level-Result = elim (mod-two (word offset m p i)) [
    | inr on ↦
        subst (NextResult offset m level p i) (sym (next-found on)) (reached level (found on))
    | inl absent ↦
        create absent
          (make_page-Result m tables.mapped tables.some_offset tables.window tables.valid) refl
  ]
    where
      mod-two : (w : ℕ) → (w % 2 ≡ 0) ⊎ (w % 2 ≡ 1)
      mod-two w = ground arith

      create :
          word offset m p i % 2 ≡ 0
          → {r : Option (ℕ × Machine)} → MakeResult offset m r
          → make_page m ≡ r
          → NextResult offset m level p i (get_next_level (p + offset) i m)
      create absent (none_free small) run =
          subst (NextResult offset m level p i) (sym (next-full absent run)) (full small)
      create absent (made a) run =
          subst (NextResult offset m level p i) (sym (next-made absent a run)) (
            reached (grown_level tables p i le lt absent a)
              (grown-Reached tables p i le lt absent a))
