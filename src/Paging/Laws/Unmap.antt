-- ===== src/Paging/Laws/Unmap.antt =====
-- `vmm_unmap`.
use yoix.Base.{
  ℕ, ◌+◌, ◌/◌, ◌%◌, ◌^◌, ◌≤◌, ◌<◌, ◌≡◌, ◌≢◌, refl, sym, ap, ◌∙◌, true, false, some, ◌∷◌, arith,
  ◌==◌, bit_and,
}
use yoix.Buddy.State.{Buddy, page_size, max_pages, invalid_address, u32}
use yoix.Buddy.Ops.{free_page}
use yoix.Buddy.Laws.FreePage.{PageFreed, frame_of, free_page-PageFreed}
use yoix.Paging.Machine.{Machine, pt_index}
use yoix.Paging.Ops.{unmap, get_phys}
use yoix.Paging.Entries.{page, bit_and-present, bit_and-address}
use yoix.Paging.Tables.{word, Tables, load-run, store-run, on_frames-run}
use yoix.Paging.Laws.Walk.{Route, index_lt, Route-levels, existing_levels-run, get_phys-absent}
use yoix.Paging.Laws.Leaf.{stored, stored-here, stored-Tables, stored-Route}

-- The allocator's state does not matter to a walk.
pub with_frames-Tables :
    {offset : ℕ} {m : Machine} {level : ℕ → ℕ} (addr : ℕ) (s' : Buddy)
    → Tables offset m level
    → PageFreed m.frames addr s'
    → ((p : ℕ) → 0 < level p → p / 4096 < max_pages → p / 4096 ≢ frame_of addr)
    → Tables offset (record m { frames = s' }) level
with_frames-Tables addr s' tables freed apart = record {
  mapped = tables.mapped;
  some_offset = tables.some_offset;
  window = tables.window;
  valid = freed.valid;
  root = tables.root;
  bounded = tables.bounded;
  aligned = tables.aligned;
  used = λ p pos lt e. tables.used p pos lt (sym (freed.others (p / 4096) (apart p pos lt)) ∙ e);
  next = tables.next;
}

module _ {offset : ℕ} {m : Machine} {level : ℕ → ℕ} {v p3 p2 p1 : ℕ}
    (tables : Tables offset m level) (path : Route offset m v p3 p2 p1) where
  entry : ℕ
  entry = word offset m p1 (pt_index v)

  real : (p1 + offset == 0) ≡ false
  real = ground (arith, tables.some_offset)

  bound : p1 + 4096 + offset ≤ 2 ^ 64
  bound = let (_, _, last) = Route-levels tables path in tables.bounded p1 (omega (arith, last))

  -- A present entry is cleared, and its page freed.
  pub unmap-run :
      word offset m p1 (pt_index v) % 2 ≡ 1
      → {s' : Buddy} → free_page (page (word offset m p1 (pt_index v))) m.frames ≡ some (tt, s')
      → unmap v m ≡ some (true, record (stored offset m p1 (pt_index v) 0 v) { frames = s' })
  unfolding unmap entry
  unmap-run on run =
      rw
        (
          existing_levels-run tables path,
          real,
          load-run offset p1 (pt_index v) tables.some_offset bound (index_lt (v / 2 ^ 12)) m,
          present,
          bit_and-address entry,
          store-run offset p1 (pt_index v) tables.some_offset bound (index_lt (v / 2 ^ 12)) 0 m,
          on_frames-run (free_page (page entry)) (stored offset m p1 (pt_index v) 0 v) run,
        )
        refl
    where
      present : (bit_and entry 1 == 0) ≡ false
      present = ground (arith, bit_and-present entry, on)

  pub unmap-absent : word offset m p1 (pt_index v) % 2 ≡ 0 → unmap v m ≡ some (false, m)
  unfolding unmap entry
  unmap-absent off =
      rw
        (
          existing_levels-run tables path,
          real,
          load-run offset p1 (pt_index v) tables.some_offset bound (index_lt (v / 2 ^ 12)) m,
          absent,
        )
        refl
    where
      absent : (bit_and entry 1 == 0) ≡ true
      absent = ground (arith, bit_and-present entry, off)

-- When an address is mapped, to a page that holds no table, `vmm_unmap` returns true, the tables
-- stay well formed, and `vmm_get_phys` then finds nothing at the address. The translation buffer is
-- flushed for the address.
pub unmap-Unmapped :
    {offset : ℕ} {m : Machine} {level : ℕ → ℕ} {v p3 p2 p1 : ℕ}
    → Tables offset m level
    → Route offset m v p3 p2 p1
    → word offset m p1 (pt_index v) % 2 ≡ 1
    → ((p : ℕ)
        → 0 < level p
        → p / 4096 < max_pages
        → p / 4096 ≢ u32 (page (word offset m p1 (pt_index v)) / page_size))
    → (m' : Machine) × (unmap v m ≡ some (true, m'))
      × Tables offset m' level
      × (get_phys v m' ≡ some (invalid_address, m'))
      × (m'.flushed ≡ v ∷ m.flushed)
unmap-Unmapped {offset} {m} {level} {v} {p3} {p2} {p1} tables path on apart =
    let (_, _, last) = Route-levels tables path in
    let index = index_lt (v / 2 ^ 12) in
    let entry : ℕ = word offset m p1 (pt_index v) in
    let m₁ : Machine = stored offset m p1 (pt_index v) 0 v in
    let stored_tables = stored-Tables tables p1 (pt_index v) 0 v last index in
    let (s', run, freed) = free_page-PageFreed tables.valid (page entry) in
    let tables' = with_frames-Tables (page entry) s' stored_tables freed apart in
    let path' = stored-Route tables p1 (pt_index v) 0 v last index v p3 p2 p1 path in
    (
      record m₁ { frames = s' },
      unmap-run tables path on run,
      tables',
      get_phys-absent tables' (record { pml4 = path'.pml4; pdpt = path'.pdpt; pd = path'.pd })
          (ap (λ (n : ℕ). n % 2) (stored-here tables p1 (pt_index v) 0 v last index)),
      refl,
    )
