-- ===== src/Heap/Laws/Format/Header.antt =====
-- The fields of a new slab page.
use yoix.Base.{ℕ, ◌+◌, ◌*◌, ◌^◌, ◌≤◌, ◌<◌, ◌≡◌, sym, ap, ◌∙◌, inl, inr, ◌⊎◌, arith}
use yoix.Base.Memory.{
  Memory, read, write, read-cong, read-zero, read-write, read-write_apart, write-outside,
}
use yoix.Buddy.State.{page_size}
use yoix.Heap.State.{
  magic_small, slab_header, field_object_size, field_total_objects, field_free_count,
  field_reserved, field_free_list, field_next, field_bitmap,
}
use yoix.Heap.Laws.Format.Bitmap.{cleared, cleared-outside, cleared-inside}

-- What the stores in front of the bitmap leave, and then the memory before the objects are linked.
unfoldable pub counters : ℕ → ℕ → ℕ → Memory → Memory
counters page size total m =
    write 2
      (write 2
        (write 2 (write 2 (write 4 m page magic_small) (page + field_object_size) size)
          (page + field_total_objects) total)
        (page + field_free_count) total)
      (page + field_reserved) 0

unfoldable pub headers : ℕ → ℕ → ℕ → Memory → Memory
headers page size total m =
    write 8 (cleared 2048 0 page (write 8 (counters page size total m) (page + field_next) 0))
      (page + field_free_list) (page + slab_header)

-- The fields of the page are those of a page with `total` free objects.
pub record Fields (page size total : ℕ) (m : Memory) : Type 0 where
  pub magic : read 4 m page ≡ magic_small
  pub object_size : read 2 m (page + field_object_size) ≡ size
  pub total_objects : read 2 m (page + field_total_objects) ≡ total
  pub free_count : read 2 m (page + field_free_count) ≡ total
  pub reserved : read 2 m (page + field_reserved) ≡ 0
  pub free_list : read 8 m (page + field_free_list) ≡ page + slab_header
  pub next : read 8 m (page + field_next) ≡ 0
  pub bitmap : (i : ℕ) → i < 256 → read 8 m (page + (field_bitmap + 8 * i)) ≡ 0

-- They are those of any memory that agrees in front of the objects.
pub Fields-cong :
    {page size total : ℕ} {m m' : Memory}
    → ((b : ℕ) → page ≤ b → b < page + slab_header → m' b ≡ m b)
    → Fields page size total m
    → Fields page size total m'
Fields-cong {page} {m = m} {m'} same f = record {
  magic = read-cong 4 m' m page (λ b lo hi. same b (omega arith) (omega arith)) ∙ f.magic;
  object_size = kept 2 field_object_size (omega arith) ∙ f.object_size;
  total_objects = kept 2 field_total_objects (omega arith) ∙ f.total_objects;
  free_count = kept 2 field_free_count (omega arith) ∙ f.free_count;
  reserved = kept 2 field_reserved (omega arith) ∙ f.reserved;
  free_list = kept 8 field_free_list (omega arith) ∙ f.free_list;
  next = kept 8 field_next (omega arith) ∙ f.next;
  bitmap = λ i lt. kept 8 (field_bitmap + 8 * i) (omega arith) ∙ f.bitmap i lt;
}
  where
    kept :
        (k field : ℕ) → field + k ≤ slab_header → read k m' (page + field) ≡ read k m (page + field)
    kept k field le =
        read-cong k m' m (page + field) (λ b lo hi. same b (omega arith) (omega arith))

add_zero : (a : ℕ) → a + 0 ≡ a
add_zero a = omega arith

module _ (page size total : ℕ) (m : Memory) where
  abbrev before_bitmap : Memory
  before_bitmap = write 8 (counters page size total m) (page + field_next) 0

  abbrev after_bitmap : Memory
  after_bitmap = cleared 2048 0 page before_bitmap

  abbrev marked : Memory
  marked = write 4 m page magic_small

  abbrev sized : Memory
  sized = write 2 marked (page + field_object_size) size

  abbrev totalled : Memory
  totalled = write 2 sized (page + field_total_objects) total

  abbrev counted : Memory
  counted = write 2 totalled (page + field_free_count) total

  -- The counters stay.
  early :
      (k field : ℕ)
      → field + k ≤ field_free_list
      → read k (headers page size total m) (page + field)
        ≡ read k (counters page size total m) (page + field)
  unfolding headers
  early k field le =
      read-write_apart k 8 after_bitmap (page + field_free_list) (page + slab_header) (page + field)
        (inl (omega arith))
      ∙ read-cong k after_bitmap before_bitmap (page + field)
          (λ b lo hi. cleared-outside 2048 0 page before_bitmap b (inl (omega arith)))
      ∙ read-write_apart k 8 (counters page size total m) (page + field_next) 0 (page + field)
          (inl (omega arith))

  pub headers-outside :
      (b : ℕ) → (b < page) ⊎ (page + slab_header ≤ b) → headers page size total m b ≡ m b
  unfolding headers counters
  headers-outside b out =
      write-outside 8 after_bitmap (page + field_free_list) (page + slab_header) b
        (ground (arith, out))
      ∙ cleared-outside 2048 0 page before_bitmap b (ground (arith, out))
      ∙ write-outside 8 (counters page size total m) (page + field_next) 0 b (ground (arith, out))
      ∙ write-outside 2 counted (page + field_reserved) 0 b (ground (arith, out))
      ∙ write-outside 2 totalled (page + field_free_count) total b (ground (arith, out))
      ∙ write-outside 2 sized (page + field_total_objects) total b (ground (arith, out))
      ∙ write-outside 2 marked (page + field_object_size) size b (ground (arith, out))
      ∙ write-outside 4 m page magic_small b (ground (arith, out))

  pub headers-Fields :
      size < 2 ^ 16
      → total < 2 ^ 16
      → page + page_size ≤ 2 ^ 64
      → Fields page size total (headers page size total m)
  unfolding counters
  headers-Fields size_lt total_lt room = record {
    magic =
        (ap (read 4 (headers page size total m)) (sym (add_zero page))
          ∙ early 4 0 (omega arith)
          ∙ ap (read 4 (counters page size total m)) (add_zero page))
        ∙ read-write_apart 4 2 counted (page + field_reserved) 0 page (inl (omega arith))
        ∙ read-write_apart 4 2 totalled (page + field_free_count) total page (inl (omega arith))
        ∙ read-write_apart 4 2 sized (page + field_total_objects) total page (inl (omega arith))
        ∙ read-write_apart 4 2 marked (page + field_object_size) size page (inl (omega arith))
        ∙ read-write 4 m page magic_small (omega arith);
    object_size =
        early 2 field_object_size (omega arith)
        ∙ read-write_apart 2 2 counted (page + field_reserved) 0 (page + field_object_size)
            (inl (omega arith))
        ∙ read-write_apart 2 2 totalled (page + field_free_count) total (page + field_object_size)
            (inl (omega arith))
        ∙ read-write_apart 2 2 sized (page + field_total_objects) total (page + field_object_size)
            (inl (omega arith))
        ∙ read-write 2 marked (page + field_object_size) size (omega arith);
    total_objects =
        early 2 field_total_objects (omega arith)
        ∙ read-write_apart 2 2 counted (page + field_reserved) 0 (page + field_total_objects)
            (inl (omega arith))
        ∙ read-write_apart 2 2 totalled (page + field_free_count) total (page + field_total_objects)
            (inl (omega arith))
        ∙ read-write 2 sized (page + field_total_objects) total (omega arith);
    free_count =
        early 2 field_free_count (omega arith)
        ∙ read-write_apart 2 2 counted (page + field_reserved) 0 (page + field_free_count)
            (inl (omega arith))
        ∙ read-write 2 totalled (page + field_free_count) total (omega arith);
    reserved =
        early 2 field_reserved (omega arith)
        ∙ read-write 2 counted (page + field_reserved) 0 (omega arith);
    free_list =
        unfold headers in
        (read-write 8 after_bitmap (page + field_free_list) (page + slab_header) (omega arith));
    next =
        unfold headers in
        (read-write_apart 8 8 after_bitmap (page + field_free_list) (page + slab_header)
            (page + field_next) (inr (omega arith))
          ∙ read-cong 8 after_bitmap before_bitmap (page + field_next)
              (λ b lo hi. cleared-outside 2048 0 page before_bitmap b (inl (omega arith)))
          ∙ read-write 8 (counters page size total m) (page + field_next) 0 (omega arith));
    bitmap = λ i lt.
        unfold headers in
        (read-write_apart 8 8 after_bitmap (page + field_free_list) (page + slab_header)
            (page + (field_bitmap + 8 * i)) (inr (omega arith))
          ∙ read-zero 8 after_bitmap (page + (field_bitmap + 8 * i))
              (λ b lo hi. cleared-inside 2048 0 page before_bitmap b (omega arith) (omega arith)));
  }
