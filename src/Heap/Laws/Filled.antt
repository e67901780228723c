-- ===== src/Heap/Laws/Filled.antt =====
-- A cache with a new slab page.
use yoix.Base.{
  ℕ, ◌+◌, ◌*◌, ◌/◌, ◌^◌, ◌≤◌, ◌<◌, ◌≡◌, ◌≢◌, sym, ap, ◌∙◌, subst, ◌⊎◌, inl, inr, arith, same-cases,
  eq→==, ne→not-==,
}
use yoix.Base.Memory.{Memory}
use yoix.Buddy.State.{Buddy, max_pages, page_size}
use yoix.Buddy.Valid.{status}
use yoix.Buddy.Laws.Allocate.{Allocated}
use yoix.Heap.State.{Heap, class_count, update}
use yoix.Heap.Laws.Format.Page.{Formatted}
use yoix.Heap.Laws.Caches.{Fresh, Fresh-cong, Caches, class_bounds}

module _ {offset : ℕ} where
  -- The cache `i` with a new slab page.
  module _ (h : Heap) (i : ℕ) (lt : i < class_count) (caches : Caches offset h) {x : ℕ} {s' : Buddy}
      {m' : Memory} (a : Allocated h.frames 0 x s')
      (formatted : Formatted (x * page_size + offset) (8 * 2 ^ i) h.memory m') where
    abbrev pub filled : Heap
    filled = record h {
      frames = s';
      memory = m';
      partial_pages = update h.partial_pages i (x * page_size);
    }

    x_lt : x < max_pages
    x_lt = omega (arith, a.fits)

    frame : x * page_size / page_size ≡ x
    frame = omega arith

    pub new-Fresh : Fresh offset filled (8 * 2 ^ i) (x * page_size)
    new-Fresh = record {
      in_memory = omega (arith, x_lt);
      whole = omega arith;
      used =
          λ e. ground (arith, ap s'.page_state frame ∙ a.now_used x (omega arith) (omega arith), e);
      fields = formatted.fields;
      links = formatted.links;
    }

    old-Fresh : (size q : ℕ) → 8 ≤ size → Fresh offset h size q → Fresh offset filled size q
    old-Fresh size q word f =
        Fresh-cong size q word
          (λ b lo hi. formatted.outside b (ground (arith, outside, f.whole, lo, hi)))
          (λ e. f.used (sym (a.others (q / page_size) outside) ∙ e)) f
      where
        other : q / page_size ≢ x
        other e =
            f.used (
              ap (λ n. status (h.frames.page_state n)) e ∙ a.was_free x (omega arith) (omega arith))

        outside : (q / page_size < x) ⊎ (x + 1 ≤ q / page_size)
        outside = ground (arith, other)

    pub filled-Caches : Caches offset filled
    filled-Caches = record {
      ready = record {
        mapped = caches.ready.mapped;
        some_offset = caches.ready.some_offset;
        whole_pages = caches.ready.whole_pages;
        window = caches.ready.window;
        valid = a.valid;
      };
      sizes = caches.sizes;
      pages = λ j lt'. elim (same-cases j i) [
        | inl e ↦
            rw (eq→== j i e)
              (inr (subst (λ k. Fresh offset filled (8 * 2 ^ k) (x * page_size)) (sym e) new-Fresh))
        | inr d ↦ rw (ne→not-== j i d) (elim (caches.pages j lt') [
          | inl none_there ↦ inl none_there
          | inr f ↦ inr (old-Fresh (8 * 2 ^ j) (h.partial_pages j) (class_bounds j lt').0 f)
        ])
      ];
    }
