-- ===== src/Buddy/Laws/FreePage.antt =====
-- `buddy_free_page` on any address.
use yoix.Base.{
  ℕ, ◌/◌, ◌%◌, ◌<◌, ◌≡◌, refl, ◌≢◌, inl, inr, false, ◌||◌, some, arith, ◌==◌, Bool-cases, ==→eq,
  le-cases, le→leb, lt→not-leb, lt→ltb, subst, sym,
}
use yoix.Buddy.State.{Buddy, max_pages, page_size, invalid_address, allocated, u32}
use yoix.Buddy.Ops.{order_from_pages, free_pages, free_page, free_block}
use yoix.Buddy.Valid.{IsValid, status, free}
use yoix.Buddy.Laws.AllocPages.{one_page}
use yoix.Buddy.Laws.Free.{Block, free_block-Freed}

-- The frame of an address, as the 32 bits that `buddy_free_pages` keeps of it.
abbrev pub frame_of : ℕ → ℕ
frame_of addr = u32 (addr / page_size)

-- An address that `buddy_free_page` accepts: that of a page other than page 0, whose frame is allocated.
abbrev pub Accepted : Buddy → ℕ → Type 0
Accepted s addr =
    (addr ≢ 0)
    × (addr % page_size ≡ 0)
    × (frame_of addr < max_pages)
    × (s.page_state (frame_of addr) ≡ allocated)

-- The page is free when the address is accepted, and otherwise nothing has changed; every other
-- page has its status.
pub record PageFreed (s : Buddy) (addr : ℕ) (s' : Buddy) : Type 0 where
  pub valid : IsValid s'
  pub now_free : Accepted s addr → status (s'.page_state (frame_of addr)) ≡ free
  pub ignored : (Accepted s addr → ⊥) → s' ≡ s
  pub others : (i : ℕ) → i ≢ frame_of addr → status (s'.page_state i) ≡ status (s.page_state i)

module _ {s : Buddy} (valid : IsValid s) where
  same : (addr : ℕ) → (Accepted s addr → ⊥) → PageFreed s addr s
  same addr refused = record {
    valid = valid;
    now_free = λ accepted. absurd (refused accepted);
    ignored = λ _. refl;
    others = λ i d. refl;
  }

  free_one :
      (addr : ℕ)
      → Accepted s addr
      → (s' : Buddy) × (free_block (frame_of addr) (order_from_pages 1) s ≡ some (tt, s'))
        × PageFreed s addr s'
  free_one addr accepted =
      let x : ℕ = frame_of addr in
      let (_, _, lt, used) = accepted in
      let held : Block s x 0 = record {
        aligned = (x, omega arith);
        fits = omega arith;
        used = λ i lo hi.
            let here : i ≡ x = omega arith in
            subst (λ j. s.page_state j ≡ allocated) (sym here) used;
      } in
      let (s', run, freed, _) = free_block-Freed valid x 0 (omega arith) held in
      (
        s',
        subst (λ k. free_block x k s ≡ some (tt, s')) (sym one_page) run,
        record {
          valid = freed.valid;
          now_free = λ _. freed.now_free x (omega arith) (omega arith);
          ignored = λ refused. absurd (refused accepted);
          others = λ i d. freed.others i (ground (arith, d));
        },
      )

  -- On a valid state `buddy_free_page` returns for every address without leaving the tables, and
  -- keeps the state valid. At the address of a page, other than page 0, whose frame number modulo
  -- 2 ^ 32 is that of an allocated page, it makes that page free and no other; at any other address
  -- it changes nothing.
  pub free_page-PageFreed :
      (addr : ℕ) → (s' : Buddy) × (free_page addr s ≡ some (tt, s')) × PageFreed s addr s'
  unfolding free_page free_pages
  free_page-PageFreed addr = elim (Bool-cases ((addr == 0) || (addr == invalid_address) || false)) [
    | inl stop ↦ (s, rw stop refl, same addr (λ accepted. absurd (ground (arith, stop, accepted))))
    | inr go ↦ elim (Bool-cases (addr % page_size == 0)) [
      | inr off ↦
          (s, rw (go, off) refl, same addr (λ accepted. absurd (ground (arith, off, accepted))))
      | inl on ↦ elim (le-cases max_pages (u32 (addr / page_size))) [
        | inl beyond ↦ (
          s,
          rw (go, on, le→leb max_pages (u32 (addr / page_size)) beyond) refl,
          same addr (λ accepted. absurd (omega (arith, beyond, accepted))),
        )
        | inr lt ↦ elim (Bool-cases (s.page_state (u32 (addr / page_size)) == allocated)) [
          | inr idle ↦ (
            s,
            rw
                (
                  go,
                  on,
                  lt→not-leb max_pages (u32 (addr / page_size)) lt,
                  lt→ltb (u32 (addr / page_size)) max_pages lt,
                  idle,
                )
                refl,
            same addr (λ accepted. absurd (ground (arith, idle, accepted))),
          )
          | inl used ↦
              let (s', run, freed) =
                free_one addr
                  ((λ zero. absurd (ground (arith, go, zero))), ==→eq _ _ on, lt, ==→eq _ _ used) in
              (
                s',
                rw
                    (
                      go,
                      on,
                      lt→not-leb max_pages (u32 (addr / page_size)) lt,
                      lt→ltb (u32 (addr / page_size)) max_pages lt,
                      used,
                    )
                    run,
                freed,
              )
        ]
      ]
    ]
  ]
