-- ===== src/Buddy/Laws/Init.antt =====
-- `buddy_init`: the usable memory of the boot loader's map becomes free.
use yoix.Base.{
  ℕ, ◌+◌, ◌-◌, ◌^◌, ◌≤◌, ◌<◌, ◌≡◌, refl, sym, ◌∙◌, ap, ap₂, subst, inl, inr, some, none, Bool, true,
  false, ◌||◌, Option, List, [], ◌∷◌, arith, Bool-cases, and_then,
}
use yoix.Buddy.State.{Buddy, max_pages, free_body, reserved, u32}
use yoix.Buddy.Ops.{add_range}
use yoix.Buddy.Init.{
  MemmapEntry, usable_frames, add_frames, add_entry, add_entries, add_response, init,
}
use yoix.Buddy.Valid.{free, status, IsValid}
use yoix.Buddy.Laws.AddRange.{add_range-Added}
use yoix.Buddy.Laws.Reset.{reset-IsValid}
use yoix.Buddy.Laws.Memmap.{
  length, within, covers, covered, Apart, usable_frames-bounds, covered-lt,
}

-- The pages of `c` have become free, and all others are as before.
record Filled (c : ℕ → Bool) (s s' : Buddy) : Type 0 where
  valid : IsValid s'
  now_free : (i : ℕ) → c i ≡ true → status (s'.page_state i) ≡ free
  others : (i : ℕ) → c i ≡ false → s'.page_state i ≡ s.page_state i

abbrev Avoids : (ℕ → Bool) → Buddy → Type 0
Avoids c s = (i : ℕ) → c i ≡ true → free_body < s.page_state i

unchanged : {s : Buddy} → IsValid s → Filled (λ i. false) s s
unchanged valid = record {
  valid = valid;
  now_free = λ i c. absurd (ground arith);
  others = λ i c. refl;
}

frames-run :
    (s : Buddy) (first last : ℕ)
    → first < last
    → last ≤ max_pages
    → add_frames (some (first, last)) s ≡ add_range first (last - first) s
unfolding add_frames
frames-run s first last lt le =
    let start : u32 first ≡ first = omega arith in
    let count : u32 (last + 2 ^ 64 - first) ≡ last - first = omega arith in
    ap₂ (λ a b. add_range a b s) start count

add_frames-Filled :
    {s : Buddy} (r : Option (ℕ × ℕ))
    → ((first last : ℕ) → r ≡ some (first, last) → (first < last) × (last ≤ max_pages))
    → IsValid s
    → Avoids (within r) s
    → (s' : Buddy) × (add_frames r s ≡ some (tt, s')) × Filled (within r) s s'
unfolding add_frames
add_frames-Filled {s} none bounds valid taken = (s, refl, unchanged valid)
add_frames-Filled {s} (some (first, last)) bounds valid taken =
    let (lt, le) = bounds first last refl in
    let (s', run, add) =
      add_range-Added first (last - first) valid (omega arith)
        (λ i lo hi. taken i (ground arith)) in
    (
      s',
      frames-run s first last lt le ∙ run,
      record {
        valid = add.valid;
        now_free = λ i c. add.now_free i (ground arith) (ground arith);
        others = λ i c. add.others i (ground arith);
      },
    )

add_entry-Filled :
    {s : Buddy} (e : Option MemmapEntry)
    → IsValid s
    → Avoids (covers e) s
    → (s' : Buddy) × (add_entry e s ≡ some (tt, s')) × Filled (covers e) s s'
unfolding add_entry
add_entry-Filled {s} none valid taken = (s, refl, unchanged valid)
add_entry-Filled (some e) valid taken =
    add_frames-Filled (usable_frames e) (λ first last h. usable_frames-bounds e h) valid taken

module _ {s s₁ s₂ : Buddy} {c d : ℕ → Bool} (first : Filled c s s₁) (rest : Filled d s₁ s₂) where
  joined : Filled (λ i. c i || d i) s s₂
  joined = record {
    valid = rest.valid;
    now_free = λ i h. elim (Bool-cases (d i)) [
      | inl later ↦ rest.now_free i later
      | inr never ↦ ap status (rest.others i never) ∙ first.now_free i (ground arith)
    ];
    others = λ i h. rest.others i (ground arith) ∙ first.others i (ground arith);
  }

add_entries-Filled :
    (es : List (Option MemmapEntry)) {s : Buddy}
    → IsValid s
    → Apart es
    → Avoids (covered es) s
    → (s' : Buddy) × (add_entries (length es) es s ≡ some (tt, s')) × Filled (covered es) s s'
unfolding add_entries
add_entries-Filled [] {s} valid apart taken = (s, refl, unchanged valid)
add_entries-Filled (e ∷ es) {s} valid apart taken =
    let (s₁, run, first) = add_entry-Filled e valid (λ i c. taken i (ground arith)) in
    let (s₂, runs, rest) = add_entries-Filled es first.valid apart.1 (λ i c.
      subst (λ v. free_body < v) (sym (first.others i (ground (arith, apart.0 i))))
        (taken i (ground arith))) in
    (s₂, rw run runs, joined first rest)

-- An empty map takes the early return.
response-run :
    (es : List (Option MemmapEntry)) (s : Buddy)
    → add_response (some (record { entry_count = length es; entries = some es })) s
      ≡ add_entries (length es) es s
unfolding add_response add_entries
response-run [] s = refl
response-run (e ∷ es) s = ground arith

-- With entries whose frames do not overlap, `buddy_init` ends without leaving its tables, in a valid state
-- in which exactly the frames that it takes from the entries are free; all others are reserved.
pub init-IsValid :
    (es : List (Option MemmapEntry)) (s : Buddy)
    → Apart es
    → (s' : Buddy) × (init (some (record { entry_count = length es; entries = some es })) s
        ≡ some (tt, s'))
      × IsValid s'
      × ((i : ℕ) → covered es i ≡ true → status (s'.page_state i) ≡ free)
      × ((i : ℕ) → i < max_pages → covered es i ≡ false → s'.page_state i ≡ reserved)
unfolding init
init-IsValid es s apart =
    let (s₁, wiped, valid, states) = reset-IsValid s in
    let (s₂, run, filled) =
      add_entries-Filled es valid apart (λ i c. omega (arith, states i (covered-lt es i c))) in
    (
      s₂,
      ap
            (λ o.
              and_then o
                λ _. add_response (some (record { entry_count = length es; entries = some es })))
            wiped
          ∙ response-run es s₁
          ∙ run,
      filled.valid,
      filled.now_free,
      λ i lt c. filled.others i c ∙ states i lt,
    )
