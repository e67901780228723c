-- ===== src/IoApic/Laws.antt =====
-- What `FindEntries` finds.
use yoix.Base.{
  ℕ, zero, suc, ◌+◌, ◌-◌, ◌≤◌, ◌<◌, ◌≡◌, ◌≢◌, refl, ap, ◌∙◌, ◌⊎◌, inl, inr, true, ◌&&◌, Option,
  some, List, [], ◌∷◌, arith, ltb, ◌==◌, if◌then◌else◌, le-cases, same-cases, lt→ltb, le→not-ltb,
  eq→==, ne→not-==, subst,
}
use yoix.Acpi.Ops.{Bytes, table_length}
use yoix.IoApic.Ops.{keep, find_from, find_entries, madt_size}

pub data Listed (p : ℕ) : List ℕ → Type 0 where
  first : {ps : List ℕ} → Listed p (p ∷ ps)
  later : {q : ℕ} {ps : List ℕ} → Listed p ps → Listed p (q ∷ ps)

abbrev pub size : List ℕ → ℕ
size [] = 0
size (p ∷ ps) = 1 + size ps

-- The entries from an address on, by the lengths that they give; an entry of length 0 is the last.
pub data Entry (m : Bytes) (entries_end p : ℕ) : ℕ → Type 0 where
  here : p < entries_end → Entry m entries_end p p
  next :
      {q : ℕ}
      → q < entries_end
      → m (q + 1) ≢ 0
      → Entry m entries_end p (q + m (q + 1))
      → Entry m entries_end p q

-- The list has only entries of the type, no more than there is room for, and all of them if there is
-- room left.
pub record Found (m : Bytes) (entries_end type start room : ℕ) (ps : List ℕ) : Type 0 where
  pub bounded : size ps ≤ room
  pub sound : (p : ℕ) → Listed p ps → Entry m entries_end p start × (m p ≡ type)
  pub complete : size ps < room → (p : ℕ) → Entry m entries_end p start → m p ≡ type → Listed p ps

none_listed : {A : Type 0} (p : ℕ) → Listed p [] → A
none_listed p l = elim l [ ]

module _ (m : Bytes) (entries_end type : ℕ) where
  past : (p ptr : ℕ) → entries_end ≤ ptr → Entry m entries_end p ptr → Listed p []
  past p ptr beyond (here lt) = absurd (omega (arith, lt, beyond))
  past p ptr beyond (next lt _ _) = absurd (omega (arith, lt, beyond))

  none-Found : (ptr room : ℕ) → entries_end ≤ ptr → Found m entries_end type ptr room []
  none-Found ptr room beyond = record {
    bounded = omega arith;
    sound = λ p l. none_listed p l;
    complete = λ small p e same. past p ptr beyond e;
  }

  -- The entries after the one at `ptr`.
  abbrev After : ℕ → ℕ → Type 0
  After ptr p = (m (ptr + 1) ≢ 0) × Entry m entries_end p (ptr + m (ptr + 1))

  record Tail (ptr room : ℕ) (ps : List ℕ) : Type 0 where
    bounded : size ps ≤ room
    sound : (p : ℕ) → Listed p ps → After ptr p × (m p ≡ type)
    complete : size ps < room → (p : ℕ) → After ptr p → m p ≡ type → Listed p ps

  taken-Found :
      (ptr room : ℕ) (ps : List ℕ)
      → ptr < entries_end
      → m ptr ≡ type
      → 0 < room
      → Tail ptr (room - 1) ps
      → Found m entries_end type ptr room (ptr ∷ ps)
  taken-Found ptr room ps lt same pos t = record {
    bounded = omega (arith, t.bounded, pos);
    sound = sound;
    complete = complete;
  }
    where
      sound : (p : ℕ) → Listed p (ptr ∷ ps) → Entry m entries_end p ptr × (m p ≡ type)
      sound p first = (here lt, same)
      sound p (later l) = let ((more, e), is) = t.sound p l in (next lt more e, is)

      complete :
          size (ptr ∷ ps) < room
          → (p : ℕ) → Entry m entries_end p ptr
          → m p ≡ type
          → Listed p (ptr ∷ ps)
      complete small p (here _) is = first
      complete small p (next _ more e) is = later (t.complete (omega (arith, small)) p (more, e) is)

  passed-Found :
      (ptr room : ℕ) (ps : List ℕ)
      → ptr < entries_end
      → (m ptr ≢ type) ⊎ (room ≡ 0)
      → Tail ptr room ps
      → Found m entries_end type ptr room ps
  passed-Found ptr room ps lt why t = record {
    bounded = t.bounded;
    sound = λ p l. let ((more, e), is) = t.sound p l in (next lt more e, is);
    complete = complete;
  }
    where
      complete : size ps < room → (p : ℕ) → Entry m entries_end p ptr → m p ≡ type → Listed p ps
      complete small p (here _) is = absurd (ground (arith, why, is, small))
      complete small p (next _ more e) is = t.complete small p (more, e) is

  stop-Tail : (ptr room : ℕ) → m (ptr + 1) ≡ 0 → Tail ptr room []
  stop-Tail ptr room z = record {
    bounded = omega arith;
    sound = λ p l. none_listed p l;
    complete = λ small p a is. absurd (a.0 z);
  }

  more-Tail :
      (ptr room : ℕ) (ps : List ℕ)
      → m (ptr + 1) ≢ 0
      → Found m entries_end type (ptr + m (ptr + 1)) room ps
      → Tail ptr room ps
  more-Tail ptr room ps more f = record {
    bounded = f.bounded;
    sound = λ p l. let (e, is) = f.sound p l in ((more, e), is);
    complete = λ small p a is. f.complete small p a.1 is;
  }

  abbrev room_left : ℕ → ℕ → ℕ
  room_left ptr room = if (m ptr == type) && ltb 0 room then room - 1 else room

  kept-Found :
      (ptr room : ℕ)
      → ptr < entries_end
      → (r : Option (List ℕ)) → (ps : List ℕ) × (r ≡ some ps) × Tail ptr (room_left ptr room) ps
      → (qs : List ℕ) × (keep ((m ptr == type) && ltb 0 room) ptr r ≡ some qs)
        × Found m entries_end type ptr room qs
  kept-Found ptr room lt r (ps, run, t) = elim (same-cases (m ptr) type) [
    | inr d ↦ (
      ps,
      rw (run, ne→not-== (m ptr) type d) refl,
      passed-Found ptr room ps lt (inl d) (subst (λ k. Tail ptr k ps) (ground (arith, d)) t),
    )
    | inl e ↦ elim (same-cases room 0) [
      | inl z ↦ (
        ps,
        ap (keep _ ptr) run ∙ ground (arith, z),
        passed-Found ptr room ps lt (inr z) (subst (λ k. Tail ptr k ps) (ground (arith, z)) t),
      )
      | inr d ↦ (
        ptr ∷ ps,
        rw (run, eq→== (m ptr) type e, lt→ltb 0 room (ground (arith, d))) refl,
        taken-Found ptr room ps lt e (ground (arith, d))
            (subst (λ k. Tail ptr k ps) (ground (arith, d, e)) t),
      )
    ]
  ]

  pub find_from-Found :
      (fuel ptr room : ℕ)
      → entries_end ≤ ptr + fuel
      → (ps : List ℕ) × (find_from fuel m entries_end type ptr room ≡ some ps)
        × Found m entries_end type ptr room ps
  unfolding find_from
  find_from-Found zero ptr room h =
      ([], rw (le→not-ltb ptr entries_end (omega arith)) refl, none-Found ptr room (omega arith))
  find_from-Found (suc fuel) ptr room h = elim (le-cases entries_end ptr) [
    | inl beyond ↦ ([], rw (le→not-ltb ptr entries_end beyond) refl, none-Found ptr room beyond)
    | inr lt ↦ rw (lt→ltb ptr entries_end lt) (
        kept-Found ptr room lt _ (elim (same-cases (m (ptr + 1)) 0) [
          | inl z ↦ ([], rw (eq→== (m (ptr + 1)) 0 z) refl, stop-Tail ptr (room_left ptr room) z)
          | inr d ↦
              let (ps, run, f) =
                find_from-Found fuel (ptr + m (ptr + 1)) (room_left ptr room) (ground (arith, d)) in
              (ps, rw (ne→not-== (m (ptr + 1)) 0 d) run, more-Tail ptr (room_left ptr room) ps d f)
        ]))
  ]

-- `FindEntries` always ends. What it puts into an array of `max_count` entries are entries of the type
-- that the table has, at most `max_count`, and all of them if the array is not full.
pub find_entries-Found :
    (madt type max_count : ℕ) (m : Bytes)
    → (ps : List ℕ) × (find_entries madt type true max_count m ≡ some ps)
      × Found m (madt + table_length m madt) type (madt + madt_size) max_count ps
unfolding find_entries
find_entries-Found madt type max_count m =
    find_from-Found m (madt + table_length m madt) type (table_length m madt) (madt + madt_size)
      max_count (omega arith)
