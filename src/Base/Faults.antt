-- ===== src/Base/Faults.antt =====
-- Programs over a state `S` that may fault. `none` is an access that C leaves undefined, such as
-- an index past the end of an array; a loop has no other way to stop.
use mathlib.Core.Bool.{Bool, true, false}
use mathlib.Core.Path.{◌≡◌, ap}
use mathlib.Core.Option.{Option, none, some, some-injective}

abbrev pub Prog : Type 0 → Type 0 → Type 0
Prog S A = S → Option (A × S)

module _ {S A : Type 0} where
  abbrev pub pure : A → Prog S A
  pure a s = some (a, s)

  abbrev pub fault : Prog S A
  fault s = none

module _ {S A B : Type 0} where
  abbrev pub and_then : Option (A × S) → (A → Prog S B) → Option (B × S)
  and_then none k = none
  and_then (some (a, s)) k = k a s

  infixl 5 ◌>>=◌ ◌>>◌
  abbrev pub ◌>>=◌ : Prog S A → (A → Prog S B) → Prog S B
  m >>= k = λ s. and_then (m s) k

  abbrev pub ◌>>◌ : Prog S A → Prog S B → Prog S B
  m >> n = m >>= λ _. n

module _ {S : Type 0} where
  -- The access is inside the array, or undefined.
  abbrev pub check : Bool → Prog S (Unit {0})
  check true = pure tt
  check false = fault

  abbrev pub when : Bool → Prog S (Unit {0}) → Prog S (Unit {0})
  when true m = m
  when false m = pure tt

-- Two runs with the same outcome have the same result and the same state.
pub same_outcome {ℓ κ} :
    {A : Type ℓ} {S : Type κ} {a b : A} {s t : S}
    → ◌≡◌ {A = Option (A × S)} (some (a, s)) (some (b, t))
    → (a ≡ b) × (s ≡ t)
same_outcome e = let p = some-injective _ _ e in (ap (λ q. q.0) p, ap (λ q. q.1) p)
