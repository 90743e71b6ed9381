-- ===== src/Common/Store.antt =====
-- A store of objects named by numbers, as an association list, and flags by number.
use Prim.Native.Nat.{ℕ, ◌+◌}
use mathlib.Core.Path.{◌≡◌, refl}
use mathlib.Core.Bool.{Bool, true}
use mathlib.Core.Option.{Option, none, some}
use mathlib.Core.List.{List, [], ◌∷◌}
use native.Mathlib.Omega.{arith}
use task_messenger.Common.Tests.{◌==◌, if◌then◌else◌}
use task_messenger.Common.Lists.{weigh}

module _ {ℓ} {V : Type ℓ} where
  abbrev pub lookup : ℕ → List (ℕ × V) → Option V
  lookup k [] = none
  lookup k ((j, v) ∷ m) = if j == k then some v else lookup k m

  abbrev pub erase : ℕ → List (ℕ × V) → List (ℕ × V)
  erase k [] = []
  erase k ((j, v) ∷ m) = if j == k then erase k m else (j, v) ∷ erase k m

  -- A write: the object has one value afterwards.
  abbrev pub put : ℕ → V → List (ℕ × V) → List (ℕ × V)
  put k v m = (k, v) ∷ erase k m

  abbrev pub values : List (ℕ × V) → List V
  values [] = []
  values ((j, v) ∷ m) = v ∷ values m

  pub lookup-erase :
      (k j : ℕ) (m : List (ℕ × V)) → lookup j (erase k m) ≡ (if k == j then none else lookup j m)
  lookup-erase k j [] = ground arith
  lookup-erase k j ((i, v) ∷ m) = ground (arith, lookup-erase k j m)

  pub lookup-put :
      (k j : ℕ) (v : V) (m : List (ℕ × V))
      → lookup j (put k v m) ≡ (if k == j then some v else lookup j m)
  lookup-put k j v m = ground (arith, lookup-erase k j m)

  pub erase_absent : (k : ℕ) (m : List (ℕ × V)) → lookup k m ≡ none → erase k m ≡ m
  erase_absent k [] h = refl
  erase_absent k ((j, v) ∷ m) h = ground (arith, erase_absent k m)

  -- No two entries have one name.
  abbrev pub Unique : List (ℕ × V) → Type ℓ
  Unique [] = Unit
  Unique ((j, v) ∷ m) = (lookup j m ≡ none) × Unique m

  pub Unique-erase : (k : ℕ) (m : List (ℕ × V)) → Unique m → Unique (erase k m)
  Unique-erase k [] u = tt
  Unique-erase k ((j, v) ∷ m) u = ground (arith, Unique-erase k m u.1, lookup-erase k j m)

  pub Unique-put : (k : ℕ) (v : V) (m : List (ℕ × V)) → Unique m → Unique (put k v m)
  Unique-put k v m u = (ground (arith, lookup-erase k k m), Unique-erase k m u)

  pub weigh-put_absent :
      (f : V → ℕ) (k : ℕ) (v : V) (m : List (ℕ × V))
      → lookup k m ≡ none
      → weigh f (values (put k v m)) ≡ f v + weigh f (values m)
  weigh-put_absent f k v m h = rw (erase_absent k m h)

  pub weigh-erase :
      (f : V → ℕ) (k : ℕ) (v : V) (m : List (ℕ × V))
      → Unique m
      → lookup k m ≡ some v
      → f v + weigh f (values (erase k m)) ≡ weigh f (values m)
  weigh-erase f k v [] u h = absurd (cc)
  weigh-erase f k v ((j, w) ∷ m) u h = ground (arith, erase_absent k m, weigh-erase f k v m u.1)

-- Setting a flag.
abbrev pub raise : ℕ → (ℕ → Bool) → ℕ → Bool
raise k flags j = if k == j then true else flags j
