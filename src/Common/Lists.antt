-- ===== src/Common/Lists.antt =====
-- List functions over the native numbers.
use Prim.Native.Nat.{ℕ, zero, suc, ◌+◌, ◌-◌, ◌≤◌}
use mathlib.Core.Path.{◌≡◌, refl, ap}
use mathlib.Core.Bool.{Bool}
use mathlib.Core.List.{List, [], ◌∷◌, ◌++◌}
use native.Mathlib.Omega.{arith}
use task_messenger.Common.Tests.{if◌then◌else◌}

minus_zero : (n : ℕ) → n - 0 ≡ n
minus_zero n = omega arith

suc_minus : (n k : ℕ) → suc n - suc k ≡ n - k
suc_minus n k = omega arith

module _ {ℓ} {A : Type ℓ} where
  abbrev pub length : List A → ℕ
  length [] = 0
  length (x ∷ xs) = suc (length xs)

  abbrev pub take : ℕ → List A → List A
  take zero xs = []
  take (suc n) [] = []
  take (suc n) (x ∷ xs) = x ∷ take n xs

  abbrev pub drop : ℕ → List A → List A
  drop zero xs = xs
  drop (suc n) [] = []
  drop (suc n) (x ∷ xs) = drop n xs

  abbrev pub keep : (A → Bool) → List A → List A
  keep p [] = []
  keep p (x ∷ xs) = if p x then x ∷ keep p xs else keep p xs

  -- The sum of `f` over a list. Two lists with the same sum for every `f` hold the same items.
  abbrev pub weigh : (A → ℕ) → List A → ℕ
  weigh f [] = 0
  weigh f (x ∷ xs) = f x + weigh f xs

  abbrev pub All {κ} : (A → Type κ) → List A → Type κ
  All P [] = Unit
  All P (x ∷ xs) = P x × All P xs

  take-nil : (n : ℕ) → take n [] ≡ []
  take-nil zero = refl
  take-nil (suc n) = refl

  drop-nil : (n : ℕ) → drop n [] ≡ []
  drop-nil zero = refl
  drop-nil (suc n) = refl

  pub length-append : (xs ys : List A) → length (xs ++ ys) ≡ length xs + length ys
  length-append [] ys = omega arith
  length-append (x ∷ xs) ys = omega (arith, length-append xs ys)

  pub length-take-le : (n : ℕ) (xs : List A) → length (take n xs) ≤ n
  length-take-le zero xs = omega arith
  length-take-le (suc n) [] = omega arith
  length-take-le (suc n) (x ∷ xs) = omega (arith, length-take-le n xs)

  pub weigh-append : (f : A → ℕ) (xs ys : List A) → weigh f (xs ++ ys) ≡ weigh f xs + weigh f ys
  weigh-append f [] ys = omega arith
  weigh-append f (x ∷ xs) ys = omega (arith, weigh-append f xs ys)

  pub length-take : (n : ℕ) (xs : List A) → n ≤ length xs → length (take n xs) ≡ n
  length-take zero xs h = omega arith
  length-take (suc n) [] h = absurd (omega arith)
  length-take (suc n) (x ∷ xs) h = omega (arith, length-take n xs (omega arith))

  pub length-drop : (n : ℕ) (xs : List A) → length (drop n xs) ≡ length xs - n
  length-drop zero xs = omega arith
  length-drop (suc n) [] = omega arith
  length-drop (suc n) (x ∷ xs) = omega (arith, length-drop n xs)

  pub take-append : (xs ys : List A) → take (length xs) (xs ++ ys) ≡ xs
  take-append [] ys = refl
  take-append (x ∷ xs) ys = ap (λ zs. x ∷ zs) (take-append xs ys)

  pub drop-append : (xs ys : List A) → drop (length xs) (xs ++ ys) ≡ ys
  drop-append [] ys = refl
  drop-append (x ∷ xs) ys = drop-append xs ys

  -- What is taken in two parts is what is taken at once.
  pub take_twice :
      (k n : ℕ) (xs : List A) → k ≤ n → take k xs ++ take (n - k) (drop k xs) ≡ take n xs
  take_twice zero n xs h = rw (minus_zero n) refl
  take_twice (suc k) zero xs h = absurd (omega arith)
  take_twice (suc k) (suc n) [] h = take-nil (suc n - suc k)
  take_twice (suc k) (suc n) (x ∷ xs) h =
      rw (suc_minus n k) (ap (λ zs. x ∷ zs) (take_twice k n xs (omega arith)))

  pub drop_twice : (k n : ℕ) (xs : List A) → k ≤ n → drop (n - k) (drop k xs) ≡ drop n xs
  drop_twice zero n xs h = rw (minus_zero n) refl
  drop_twice (suc k) zero xs h = absurd (omega arith)
  drop_twice (suc k) (suc n) [] h = drop-nil (suc n - suc k)
  drop_twice (suc k) (suc n) (x ∷ xs) h = rw (suc_minus n k) (drop_twice k n xs (omega arith))
