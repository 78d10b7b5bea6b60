-- ===== src/Common/Count.antt =====
-- How many elements of a list pass a test.
use Prim.Native.Nat.{ℕ, zero, suc, ◌+◌, ◌≤◌}
use mathlib.Core.Path.{◌≡◌, refl}
use mathlib.Core.Bool.{Bool, true, false, not, ◌&&◌}
use mathlib.Core.Option.{Option, none, some}
use mathlib.Core.List.{List, [], ◌∷◌, ◌++◌}
use native.Mathlib.Omega.{arith}
use staminads.Common.Tests.{if◌then◌else◌}
use staminads.Common.Lists.{filter, take, drop}

abbrev pub tally : Bool → ℕ
tally true = 1
tally false = 0

module _ {ℓ} {A : Type ℓ} where
  abbrev pub count : (A → Bool) → List A → ℕ
  count p [] = 0
  count p (x ∷ xs) = tally (p x) + count p xs

  -- The first element that passes: `rows[0]` of a query, if there is one.
  abbrev pub find : (A → Bool) → List A → Option A
  find p [] = none
  find p (x ∷ xs) = let later = find p xs in if p x then some x else later

  pub count-append : (p : A → Bool) (xs ys : List A) → count p (xs ++ ys) ≡ count p xs + count p ys
  count-append p [] ys = omega arith
  count-append p (x ∷ xs) ys = omega (arith, count-append p xs ys)

  pub count-filter :
      (p q : A → Bool) (xs : List A) → count p (filter q xs) ≡ count (λ x. p x && q x) xs
  count-filter p q [] = refl
  count-filter p q (x ∷ xs) = ground (arith, count-filter p q xs)

  pub count-split :
      (p q : A → Bool) (xs : List A)
      → count p xs ≡ count (λ x. p x && q x) xs + count (λ x. p x && not (q x)) xs
  count-split p q [] = omega arith
  count-split p q (x ∷ xs) = ground (arith, count-split p q xs)

  pub count-and_le : (p q : A → Bool) (xs : List A) → count (λ x. p x && q x) xs ≤ count q xs
  count-and_le p q [] = omega arith
  count-and_le p q (x ∷ xs) = ground (arith, count-and_le p q xs)

  pub count-and_left_le : (p q : A → Bool) (xs : List A) → count (λ x. p x && q x) xs ≤ count p xs
  count-and_left_le p q [] = omega arith
  count-and_left_le p q (x ∷ xs) = ground (arith, count-and_left_le p q xs)

  pub count-ext : (p q : A → Bool) → ((x : A) → p x ≡ q x) → (xs : List A) → count p xs ≡ count q xs
  count-ext p q h [] = refl
  count-ext p q h (x ∷ xs) = rw (h x) (omega (arith, count-ext p q h xs))

  pub find-holds : (q : A → Bool) (xs : List A) (a : A) → find q xs ≡ some a → q a ≡ true
  find-holds q [] a e = ground arith
  find-holds q (x ∷ xs) a e = ground (arith, find-holds q xs a)

  -- What a row that was found counts for.
  pub count-found :
      (p q : A → Bool) (xs : List A) (a : A) → find q xs ≡ some a → tally (p a) ≤ count p xs
  count-found p q [] a e = ground arith
  count-found p q (x ∷ xs) a e = ground (arith, count-found p q xs a)

  pub count-and_comm :
      (p q : A → Bool) (xs : List A) → count (λ x. p x && q x) xs ≡ count (λ x. q x && p x) xs
  count-and_comm p q [] = refl
  count-and_comm p q (x ∷ xs) = ground (arith, count-and_comm p q xs)

  -- If a row that was found is the only one that passes a test, it decides how many of these pass
  -- another.
  pub count-only :
      (p q r : A → Bool) (xs : List A) (a : A)
      → find q xs ≡ some a
      → r a ≡ true
      → count r xs ≤ 1
      → count (λ x. p x && r x) xs ≡ tally (p a)
  count-only p q r xs a e holds only =
      let split = count-split r p xs in
      let swap = count-and_comm p r xs in
      let passed = count-found (λ x. r x && p x) q xs a e in
      let failed = count-found (λ x. r x && not (p x)) q xs a e in ground arith

  pub count-take-drop :
      (p : A → Bool) (n : ℕ) (xs : List A) → count p (take n xs) + count p (drop n xs) ≡ count p xs
  count-take-drop p zero xs = omega arith
  count-take-drop p (suc n) [] = omega arith
  count-take-drop p (suc n) (x ∷ xs) = omega (arith, count-take-drop p n xs)
