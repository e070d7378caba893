-- ===== src/Common/Counting.antt =====
-- Counting the elements of a list by a Boolean test, and adding up what each contributes.
use Prim.Native.Nat.{ℕ, zero, suc, ◌+◌, ◌*◌, ◌≤◌}
use mathlib.Core.Path.{◌≡◌, refl}
use mathlib.Core.Logic.{◌⊎◌, inl, inr}
use mathlib.Core.Bool.{Bool, true, false, not}
use mathlib.Core.List.{List, [], ◌∷◌, ◌++◌}
use mathlib.Core.Option.{some}
use native.Mathlib.Omega.{arith}
use saga_agents.Common.Lists.{length, get_elem?, set, all}
use saga_agents.Common.Tests.{Bool-cases, one_if}

module _ {ℓ} {A : Type ℓ} where
  -- How many elements pass a Boolean test.
  unfoldable pub tally : (A → Bool) → List A → ℕ
  tally p [] = 0
  tally p (x ∷ xs) = one_if (p x) + tally p xs

  pub tally-nil : (p : A → Bool) → tally p [] ≡ 0
  unfolding tally
  tally-nil p = refl

  pub tally-append : (p : A → Bool) (xs ys : List A) → tally p (xs ++ ys) ≡ tally p xs + tally p ys
  unfolding tally
  tally-append p [] ys = omega arith
  tally-append p (x ∷ xs) ys = omega (arith, tally-append p xs ys)

  pub tally-concat :
      (p : A → Bool) (xs : List A) (x : A) → tally p (xs ++ x ∷ []) ≡ tally p xs + one_if (p x)
  unfolding tally
  tally-concat p xs x = omega (arith, tally-append p xs (x ∷ []))

  -- Replacing one element moves the count by what the two elements contribute.
  pub tally-set :
      (p : A → Bool) (xs : List A) (i : ℕ) (x y : A)
      → get_elem? xs i ≡ some x
      → tally p (set xs i y) + one_if (p x) ≡ tally p xs + one_if (p y)
  unfolding tally
  tally-set p [] i x y h = ground arith
  tally-set p (z ∷ xs) zero x y h = ground arith
  tally-set p (z ∷ xs) (suc i) x y h = omega (arith, tally-set p xs i x y h)

  -- An implication of tests is an order of counts.
  pub tally_mono :
      (p q : A → Bool)
      → ((x : A) → p x ≡ true → q x ≡ true)
      → (xs : List A) → tally p xs ≤ tally q xs
  unfolding tally
  tally_mono p q h [] = omega arith
  tally_mono p q h (x ∷ xs) = ground (arith, h x, tally_mono p q h xs)

  -- Where all pass a test that excludes another, none is counted by the other.
  pub tally-eq-zero :
      (p q : A → Bool)
      → ((x : A) → q x ≡ true → p x ≡ false)
      → (xs : List A) → all q xs ≡ true
      → tally p xs ≡ 0
  unfolding tally
  tally-eq-zero p q h [] e = refl
  tally-eq-zero p q h (x ∷ xs) e = ground (arith, h x, tally-eq-zero p q h xs)

  -- A test that counts no element, or an element that it counts.
  pub tally-cases :
      (p : A → Bool) (xs : List A)
      → (tally p xs ≡ 0) ⊎ ((i : ℕ) × (x : A) × (get_elem? xs i ≡ some x) × (p x ≡ true))
  unfolding tally
  tally-cases p [] = inl refl
  tally-cases p (x ∷ xs) = elim (Bool-cases (p x)) [
    | inl is ↦ inr (0, x, refl, is)
    | inr is_not ↦ elim (tally-cases p xs) [
      | inl none_later ↦ inl (rw is_not (omega (arith, none_later)))
      | inr (i, y, at, is) ↦ inr (suc i, y, at, is)
    ]
  ]

  -- A test that implies one of two is counted by the two.
  pub tally-le-add :
      (p q r : A → Bool)
      → ((x : A) → p x ≡ true → (q x ≡ true) ⊎ (r x ≡ true))
      → (xs : List A) → tally p xs ≤ tally q xs + tally r xs
  unfolding tally
  tally-le-add p q r h [] = omega arith
  tally-le-add p q r h (x ∷ xs) = ground (arith, h x, tally-le-add p q r h xs)

  pub tally-zero_at :
      (p : A → Bool) (xs : List A) (i : ℕ) (x : A)
      → tally p xs ≡ 0
      → get_elem? xs i ≡ some x
      → p x ≡ false
  unfolding tally
  tally-zero_at p [] i x none_counted at = cc
  tally-zero_at p (y ∷ xs) zero x none_counted at = ground arith
  tally-zero_at p (y ∷ xs) (suc i) x none_counted at =
      tally-zero_at p xs i x (omega (arith, none_counted)) at

  pub all_of_tally : (p : A → Bool) (xs : List A) → tally (λ x. not (p x)) xs ≡ 0 → all p xs ≡ true
  unfolding tally
  all_of_tally p [] h = refl
  all_of_tally p (x ∷ xs) h = ground (arith, all_of_tally p xs)

  -- The sum of a measure over the elements.
  unfoldable pub total : (A → ℕ) → List A → ℕ
  total f [] = 0
  total f (x ∷ xs) = f x + total f xs

  pub total-set :
      (f : A → ℕ) (xs : List A) (i : ℕ) (x y : A)
      → get_elem? xs i ≡ some x
      → total f (set xs i y) + f x ≡ total f xs + f y
  unfolding total
  total-set f [] i x y h = ground arith
  total-set f (z ∷ xs) zero x y h = ground arith
  total-set f (z ∷ xs) (suc i) x y h = omega (arith, total-set f xs i x y h)

  pub total-concat : (f : A → ℕ) (xs : List A) (x : A) → total f (xs ++ x ∷ []) ≡ total f xs + f x
  unfolding total
  total-concat f [] x = omega arith
  total-concat f (y ∷ xs) x = omega (arith, total-concat f xs x)

  pub total-nil : (f : A → ℕ) → total f [] ≡ 0
  unfolding total
  total-nil f = refl

  pub total-le :
      (f : A → ℕ) (n : ℕ) → ((x : A) → f x ≤ n) → (xs : List A) → total f xs ≤ n * length xs
  unfolding total
  total-le f n h [] = omega arith
  total-le f n h (x ∷ xs) =
      let here = h x in let later = total-le f n h xs in omega (arith, here, later)
