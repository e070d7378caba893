-- ===== src/Common/Lists.antt =====
-- Lists over the native numbers, under the library's names.
use Prim.Native.Nat.{ℕ, zero, suc}
use mathlib.Core.Path.{◌≡◌, refl, ap, sym, ◌∙◌}
use mathlib.Core.Logic.{◌≢◌, ◌⊎◌, inl, inr}
use native.Mathlib.Decide.{ℕ_discrete}
use Prim.Native.String.{String}
use mathlib.Core.Bool.{Bool, true, false, not, ◌&&◌, ◌||◌}
use mathlib.Core.Logic.Or
use mathlib.Core.List.{List, [], ◌∷◌, ◌++◌, map, Mem, mem-cons}
use mathlib.Core.Option.{Option, none, some}
use native.Mathlib.Omega.{arith}
use text.Mathlib.Text.{◌==◌}
use text.Mathlib.TextEquality.{eq_iff}
use saga_agents.Common.Tests.{if◌then◌else◌}

module _ {ℓ} {A : Type ℓ} where
  abbrev pub length : List A → ℕ
  length [] = 0
  length (x ∷ xs) = suc (length xs)

  abbrev pub get_elem? : List A → ℕ → Option A
  get_elem? [] i = none
  get_elem? (x ∷ xs) zero = some x
  get_elem? (x ∷ xs) (suc i) = get_elem? xs i

  abbrev pub set : List A → ℕ → A → List A
  set [] i v = []
  set (x ∷ xs) zero v = v ∷ xs
  set (x ∷ xs) (suc i) v = x ∷ set xs i v

  -- The elements that pass a Boolean test, in order.
  abbrev pub select : (A → Bool) → List A → List A
  select p [] = []
  select p (x ∷ xs) = if p x then x ∷ select p xs else select p xs

  abbrev pub all : (A → Bool) → List A → Bool
  all p [] = true
  all p (x ∷ xs) = p x && all p xs

  pub get_elem?-set_self :
      (xs : List A) (i : ℕ) (x v : A) → get_elem? xs i ≡ some x → get_elem? (set xs i v) i ≡ some v
  get_elem?-set_self [] i x v h = ground arith
  get_elem?-set_self (y ∷ xs) zero x v h = refl
  get_elem?-set_self (y ∷ xs) (suc i) x v h = get_elem?-set_self xs i x v h

  pub get_elem?-set_ne :
      (xs : List A) (i j : ℕ) (v : A) → i ≢ j → get_elem? (set xs i v) j ≡ get_elem? xs j
  get_elem?-set_ne [] i j v h = refl
  get_elem?-set_ne (x ∷ xs) zero zero v h = absurd (h refl)
  get_elem?-set_ne (x ∷ xs) zero (suc j) v h = refl
  get_elem?-set_ne (x ∷ xs) (suc i) zero v h = refl
  get_elem?-set_ne (x ∷ xs) (suc i) (suc j) v h = get_elem?-set_ne xs i j v (λ e. h (ap suc e))

pub get_elem?-map {ℓ κ} :
    {A : Type ℓ} {B : Type κ} (f : A → B) (xs : List A) (i : ℕ) (x : A)
    → get_elem? xs i ≡ some x
    → get_elem? (map f xs) i ≡ some (f x)
get_elem?-map f [] i x h = cc
get_elem?-map f (y ∷ xs) zero x h = ground arith
get_elem?-map f (y ∷ xs) (suc i) x h = get_elem?-map f xs i x h

module _ {ℓ} {A : Type ℓ} where
  pub get_elem?-append :
      (xs : List A) (y : A) (ys : List A) → get_elem? (xs ++ y ∷ ys) (length xs) ≡ some y
  get_elem?-append [] y ys = refl
  get_elem?-append (x ∷ xs) y ys = get_elem?-append xs y ys

  pub get_elem?-end : (xs : List A) → get_elem? xs (length xs) ≡ none
  get_elem?-end [] = refl
  get_elem?-end (x ∷ xs) = get_elem?-end xs

  pub set-append :
      (xs : List A) (y v : A) (ys : List A) → set (xs ++ y ∷ ys) (length xs) v ≡ xs ++ v ∷ ys
  set-append [] y v ys = refl
  set-append (x ∷ xs) y v ys = ap (◌∷◌ x) (set-append xs y v ys)

  pub length-concat : (xs : List A) (y : A) → length (xs ++ y ∷ []) ≡ suc (length xs)
  length-concat [] y = refl
  length-concat (x ∷ xs) y = ap suc (length-concat xs y)

  -- What stands at a place after a write: what was written, or what stood there before.
  pub get_elem?-set_cases :
      (xs : List A) (i j : ℕ) (x v y : A)
      → get_elem? xs i ≡ some x
      → get_elem? (set xs i v) j ≡ some y
      → ((i ≡ j) × (y ≡ v)) ⊎ ((i ≢ j) × (get_elem? xs j ≡ some y))
  get_elem?-set_cases xs i j x v y at h = elim (ℕ_discrete i j) [
    | yes e ↦ inl (e, cc (get_elem?-set_self xs i x v at, e))
    | no ne ↦ inr (ne, sym (get_elem?-set_ne xs i j v ne) ∙ h)
  ]

  -- What stands at a place after one more element came at the end.
  pub get_elem?-concat_cases :
      (xs : List A) (j : ℕ) (v y : A)
      → get_elem? (xs ++ v ∷ []) j ≡ some y
      → (get_elem? xs j ≡ some y) ⊎ (y ≡ v)
  get_elem?-concat_cases [] zero v y h = inr (cc)
  get_elem?-concat_cases [] (suc j) v y h = inl h
  get_elem?-concat_cases (x ∷ xs) zero v y h = inl h
  get_elem?-concat_cases (x ∷ xs) (suc j) v y h = get_elem?-concat_cases xs j v y h

-- What holds of every element.
abbrev pub All {ℓ κ} : {A : Type ℓ} → (A → Type κ) → List A → Type κ
All P [] = Unit
All P (x ∷ xs) = P x × All P xs

pub All-of_mem {ℓ κ} :
    {A : Type ℓ} (P : A → Type κ) (xs : List A) → ((x : A) → Mem x xs → P x) → All P xs
All-of_mem P [] h = tt
All-of_mem P (x ∷ xs) h =
    (h x (mem-cons.1 (Or.inl refl)), All-of_mem P xs (λ y m. h y (mem-cons.1 (Or.inr m))))

-- `t in xs`, of a list or a set of texts
unfoldable pub contains : String → List String → Bool
contains t [] = false
contains t (x ∷ xs) = x == t || contains t xs

-- `names - hidden`
unfoldable pub without : List String → List String → List String
without hidden [] = []
without hidden (name ∷ names) =
    let rest = without hidden names in if contains name hidden then rest else name ∷ rest

pub contains-without :
    (name : String) (hidden names : List String)
    → contains name (without hidden names) ≡ contains name names && not (contains name hidden)
unfolding contains without
contains-without name hidden [] = refl
contains-without name hidden (x ∷ names) =
    let ih = contains-without name hidden names in ground (arith, eq_iff x name, contains)

module _ {ℓ κ} {A : Type ℓ} (P : A → Type κ) where
  pub All-append : (xs ys : List A) → All P xs → All P ys → All P (xs ++ ys)
  All-append [] ys h k = k
  All-append (x ∷ xs) ys h k = (h.0, All-append xs ys h.1 k)

  pub All-mono : (Q : A → Type κ) → ((x : A) → P x → Q x) → (xs : List A) → All P xs → All Q xs
  All-mono Q imp [] h = tt
  All-mono Q imp (x ∷ xs) h = (imp x h.0, All-mono Q imp xs h.1)

  pub All-if :
      (b : Bool) (xs ys : List A) → (b ≡ true → All P xs) → All P ys → All P (if b then xs else ys)
  All-if true xs ys h k = h refl
  All-if false xs ys h k = k
