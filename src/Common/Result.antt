-- ===== src/Common/Result.antt =====
-- A call that returns or raises; what is raised carries the text of `str(exc)`.
use Prim.Native.String.{String}
use mathlib.Core.Path.{◌≡◌, refl}
use mathlib.Core.Logic.{◌⊎◌, inl, inr}

pub data Result {ℓ} (A : Type ℓ) : Type ℓ where
  returned : A → Result A
  raised : String → Result A

infixl 5 ◌>>=◌
abbrev pub ◌>>=◌ {ℓ κ} : {A : Type ℓ} {B : Type κ} → Result A → (A → Result B) → Result B
returned a >>= f = f a
raised e >>= f = raised e

-- The parts of a chain that returned.
pub bind-eq-returned {ℓ κ} :
    {A : Type ℓ} {B : Type κ} (m : Result A) (f : A → Result B) {b : B}
    → (m >>= f) ≡ returned b
    → (a : A) × (m ≡ returned a) × (f a ≡ returned b)
bind-eq-returned (returned a) f h = (a, refl, h)
bind-eq-returned (raised e) f h = cc

-- An `await` returns, raises an Exception, or is cancelled: a CancelledError is no Exception, so that
-- `except Exception` lets it through.
pub data Awaited {ℓ} (A : Type ℓ) : Type ℓ where
  completes : A → Awaited A
  fails : String → Awaited A
  is_cancelled : Awaited A

pub Awaited-cases {ℓ} :
    {A : Type ℓ} (x : Awaited A)
    → ((a : A) × (x ≡ completes a)) ⊎ (((e : String) × (x ≡ fails e)) ⊎ (x ≡ is_cancelled))
Awaited-cases (completes a) = inl (a, refl)
Awaited-cases (fails e) = inr (inl (e, refl))
Awaited-cases is_cancelled = inr (inr refl)
