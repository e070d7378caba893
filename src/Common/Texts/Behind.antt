-- ===== src/Common/Texts/Behind.antt =====
-- The texts that stand at the end of a text.
use Prim.Native.Nat.{◌≤◌}
use Prim.Native.Char.{Char}
use Prim.Native.String.{String, [], ◌∷◌}
use mathlib.Core.Path.{◌≡◌}
use mathlib.Core.Bool.{Bool, true, false}
use mathlib.Core.Option.{Option, none, some}
use native.Mathlib.Omega.{arith}
use saga_agents.Common.Tests.{if◌then◌else◌}
use saga_agents.Common.Texts.{is_eq_char, strip_prefix, span, count}

-- The second text stands at the end of the first.
pub data Behind : String → String → Type 0 where
  here : (s : String) → Behind s s
  there : (c : Char) (t s : String) → Behind t s → Behind (c ∷ t) s

pub beyond : {t s u : String} → Behind t s → Behind s u → Behind t u
beyond (here s) k = k
beyond (there c t s h) k = there c t _ (beyond h k)

pub count-Behind : {t s : String} → Behind t s → count s ≤ count t
unfolding count
count-Behind (here s) = ground arith
count-Behind (there c t s h) = let below = count-Behind h in omega arith

pub if-eq-some {ℓ} :
    {A : Type ℓ} (b : Bool) (o : Option A) {a : A} → (if b then o else none) ≡ some a → o ≡ some a
if-eq-some true o h = h
if-eq-some false o h = cc

pub strip_prefix-Behind : (p t s : String) → strip_prefix p t ≡ some s → Behind t s
unfolding strip_prefix
strip_prefix-Behind [] t s h = let same : t ≡ s = cc in rw same (here s)
strip_prefix-Behind (c ∷ p) [] s h = cc
strip_prefix-Behind (c ∷ p) (d ∷ t) s h =
    there d t s (strip_prefix-Behind p t s (if-eq-some (is_eq_char c d) (strip_prefix p t) h))

span_if-Behind :
    (b : Bool) (c : Char) (t u v : String)
    → Behind t v
    → Behind (c ∷ t) (if◌then◌else◌ {A = String × String} b (c ∷ u, v) ([], c ∷ t)).1
span_if-Behind true c t u v h = there c t v h
span_if-Behind false c t u v h = here (c ∷ t)

pub span-Behind : (p : Char → Bool) (t : String) → Behind t (span p t).1
unfolding span
span-Behind p [] = here []
span-Behind p (c ∷ t) = span_if-Behind (p c) c t _ _ (span-Behind p t)

pub strip_prefix-cons :
    (d : Char) (p : String) (c : Char) (t s : String)
    → strip_prefix (d ∷ p) (c ∷ t) ≡ some s
    → Behind t s
unfolding strip_prefix
strip_prefix-cons d p c t s h =
    strip_prefix-Behind p t s (if-eq-some (is_eq_char d c) (strip_prefix p t) h)
