-- ===== src/Common/Texts/Parts.antt =====
-- A text and its parts: what stands behind a fixed beginning, and behind the characters that pass.
use Prim.Native.Char.{Char, code}
use Prim.Native.String.{String, [], ◌∷◌, ◌++◌}
use Prim.Native.String.append
use text.Mathlib.TextEquality.{Char-path}
use mathlib.Core.Path.{◌≡◌, refl, sym, ap, ◌∙◌}
use mathlib.Core.Logic.{inl, inr}
use mathlib.Core.Bool.{Bool, true, false, not, ◌&&◌}
use mathlib.Core.Option.{none, some}
use native.Mathlib.Omega.{arith}
use saga_agents.Common.Tests.{if◌then◌else◌, Bool-cases}
use saga_agents.Common.Texts.{is_eq_char, strip_prefix, span}

pub append_assoc : (s t u : String) → (s ++ t) ++ u ≡ s ++ (t ++ u)
append_assoc [] t u = ap (λ x. x ++ u) (append.nil t) ∙ sym (append.nil (t ++ u))
append_assoc (c ∷ s) t u =
    ap (λ x. x ++ u) (append.cons c s t)
    ∙ append.cons c (s ++ t) u
    ∙ ap (λ x. c ∷ x) (append_assoc s t u)
    ∙ sym (append.cons c s (t ++ u))

pub is_eq_char-path : (c d : Char) → is_eq_char c d ≡ true → c ≡ d
is_eq_char-path c d h = let same : code c ≡ code d = ground arith in Char-path c d same

pub is_eq_char_self : (c : Char) → is_eq_char c c ≡ true
is_eq_char_self c = ground arith

strip_prefix-cons :
    (b : Bool) (p t s : String)
    → (if b then strip_prefix p t else none) ≡ some s
    → (b ≡ true) × (strip_prefix p t ≡ some s)
strip_prefix-cons true p t s h = (refl, h)
strip_prefix-cons false p t s h = cc

pub strip_prefix_sound : (p t s : String) → strip_prefix p t ≡ some s → t ≡ p ++ s
unfolding strip_prefix
strip_prefix_sound [] t s h = let same : t ≡ s = cc in same ∙ sym (append.nil s)
strip_prefix_sound (c ∷ p) [] s h = cc
strip_prefix_sound (c ∷ p) (d ∷ t) s h =
    let (same, rest) = strip_prefix-cons (is_eq_char c d) p t s h in
    rw (append.cons c p s, is_eq_char-path c d same, strip_prefix_sound p t s rest)

pub strip_prefix-append : (p s : String) → strip_prefix p (p ++ s) ≡ some s
unfolding strip_prefix
strip_prefix-append [] s = ap some (append.nil s)
strip_prefix-append (c ∷ p) s =
    rw (append.cons c p s) (rw (is_eq_char_self c) (strip_prefix-append p s))

-- Every character passes.
unfoldable pub all_chars : (Char → Bool) → String → Bool
all_chars p [] = true
all_chars p (c ∷ s) = let rest = all_chars p s in p c && rest

-- The text does not go on with a character that passes.
abbrev pub stops : (Char → Bool) → String → Bool
stops p [] = true
stops p (c ∷ s) = not (p c)

pub span_sound :
    (p : Char → Bool) (t : String)
    → (t ≡ (span p t).0 ++ (span p t).1) × (all_chars p (span p t).0 ≡ true)
unfolding span all_chars
span_sound p [] = (sym (append.nil []), refl)
span_sound p (c ∷ t) = elim (Bool-cases (p c)) [
  | inl passes ↦
      let (whole, all) = span_sound p t in
      rw passes
        (ap (λ x. c ∷ x) whole ∙ sym (append.cons c (span p t).0 (span p t).1), rw passes all)
  | inr fails ↦ rw fails (sym (append.nil (c ∷ t)), refl)
]

span_stop : (p : Char → Bool) (v : String) → stops p v ≡ true → span p v ≡ ([], v)
unfolding span
span_stop p [] h = refl
span_stop p (c ∷ v) h = let fails : p c ≡ false = ground arith in rw fails

pub span-append :
    (p : Char → Bool) (u v : String)
    → all_chars p u ≡ true
    → stops p v ≡ true
    → span p (u ++ v) ≡ (u, v)
unfolding span all_chars
span-append p [] v all stop = ap (span p) (append.nil v) ∙ span_stop p v stop
span-append p (c ∷ u) v all stop =
    let passes : p c ≡ true = ground arith in
    let later : all_chars p u ≡ true = ground arith in
    let ih = span-append p u v later stop in rw (append.cons c u v) (rw (passes, ih))
