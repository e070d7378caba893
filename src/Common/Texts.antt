-- ===== src/Common/Texts.antt =====
-- Reading a text from the front, as the regular expressions and the slices of the source do.
pub mod Behind
pub mod Parts
use Prim.Native.Nat.{ℕ, suc, compare as compare_ℕ, Ordering}
use Prim.Native.Char.{Char, code}
use Prim.Native.String.{String, [], ◌∷◌}
use mathlib.Core.Bool.{Bool, true, false, ◌&&◌, ◌||◌}
use mathlib.Core.Option.{Option, none, some}
use saga_agents.Common.Tests.{leb, if◌then◌else◌}

abbrev pub is_eq_char : Char → Char → Bool
is_eq_char c d = elim (compare_ℕ (code c) (code d)) [ Ordering.eq ↦ true | _ ↦ false ]

abbrev pub between : ℕ → ℕ → Char → Bool
between a b c = leb a (code c) && leb (code c) b

-- \s of a `str` pattern
abbrev pub is_space : Char → Bool
is_space c =
    between 9 13 c
    || between 28 32 c
    || between 133 133 c
    || between 160 160 c
    || between 5760 5760 c
    || between 8192 8202 c
    || between 8232 8233 c
    || between 8239 8239 c
    || between 8287 8287 c
    || between 12288 12288 c

-- The text behind a fixed one that it begins with.
unfoldable pub strip_prefix : String → String → Option String
strip_prefix [] t = some t
strip_prefix (c ∷ s) [] = none
strip_prefix (c ∷ s) (d ∷ t) = if is_eq_char c d then strip_prefix s t else none

-- The longest prefix of characters that pass, and the text behind it.
unfoldable pub span : (Char → Bool) → String → String × String
span p [] = ([], [])
span p (c ∷ s) = let rest = span p s in if p c then (c ∷ rest.0, rest.1) else ([], c ∷ s)

-- The number of characters.
unfoldable pub count : String → ℕ
count [] = 0
count (c ∷ s) = suc (count s)
