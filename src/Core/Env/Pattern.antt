-- ===== src/Core/Env/Pattern.antt =====
-- A match of _ENV_PATTERN takes characters from the front, so that a text is split by its matches.
use Prim.Native.Char.{Char}
use Prim.Native.String.{String, [], ◌∷◌}
use saga_agents.Common.{◌≡◌, refl, sym, Bool, true, false, Option, none, some, if◌then◌else◌}
use saga_agents.Common.Scan.{IsPattern}
use saga_agents.Common.Texts.{strip_prefix, span}
use saga_agents.Common.Texts.Behind.{
  Behind, beyond, strip_prefix-Behind, span-Behind, strip_prefix-cons,
}
use saga_agents.Core.Env.{
  Token, starts_name, in_name, in_default, token_ends, default_or_end, named, match_token,
}

token_ends-Behind :
    (name : String) (default : Option String) (u : String) (o : Option String) (token : Token)
    (s : String)
    → ((rest : String) → o ≡ some rest → Behind u rest)
    → token_ends name default o ≡ some (token, s)
    → Behind u s
token_ends-Behind name default u none token s behind h = cc
token_ends-Behind name default u (some rest) token s behind h =
    let same : rest ≡ s = cc in rw (sym same) (behind rest refl)

default_or_end-Behind :
    (name t u : String) (o : Option String) (token : Token) (s : String)
    → Behind u t
    → ((rest : String) → o ≡ some rest → Behind t rest)
    → default_or_end name t o ≡ some (token, s)
    → Behind u s
default_or_end-Behind name t u none token s below behind h =
    token_ends-Behind name none u (strip_prefix "}" t) token s
      (λ rest e. beyond below (strip_prefix-Behind "}" t rest e)) h
default_or_end-Behind name t u (some v) token s below behind h =
    token_ends-Behind name (some (span in_default v).0) u (strip_prefix "}" (span in_default v).1)
      token s
      (λ rest e. beyond below (
        beyond (behind v refl)
          (beyond (span-Behind in_default v) (strip_prefix-Behind "}" _ rest e))))
      h

if-none {ℓ} :
    {A : Type ℓ} (b : Bool) (o : Option A) {a : A} → (if b then o else none) ≡ some a → o ≡ some a
if-none true o h = h
if-none false o h = cc

named-Behind :
    (u : String) (o : Option String) (token : Token) (s : String)
    → ((t : String) → o ≡ some t → Behind u t)
    → named o ≡ some (token, s)
    → Behind u s
named-Behind u none token s behind h = cc
named-Behind u (some []) token s behind h = cc
named-Behind u (some (c ∷ t)) token s behind h =
    let name : String = (span in_name (c ∷ t)).0 in
    let rest : String = (span in_name (c ∷ t)).1 in
    default_or_end-Behind name rest u (strip_prefix ":-" rest) token s
      (beyond (behind (c ∷ t) refl) (span-Behind in_name (c ∷ t)))
      (λ v e. strip_prefix-Behind ":-" rest v e)
      (if-none (starts_name c) (default_or_end name rest (strip_prefix ":-" rest)) h)

match_token-Behind :
    (c : Char) (t : String) (token : Token) (s : String)
    → match_token (c ∷ t) ≡ some (token, s)
    → Behind t s
unfolding match_token
match_token-Behind c t token s h =
    named-Behind t (strip_prefix "${" (c ∷ t)) token s (λ u e. strip_prefix-cons _ _ c t u e) h

pub token-IsPattern : IsPattern match_token
unfolding match_token strip_prefix
token-IsPattern = record { match_nil = refl; match-Behind = match_token-Behind }
