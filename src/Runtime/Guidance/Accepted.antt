-- ===== src/Runtime/Guidance/Accepted.antt =====
-- Which prompts `validate_placeholders` of src/saga_agents/runtime/guidance.py accepts.
use Prim.Native.Char.{Char}
use Prim.Native.String.{String, ◌∷◌}
use mathlib.Core.Path.{subst}
use saga_agents.Common.{
  ◌≡◌, ◌↔◌, ◌∙◌, refl, sym, arith, true, List, Option, some, inl, contains, All,
}
use saga_agents.Common.Scan.{Segment, captures, Splits, ends, steps, matches, segments-Splits}
use saga_agents.Runtime.Guidance.{
  guidance_keys, match_placeholder, referenced_keys, unknown_keys, validate_placeholders,
}
use saga_agents.Runtime.Guidance.Placeholders.{placeholder-IsPattern, All-known}
use saga_agents.Runtime.Guidance.Substitution.{
  IsPlaceholder, match_placeholder_iff, no-IsPlaceholder,
}

-- A placeholder with the key stands in the text, where placeholders are read from left to right.
pub data References (key : String) : String → Type 0 where
  found : (t s : String) → IsPlaceholder t key s → References key t
  later : (t other s : String) → IsPlaceholder t other s → References key s → References key t
  onward :
      (c : Char) (s : String)
      → ((other rest : String) → ¬ IsPlaceholder (c ∷ s) other rest)
      → References key s
      → References key (c ∷ s)

-- At a place where the pattern matches, there is one placeholder.
one_match :
    (t key s other rest : String)
    → match_placeholder t ≡ some (key, s)
    → IsPlaceholder t other rest
    → (key ≡ other) × (s ≡ rest)
one_match t key s other rest e p =
    let e' = (match_placeholder_iff t other rest).1 p in
    let one : ◌≡◌ {A = Option (String × String)} (some (key, s)) (some (other, rest)) =
      sym e ∙ e' in
    (cc, cc)

module _ (P : String → Type 0) where
  All-captures :
      (t : String) (split : List (Segment String))
      → Splits match_placeholder t split
      → All P (captures split)
      → (key : String) → References key t
      → P key
  unfolding captures
  All-captures _ _ ends all key (found t s p) =
      let e = (match_placeholder_iff "" key s).1 p in cc (placeholder-IsPattern.match_nil, e)
  All-captures _ _ ends all key (later t other s p h) =
      let e = (match_placeholder_iff "" other s).1 p in cc (placeholder-IsPattern.match_nil, e)
  All-captures _ _ (steps c s rest e k) all key (found t s' p) =
      let e' = (match_placeholder_iff (c ∷ s) key s').1 p in cc (e, e')
  All-captures _ _ (steps c s rest e k) all key (later t other s' p h) =
      let e' = (match_placeholder_iff (c ∷ s) other s').1 p in cc (e, e')
  All-captures _ _ (steps c s rest e k) all key (onward _ _ free h) =
      All-captures s rest k all key h
  All-captures _ _ (matches t s k rest e h) (now, all) key (found _ s' p) =
      let (same, behind) = one_match t k s key s' e p in subst P same now
  All-captures _ _ (matches t s k rest e h) (now, all) key (later _ other s' p r) =
      let (same, behind) = one_match t k s other s' e p in
      All-captures s rest h all key (subst (References key) (sym behind) r)
  All-captures _ _ (matches t s k rest e h) (now, all) key (onward c s' free r) =
      absurd (free k s ((match_placeholder_iff (c ∷ s') k s).0 e))

  captures-All :
      (t : String) (split : List (Segment String))
      → Splits match_placeholder t split
      → ((key : String) → References key t → P key)
      → All P (captures split)
  unfolding captures
  captures-All _ _ ends h = tt
  captures-All _ _ (steps c s rest e k) h =
      captures-All s rest k (λ key r. h key (onward c s (no-IsPlaceholder (c ∷ s) e) r))
  captures-All _ _ (matches t s k rest e splits) h =
      let p = (match_placeholder_iff t k s).0 e in
      (h k (found t s p), captures-All s rest splits (λ key r. h key (later t k s p r)))

accepted_iff :
    (t : String) → (validate_placeholders t ≡ inl tt) ↔ (unknown_keys (referenced_keys t) ≡ List.[])
unfolding validate_placeholders
accepted_iff t = (λ h. ground arith, λ h. rw (h, validate_placeholders) refl)

-- `validate_placeholders` accepts a prompt exactly if each placeholder in it, read from left to right,
-- has a key of GUIDANCE_KEYS.
pub validate_placeholders_iff :
    (t : String)
    → (validate_placeholders t ≡ inl tt)
      ↔ ((key : String) → References key t → contains key guidance_keys ≡ true)
unfolding referenced_keys
validate_placeholders_iff t =
    let splits = segments-Splits match_placeholder placeholder-IsPattern t in
    let Known : String → Type 0 = λ key. contains key guidance_keys ≡ true in
    (
      λ h. All-captures Known t _ splits ((All-known _).0 ((accepted_iff t).0 h)),
      λ h. (accepted_iff t).1 ((All-known _).1 (captures-All Known t _ splits h)),
    )
