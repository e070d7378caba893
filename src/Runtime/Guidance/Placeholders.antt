-- ===== src/Runtime/Guidance/Placeholders.antt =====
-- Placeholders: how a text is split, and what `validate_placeholders` says of `substitute`.
use Prim.Native.Char.{Char}
use Prim.Native.String.{String, ◌∷◌}
use saga_agents.Common.{
  ◌==◌, ◌≡◌, ◌↔◌, refl, sym, ap, Bool, true, false, List, Option, none, some, if◌then◌else◌,
  contains, All, inl, inr, Bool-cases,
}
use saga_agents.Common.Dict.{Dict}
use saga_agents.Common.Texts.{is_space, strip_prefix, span}
use saga_agents.Common.Texts.Behind.{
  Behind, beyond, strip_prefix-Behind, span-Behind, strip_prefix-cons,
}
use saga_agents.Common.Scan.{
  Segment, plain, match, segments, captures, Splits, ends, steps, matches, IsPattern,
  segments-Splits,
}
use saga_agents.Common.{arith}
use saga_agents.Runtime.Guidance.{
  guidance_keys, is_key_char, closed, keyed, opened, match_placeholder, referenced_keys,
  unknown_keys, validate_placeholders, value_of, filled, substitute,
}

rest_of :
    (b : Bool) (key rest k s : String) {u : String}
    → if◌then◌else◌ {A = Option (String × String)} b none (some (key, rest)) ≡ some (k, s)
    → Behind u rest
    → Behind u s
rest_of true key rest k s h behind = cc
rest_of false key rest k s h behind = let same : rest ≡ s = cc in rw (sym same) behind

closed-Behind :
    (key k s u : String) (o : Option String)
    → ((rest : String) → o ≡ some rest → Behind u rest)
    → closed key o ≡ some (k, s)
    → Behind u s
closed-Behind key k s u none behind h = cc
closed-Behind key k s u (some rest) behind h = rest_of (key == "") key rest k s h (behind rest refl)

keyed-Behind :
    (k s u : String) (o : Option String)
    → ((t : String) → o ≡ some t → Behind u t)
    → keyed o ≡ some (k, s)
    → Behind u s
keyed-Behind k s u none behind h = cc
keyed-Behind k s u (some t) behind h =
    let rest : String = (span is_key_char t).1 in
    closed-Behind (span is_key_char t).0 k s u (strip_prefix "}}" (span is_space rest).1)
      (λ end e. beyond (behind t refl) (
        beyond (span-Behind is_key_char t)
          (beyond (span-Behind is_space rest) (strip_prefix-Behind "}}" _ end e))))
      h

opened-Behind :
    (k s u : String) (o : Option String)
    → ((t : String) → o ≡ some t → Behind u t)
    → opened o ≡ some (k, s)
    → Behind u s
opened-Behind k s u none behind h = cc
opened-Behind k s u (some t) behind h =
    keyed-Behind k s u (strip_prefix "saga." (span is_space t).1)
      (λ v e.
        beyond (behind t refl)
          (beyond (span-Behind is_space t) (strip_prefix-Behind "saga." _ v e)))
      h

match_placeholder-Behind :
    (c : Char) (t key s : String) → match_placeholder (c ∷ t) ≡ some (key, s) → Behind t s
unfolding match_placeholder
match_placeholder-Behind c t key s h =
    opened-Behind key s t (strip_prefix "{{" (c ∷ t)) (λ u e. strip_prefix-cons _ _ c t u e) h

pub placeholder-IsPattern : IsPattern match_placeholder
unfolding match_placeholder strip_prefix
placeholder-IsPattern = record { match_nil = refl; match-Behind = match_placeholder-Behind }

unchanged_if :
    (t : String) (split : List (Segment String)) (guidance : Dict String)
    → Splits match_placeholder t split
    → captures split ≡ List.[]
    → filled guidance split ≡ t
unfolding captures filled
unchanged_if _ _ guidance ends h = refl
unchanged_if _ _ guidance (steps c s rest e k) h =
    ap (λ x. c ∷ x) (unchanged_if s rest guidance k h)
unchanged_if _ _ guidance (matches t s key rest e k) h = cc

-- A text that references no key is what `substitute` makes of it, whatever the guidance: the prompt
-- that `_resolve_system_prompt` passes on without asking for the guidance.
substitute_unchanged :
    (t : String) (guidance : Dict String) → referenced_keys t ≡ List.[] → substitute t guidance ≡ t
unfolding referenced_keys substitute
substitute_unchanged t guidance h =
    unchanged_if t (segments match_placeholder t) guidance
      (segments-Splits match_placeholder placeholder-IsPattern t) h

filled-agree :
    (a b : Dict String) (split : List (Segment String))
    → All (λ key. value_of a key ≡ value_of b key) (captures split)
    → filled a split ≡ filled b split
unfolding filled captures
filled-agree a b List.[] h = refl
filled-agree a b (List.◌∷◌ (plain c) rest) h = ap (λ x. c ∷ x) (filled-agree a b rest h)
filled-agree a b (List.◌∷◌ (match key) rest) (same, later) = rw (same, filled-agree a b rest later)

pub All-known :
    (keys : List String)
    → (unknown_keys keys ≡ List.[]) ↔ All (λ key. contains key guidance_keys ≡ true) keys
unfolding unknown_keys
All-known List.[] = (λ h. tt, λ h. refl)
All-known (List.◌∷◌ key keys) =
    let ih = All-known keys in
    elim (Bool-cases (contains key guidance_keys)) [
      | inl known ↦ rw known (λ h. (refl, ih.0 h), λ h. ih.1 h.1)
      | inr unknown ↦ rw unknown (λ h. cc, λ h. cc (h.0))
    ]

accepted :
    (t : String)
    → validate_placeholders t ≡ inl tt
    → unknown_keys (captures (segments match_placeholder t)) ≡ List.[]
unfolding validate_placeholders referenced_keys
accepted t h = ground arith

All-map_imp :
    {P Q : String → Type 0} (keys : List String)
    → ((key : String) → P key → Q key)
    → All P keys
    → All Q keys
All-map_imp List.[] f h = tt
All-map_imp (List.◌∷◌ key keys) f (h, hs) = (f key h, All-map_imp keys f hs)

-- Two guidances that agree on the keys of GUIDANCE_KEYS give the same text, where
-- `validate_placeholders` accepts it.
substitute_validated :
    (t : String) (a b : Dict String)
    → validate_placeholders t ≡ inl tt
    → ((key : String) → contains key guidance_keys ≡ true → value_of a key ≡ value_of b key)
    → substitute t a ≡ substitute t b
unfolding substitute referenced_keys
substitute_validated t a b h agree =
    filled-agree a b (segments match_placeholder t)
      (All-map_imp (captures (segments match_placeholder t)) agree ((All-known _).0 (accepted t h)))
