-- ===== src/Runtime/Guidance/Substitution.antt =====
-- `substitute` of src/saga_agents/runtime/guidance.py, and the placeholders that it takes.
use Prim.Native.Char.{Char}
use Prim.Native.String.{String, [], ◌∷◌, ◌++◌}
use Prim.Native.String.append
use saga_agents.Common.{
  ◌==◌, eq_iff, ◌≡◌, ◌≢◌, ◌↔◌, ◌⊎◌, ◌∙◌, refl, sym, ap, arith, Bool, true, not, ◌||◌, List, Option,
  none, some, inl, inr, Bool-cases, Option-cases,
}
use saga_agents.Common.Dict.{Dict, lookup}
use saga_agents.Common.Texts.{is_space, strip_prefix, span, between}
use saga_agents.Common.Texts.Parts.{
  all_chars, stops, span_sound, span-append, strip_prefix_sound, strip_prefix-append,
}
use saga_agents.Common.Scan.{
  Segment, plain, match, Splits, ends, steps, matches, Splits-iff, segments-Splits,
}
use saga_agents.Runtime.Guidance.{
  is_key_char, closed, keyed, opened, match_placeholder, value_of, filled, substitute,
}
use saga_agents.Runtime.Guidance.Placeholders.{placeholder-IsPattern}

-- a to z, and the underscore
abbrev pub is_letter : Char → Bool
is_letter c = between 97 122 c || between 95 95 c

-- `{{`, spaces, `saga.`, a key of one or more letters, spaces, `}}`, and then the text behind.
pub record IsPlaceholder (t key s : String) : Type 0 where
  pub first : String
  pub second : String
  pub whole : t ≡ "{{" ++ (first ++ ("saga." ++ (key ++ (second ++ ("}}" ++ s)))))
  pub first_spaces : all_chars is_space first ≡ true
  pub second_spaces : all_chars is_space second ≡ true
  pub letters : all_chars is_letter key ≡ true
  pub nonempty : key ≢ ""

closed_sound :
    (key k s : String) (o : Option String)
    → closed key o ≡ some (k, s)
    → (o ≡ some s) × (key ≡ k) × (k ≢ "")
closed_sound key k s none h = cc
closed_sound key k s (some rest) h = elim (Bool-cases (key == "")) [
  | inl empty ↦ let bad = rw empty at h in cc (bad)
  | inr full ↦
      let taken = rw full at h in
      let same : key ≡ k = cc in
      let behind : rest ≡ s = cc in
      (ap some behind, same, λ e. cc (full, (eq_iff key "").1 (same ∙ e)))
]

keyed_sound :
    (k s : String) (o : Option String)
    → keyed o ≡ some (k, s)
    → (second : String) × (o ≡ some (k ++ (second ++ ("}}" ++ s))))
      × (all_chars is_space second ≡ true)
      × (all_chars is_key_char k ≡ true)
      × (k ≢ "")
keyed_sound k s none h = cc
keyed_sound k s (some t) h =
    let rest : String = (span is_key_char t).1 in
    let (braces, same, full) =
      closed_sound (span is_key_char t).0 k s (strip_prefix "}}" (span is_space rest).1) h in
    let (whole, letters) = span_sound is_key_char t in
    let (spaced, spaces) = span_sound is_space rest in
    let behind = strip_prefix_sound "}}" (span is_space rest).1 s braces in
    (
      (span is_space rest).0,
      ap some (
          whole
          ∙ ap (λ x. x ++ rest) same
          ∙ ap (λ x. k ++ x) (spaced ∙ ap (λ x. (span is_space rest).0 ++ x) behind)),
      spaces,
      ap (all_chars is_key_char) (sym same) ∙ letters,
      full,
    )

opened_sound :
    (t k s : String) (o : Option String)
    → o ≡ strip_prefix "{{" t
    → opened o ≡ some (k, s)
    → IsPlaceholder t k s
opened_sound t k s none e h = cc
opened_sound t k s (some u) e h =
    let after = (span is_space u).1 in
    let (second, at, spaces, letters, full) = keyed_sound k s (strip_prefix "saga." after) h in
    let (spaced, first_spaces) = span_sound is_space u in
    record {
      first = (span is_space u).0;
      second = second;
      whole =
          strip_prefix_sound "{{" t u (sym e)
          ∙ ap (λ x. "{{" ++ x)
              (spaced ∙ ap (λ x. (span is_space u).0 ++ x) (strip_prefix_sound "saga." after _ at));
      first_spaces = first_spaces;
      second_spaces = spaces;
      letters = letters;
      nonempty = full;
    }

stops-append : (p : Char → Bool) (u v : String) → u ≢ "" → stops p (u ++ v) ≡ stops p u
stops-append p [] v full = absurd (full refl)
stops-append p (c ∷ u) v full = ap (stops p) (append.cons c u v)

stops-saga : (s : String) → stops is_space ("saga." ++ s) ≡ true
stops-saga s = stops-append is_space "saga." s (λ e. cc)

stops-braces : (s : String) → stops is_space ("}}" ++ s) ≡ true
stops-braces s = stops-append is_space "}}" s (λ e. cc)

not_key : (c : Char) → is_space c ≡ true → not (is_key_char c) ≡ true
not_key c h = ground arith

stops-second :
    (second s : String)
    → all_chars is_space second ≡ true
    → stops is_key_char (second ++ ("}}" ++ s)) ≡ true
unfolding all_chars
stops-second [] s h =
    ap (stops is_key_char) (append.nil ("}}" ++ s)) ∙ stops-append is_key_char "}}" s (λ e. cc)
stops-second (c ∷ second) s h =
    ap (stops is_key_char) (append.cons c second ("}}" ++ s)) ∙ not_key c (ground arith)

closed_full : (key s : String) → key ≢ "" → closed key (some s) ≡ some (key, s)
closed_full key s full = elim (Bool-cases (key == "")) [
  | inl empty ↦ absurd (full ((eq_iff key "").0 empty))
  | inr other ↦ rw other
]

complete : (t key s : String) → IsPlaceholder t key s → match_placeholder t ≡ some (key, s)
unfolding match_placeholder
complete t key s p =
    let behind : String = p.second ++ ("}}" ++ s) in
    let word : String = "saga." ++ (key ++ behind) in
    let at_spaces = span-append is_space p.first word p.first_spaces (stops-saga (key ++ behind)) in
    let at_key =
      span-append is_key_char key behind p.letters (stops-second p.second s p.second_spaces) in
    let at_end = span-append is_space p.second ("}}" ++ s) p.second_spaces (stops-braces s) in
    ap (λ x. opened (strip_prefix "{{" x)) p.whole
    ∙ ap opened (strip_prefix-append "{{" (p.first ++ word))
    ∙ ap (λ x. keyed (strip_prefix "saga." x.1)) at_spaces
    ∙ ap keyed (strip_prefix-append "saga." (key ++ behind))
    ∙ ap (λ x. closed x.0 (strip_prefix "}}" (span is_space x.1).1)) at_key
    ∙ ap (λ x. closed key (strip_prefix "}}" x.1)) at_end
    ∙ ap (closed key) (strip_prefix-append "}}" s)
    ∙ closed_full key s p.nonempty

pub match_placeholder_iff :
    (t key s : String) → (match_placeholder t ≡ some (key, s)) ↔ IsPlaceholder t key s
unfolding match_placeholder
match_placeholder_iff t key s =
    (λ h. opened_sound t key s (strip_prefix "{{" t) refl h, λ p. complete t key s p)

-- `guidance.get(key, "")`: the value of the key, or an empty text where there is none.
abbrev pub IsValue : Dict String → String → String → Type 0
IsValue guidance key v = (lookup key guidance ≡ some v) ⊎ ((lookup key guidance ≡ none) × (v ≡ ""))

-- From left to right: a placeholder gives way to the value of its key, and the text goes on behind
-- it; a character where none begins is kept.
pub data Substitutes (guidance : Dict String) : String → String → Type 0 where
  over : Substitutes guidance "" ""
  keeps :
      (c : Char) (s out : String)
      → ((key rest : String) → ¬ IsPlaceholder (c ∷ s) key rest)
      → Substitutes guidance s out
      → Substitutes guidance (c ∷ s) (c ∷ out)
  replaces :
      (t key s v out : String)
      → IsPlaceholder t key s
      → IsValue guidance key v
      → Substitutes guidance s out
      → Substitutes guidance t (v ++ out)

value_of-IsValue :
    (guidance : Dict String) (key : String) → IsValue guidance key (value_of guidance key)
unfolding value_of
value_of-IsValue guidance key = elim (Option-cases (lookup key guidance)) [
  | inl absent ↦ rw (absent, value_of) (inr (refl, refl))
  | inr (v, there) ↦ rw (there, value_of) (inl refl)
]

IsValue-unique :
    (guidance : Dict String) (key v : String) → IsValue guidance key v → value_of guidance key ≡ v
unfolding value_of
IsValue-unique guidance key v (inl there) = rw (there, value_of) refl
IsValue-unique guidance key v (inr (absent, empty)) = rw (absent, value_of, empty) refl

pub no-IsPlaceholder :
    (t : String) → match_placeholder t ≡ none → (key rest : String) → ¬ IsPlaceholder t key rest
no-IsPlaceholder t h key rest p = let bad = complete t key rest p in cc (bad, h)

no_match :
    (t : String) → ((key rest : String) → ¬ IsPlaceholder t key rest) → match_placeholder t ≡ none
no_match t h = elim (Option-cases (match_placeholder t)) [
  | inl e ↦ e
  | inr ((key, rest), e) ↦ absurd (h key rest ((match_placeholder_iff t key rest).0 e))
]

Splits-Substitutes :
    (guidance : Dict String) (t : String) (split : List (Segment String))
    → Splits match_placeholder t split
    → Substitutes guidance t (filled guidance split)
unfolding filled
Splits-Substitutes guidance _ _ ends = over
Splits-Substitutes guidance _ _ (steps c s rest e k) =
    keeps c s _ (no-IsPlaceholder (c ∷ s) e) (Splits-Substitutes guidance s rest k)
Splits-Substitutes guidance _ _ (matches t s key rest e k) =
    replaces t key s _ _ ((match_placeholder_iff t key s).0 e) (value_of-IsValue guidance key)
      (Splits-Substitutes guidance s rest k)

Substitutes-Splits :
    (guidance : Dict String) (t out : String)
    → Substitutes guidance t out
    → (split : List (Segment String)) × Splits match_placeholder t split
      × (filled guidance split ≡ out)
unfolding filled
Substitutes-Splits guidance _ _ over = (List.[], ends, refl)
Substitutes-Splits guidance _ _ (keeps c s out plain_here k) =
    let (rest, splits, same) = Substitutes-Splits guidance s out k in
    (
      List.◌∷◌ (plain c) rest,
      steps c s rest (no_match (c ∷ s) plain_here) splits,
      ap (λ x. c ∷ x) same,
    )
Substitutes-Splits guidance _ _ (replaces t key s v out p is k) =
    let (rest, splits, same) = Substitutes-Splits guidance s out k in
    (
      List.◌∷◌ (match key) rest,
      matches t s key rest (complete t key s p) splits,
      rw (IsValue-unique guidance key v is, same) refl,
    )

-- What `substitute` returns is the text in which every placeholder, from left to right and none
-- overlapping, has given way to the value of its key, or to nothing where the guidance has none, and
-- every other character is kept; and no other text is.
pub substitute_iff :
    (t out : String) (guidance : Dict String)
    → (substitute t guidance ≡ out) ↔ Substitutes guidance t out
unfolding substitute
substitute_iff t out guidance = (
  λ e.
      rw (sym e) (
        Splits-Substitutes guidance t _
          (segments-Splits match_placeholder placeholder-IsPattern t)),
  λ h.
      let (split, splits, same) = Substitutes-Splits guidance t out h in
      ap (filled guidance)
        (sym ((Splits-iff match_placeholder placeholder-IsPattern t split).0 splits))
      ∙ same,
)
