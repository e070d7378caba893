-- ===== src/Config/Loader/Delimiters.antt =====
-- `text.find`: where the frontmatter ends.
use Prim.Native.Char.{Char}
use Prim.Native.String.{String, [], ◌∷◌, ◌++◌}
use Prim.Native.String.append
use saga_agents.Common.{
  ◌+◌, ◌≤◌, ◌≡◌, ◌↔◌, ◌∙◌, refl, sym, ap, arith, Option, none, some, Bool-cases, Option-cases, inl,
  inr,
}
use saga_agents.Common.Texts.{is_eq_char, strip_prefix, count}
use saga_agents.Common.Texts.Parts.{append_assoc, strip_prefix_sound, strip_prefix-append}
use saga_agents.Config.Loader.{with_char, split_at_closing}

count-append : (s t : String) → count (s ++ t) ≡ count s + count t
unfolding count
count-append [] t = rw (append.nil t) (ground arith)
count-append (c ∷ s) t = let ih = count-append s t in rw (append.cons c s t) (omega (arith, ih))

-- A fixed text that a long enough text does not begin with is not at the front of its extensions.
strip_prefix_extend :
    (p t u : String) → count p ≤ count t → strip_prefix p t ≡ none → strip_prefix p (t ++ u) ≡ none
unfolding strip_prefix count
strip_prefix_extend [] t u long h = cc
strip_prefix_extend (c ∷ p) [] u long h = absurd (omega arith)
strip_prefix_extend (c ∷ p) (d ∷ t) u long h =
    rw (append.cons d t u) (elim (Bool-cases (is_eq_char c d)) [
      | inl same ↦ rw same (strip_prefix_extend p t u (omega arith) (rw same at h))
      | inr other ↦ rw other
    ])

strip_prefix_shorten : (p t u : String) → strip_prefix p (t ++ u) ≡ none → strip_prefix p t ≡ none
unfolding strip_prefix
strip_prefix_shorten [] t u h = cc
strip_prefix_shorten (c ∷ p) [] u h = refl
strip_prefix_shorten (c ∷ p) (d ∷ t) u h = elim (Bool-cases (is_eq_char c d)) [
  | inl same ↦ rw same (strip_prefix_shorten p t u (rw (append.cons d t u, same) at h))
  | inr other ↦ rw other
]

abbrev pub delimiter : String
delimiter = "\n---\n"

split_here :
    (c : Char) (t tail : String)
    → strip_prefix delimiter (c ∷ t) ≡ some tail
    → split_at_closing (c ∷ t) ≡ some ("", tail)
unfolding split_at_closing
split_here c t tail h = rw (h, split_at_closing)

split_later :
    (c : Char) (t : String)
    → strip_prefix delimiter (c ∷ t) ≡ none
    → split_at_closing (c ∷ t) ≡ with_char c (split_at_closing t)
unfolding split_at_closing
split_later c t h = rw (h, split_at_closing)

-- The delimiter stands between the two texts, and none begins before it.
pub record EndsAt (t front tail : String) : Type 0 where
  pub whole : t ≡ front ++ (delimiter ++ tail)
  pub first : split_at_closing (front ++ "\n---") ≡ none

with_char-none : (c : Char) (o : Option (String × String)) → with_char c o ≡ none → o ≡ none
with_char-none c none h = refl
with_char-none c (some (front, tail)) h = cc

long : (c : Char) (front : String) → count delimiter ≤ count (c ∷ (front ++ "\n---"))
unfolding count
long c front = let n = count-append front "\n---" in omega (arith, n)

split_none :
    (c : Char) (t : String)
    → split_at_closing (c ∷ t) ≡ none
    → (strip_prefix delimiter (c ∷ t) ≡ none) × (split_at_closing t ≡ none)
split_none c t h = elim (Option-cases (strip_prefix delimiter (c ∷ t))) [
  | inl e ↦ (e, with_char-none c (split_at_closing t) (sym (split_later c t e) ∙ h))
  | inr (tail, e) ↦ let found = split_here c t tail e in cc
]

split_complete :
    (front tail : String)
    → split_at_closing (front ++ "\n---") ≡ none
    → split_at_closing (front ++ (delimiter ++ tail)) ≡ some (front, tail)
split_complete [] tail h =
    rw (append.nil (delimiter ++ tail), append.cons "\n" "---\n" tail)
      (split_here "\n" ("---\n" ++ tail) tail (
        ap (strip_prefix delimiter) (sym (append.cons "\n" "---\n" tail))
        ∙ strip_prefix-append delimiter tail))
split_complete (c ∷ front) tail h =
    let (here, later) = split_none c (front ++ "\n---") (rw (append.cons c front "\n---") at h) in
    let longer : (front ++ "\n---") ++ ("\n" ++ tail) ≡ front ++ (delimiter ++ tail) =
      append_assoc front "\n---" ("\n" ++ tail)
      ∙ ap (λ x. front ++ x) (sym (append_assoc "\n---" "\n" tail)) in
    let no_match =
      strip_prefix_extend delimiter (c ∷ (front ++ "\n---")) ("\n" ++ tail) (long c front) here in
    rw (append.cons c front (delimiter ++ tail)) (
      split_later c (front ++ (delimiter ++ tail))
        (rw (append.cons c (front ++ "\n---") ("\n" ++ tail), longer) at no_match)
      ∙ ap (with_char c) (split_complete front tail later))

with_char-some :
    (c : Char) (o : Option (String × String)) (front tail : String)
    → with_char c o ≡ some (front, tail)
    → (f : String) × (o ≡ some (f, tail)) × (front ≡ c ∷ f)
with_char-some c none front tail h = cc
with_char-some c (some (f, tail')) front tail h = let same : tail' ≡ tail = cc in (f, rw same, cc)

nothing_in_it : split_at_closing ([] ++ "\n---") ≡ none
unfolding split_at_closing strip_prefix
nothing_in_it = refl

in_parts : (f tail : String) → f ++ (delimiter ++ tail) ≡ (f ++ "\n---") ++ ("\n" ++ tail)
in_parts f tail =
    ap (λ x. f ++ x) (append_assoc "\n---" "\n" tail) ∙ sym (append_assoc f "\n---" ("\n" ++ tail))

split_sound :
    (t front tail : String) → split_at_closing t ≡ some (front, tail) → EndsAt t front tail
unfolding split_at_closing
split_sound [] front tail h = cc
split_sound (c ∷ t) front tail h = elim (Option-cases (strip_prefix delimiter (c ∷ t))) [
  | inr (tail', e) ↦
      let found = sym (split_here c t tail' e) ∙ h in
      let same_front : [] ≡ front = cc in
      let same_tail : tail' ≡ tail = cc in
      rw (sym same_front, sym same_tail)
        (record {
          whole =
              strip_prefix_sound delimiter (c ∷ t) tail' e ∙ sym (append.nil (delimiter ++ tail'));
          first = nothing_in_it;
        })
  | inl e ↦
      let (f, found, split) =
        with_char-some c (split_at_closing t) front tail (sym (split_later c t e) ∙ h) in
      let ih = split_sound t f tail found in
      let no_match : strip_prefix delimiter ((c ∷ (f ++ "\n---")) ++ ("\n" ++ tail)) ≡ none =
        rw (append.cons c (f ++ "\n---") ("\n" ++ tail), sym (in_parts f tail), sym ih.whole) e in
      rw split (record {
        whole = ap (λ x. c ∷ x) ih.whole ∙ sym (append.cons c f (delimiter ++ tail));
        first =
            ap split_at_closing (append.cons c f "\n---")
            ∙ split_later c (f ++ "\n---")
                (strip_prefix_shorten delimiter (c ∷ (f ++ "\n---")) ("\n" ++ tail) no_match)
            ∙ ap (with_char c) ih.first;
      })
]

-- The frontmatter ends where `find` would say: the split is at a closing delimiter, and none begins
-- before it.
pub split_at_closing_iff :
    (t front tail : String) → (split_at_closing t ≡ some (front, tail)) ↔ EndsAt t front tail
split_at_closing_iff t front tail =
    (split_sound t front tail, λ h. ap split_at_closing h.whole ∙ split_complete front tail h.first)
