-- ===== src/Common/Scan.antt =====
-- Splitting a text by the matches of a pattern, from left to right: what `re.findall` and `re.sub` go
-- through. The pattern is given by its match at the front of a text: what it captures, and the text
-- behind it.
use Prim.Native.Nat.{ℕ, zero, suc, ◌-◌, ◌≤◌}
use Prim.Native.Char.{Char}
use Prim.Native.String.{String, [], ◌∷◌}
use mathlib.Core.Path.{◌≡◌, refl, sym, subst, ◌∙◌}
use mathlib.Core.Logic.{◌↔◌, inl, inr}
use mathlib.Core.Option.{Option, none, some}
use mathlib.Core.List.{List}
use native.Mathlib.Omega.{arith}
use saga_agents.Common.Tests.{Option-cases}
use saga_agents.Common.Texts.{count}
use saga_agents.Common.Texts.Behind.{Behind, here, there, count-Behind}

-- A match, by what it captures, or a character that no match covers.
pub data Segment (K : Type 0) : Type 0 where
  plain : Char → Segment K
  match : K → Segment K

module _ {K : Type 0} (match_at : String → Option (K × String)) where
  -- The text from here on, the next `skip` characters of it in the match before.
  unfoldable pub segments_from : ℕ → String → List (Segment K)
  segments_from skip [] = List.[]
  segments_from (suc skip) (c ∷ s) = segments_from skip s
  segments_from zero (c ∷ s) =
      let literal = List.◌∷◌ (plain c) (segments_from 0 s) in
      elim (match_at (c ∷ s)) [
        | none ↦ literal
        | some (key, rest) ↦ List.◌∷◌ (match key) (segments_from (count s - count rest) s)
      ]

  abbrev pub segments : String → List (Segment K)
  segments = segments_from 0

-- What the matches capture, as `findall` lists it.
unfoldable pub captures : {K : Type 0} → List (Segment K) → List K
captures List.[] = List.[]
captures (List.◌∷◌ (plain c) rest) = captures rest
captures (List.◌∷◌ (match key) rest) = List.◌∷◌ key (captures rest)

-- The matches of the pattern from left to right, none overlapping: where it matches, the split goes
-- on behind the match; where it does not, one character on.
pub data Splits {K : Type 0} (match_at : String → Option (K × String))
    : String → List (Segment K) → Type 0 where
  ends : Splits match_at [] List.[]
  steps :
      (c : Char) (s : String) (rest : List (Segment K))
      → match_at (c ∷ s) ≡ none
      → Splits match_at s rest
      → Splits match_at (c ∷ s) (List.◌∷◌ (plain c) rest)
  matches :
      (t s : String) (key : K) (rest : List (Segment K))
      → match_at t ≡ some (key, s)
      → Splits match_at s rest
      → Splits match_at t (List.◌∷◌ (match key) rest)

-- A pattern that matches no empty text, and always takes a character.
pub record IsPattern {K : Type 0} (match_at : String → Option (K × String)) : Type 0 where
  pub match_nil : match_at [] ≡ none
  pub match-Behind :
      (c : Char) (t : String) (key : K) (s : String) → match_at (c ∷ t) ≡ some (key, s) → Behind t s

module _ {K : Type 0} (match_at : String → Option (K × String)) (pattern : IsPattern match_at) where
  open pattern use {match_nil, match-Behind}

  skipped :
      (c : Char) (t : String) (n : ℕ)
      → segments_from match_at (suc n) (c ∷ t) ≡ segments_from match_at n t
  unfolding segments_from
  skipped c t n = refl

  segments_from-Behind :
      {t s : String}
      → Behind t s
      → segments_from match_at (count t - count s) t ≡ segments_from match_at 0 s
  unfolding count
  segments_from-Behind (here s) = let nothing : count s - count s ≡ 0 = omega arith in rw nothing
  segments_from-Behind (there c t s h) =
      let below = count-Behind h in
      let one_more : suc (count t) - count s ≡ suc (count t - count s) = omega arith in
      rw one_more (skipped c t (count t - count s) ∙ segments_from-Behind h)

  segments-cons_plain :
      (c : Char) (t : String)
      → match_at (c ∷ t) ≡ none
      → segments match_at (c ∷ t) ≡ List.◌∷◌ (plain c) (segments match_at t)
  unfolding segments_from
  segments-cons_plain c t h = rw (h, segments_from)

  segments-cons_match :
      (c : Char) (t : String) (key : K) (s : String)
      → match_at (c ∷ t) ≡ some (key, s)
      → segments match_at (c ∷ t) ≡ List.◌∷◌ (match key) (segments match_at s)
  unfolding segments_from
  segments-cons_match c t key s h =
      rw (h, segments_from, segments_from-Behind (match-Behind c t key s h))

  segments-Splits_below :
      (n : ℕ) (t : String) → count t ≤ n → Splits match_at t (segments match_at t)
  unfolding segments_from count
  segments-Splits_below n [] h = ends
  segments-Splits_below zero (c ∷ t) h = absurd (omega arith)
  segments-Splits_below (suc n) (c ∷ t) h = elim (Option-cases (match_at (c ∷ t))) [
    | inl e ↦
        rw (segments-cons_plain c t e)
          (steps c t (segments match_at t) e (segments-Splits_below n t (omega arith)))
    | inr ((key, s), e) ↦
        let shorter = count-Behind (match-Behind c t key s e) in
        rw (segments-cons_match c t key s e)
          (matches (c ∷ t) s key (segments match_at s) e (segments-Splits_below n s (omega arith)))
  ]

  pub segments-Splits : (t : String) → Splits match_at t (segments match_at t)
  segments-Splits t = segments-Splits_below (count t) t (omega arith)

  Splits-unique :
      {t : String} {a b : List (Segment K)} → Splits match_at t a → Splits match_at t b → a ≡ b
  Splits-unique ends ends = refl
  Splits-unique ends (matches _ s key rest e h) = cc (match_nil, e)
  Splits-unique (steps c s rest e h) (steps _ _ rest' e' h') = rw (Splits-unique h h')
  Splits-unique (steps c s rest e h) (matches _ s' key rest' e' h') = cc
  Splits-unique (matches _ s key rest e h) ends = cc (match_nil, e)
  Splits-unique (matches _ s key rest e h) (steps c s' rest' e' h') = cc
  Splits-unique (matches t s key rest e h) (matches _ s' key' rest' e' h') =
      let one : ◌≡◌ {A = Option (K × String)} (some (key, s)) (some (key', s')) = sym e ∙ e' in
      let same_key : key ≡ key' = cc in
      let same : s ≡ s' = cc in
      let later : rest ≡ rest' =
        Splits-unique h (subst (λ x. Splits match_at x rest') (sym same) h') in
      rw (same_key, later)

  pub Splits-iff :
      (t : String) (split : List (Segment K))
      → Splits match_at t split ↔ (split ≡ segments match_at t)
  Splits-iff t split = (λ h. Splits-unique h (segments-Splits t), λ e. rw e (segments-Splits t))
