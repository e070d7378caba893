-- ===== src/Core/Env/Resolved.antt =====
-- What `resolve_tree` gives: which variables it needs, which one it fails for, and what it leaves.
use Prim.Native.String.{String, ◌∷◌, ◌++◌}
use mathlib.Core.List
use mathlib.Core.List.{◌++◌ as append}
use saga_agents.Common.{◌≡◌, refl, sym, ap, ◌∙◌, List, Option, none, some}
use saga_agents.Common.Json.{
  Json, null, bool, number, string, array, object, Items, nil, cons, Fields, end, field,
}
use saga_agents.Common.Result.{Result, returned, raised, ◌>>=◌}
use saga_agents.Common.Scan.{
  Segment, plain, match, segments, captures, Splits, ends, steps, matches, segments-Splits,
}
use saga_agents.Core.Env.Pattern.{token-IsPattern}
use saga_agents.Core.Env.{
  Token, match_token, value_or, replace, replaced, resolve_env, resolve_tree, resolve_items,
  resolve_fields,
}

-- The tokens of a tree, in the order in which they are resolved.
unfoldable mutual
  pub tokens_in : Json → List Token
  tokens_in (string s) = captures (segments match_token s)
  tokens_in (array items) = tokens_in_items items
  tokens_in (object fields) = tokens_in_fields fields
  tokens_in _ = List.[]

  pub tokens_in_items : Items → List Token
  tokens_in_items nil = List.[]
  tokens_in_items (cons item items) = List.◌++◌ (tokens_in item) (tokens_in_items items)

  pub tokens_in_fields : Fields → List Token
  tokens_in_fields end = List.[]
  tokens_in_fields (field k v fields) = List.◌++◌ (tokens_in v) (tokens_in_fields fields)

-- The text that a call raises, if it raises.
abbrev pub error_of {ℓ} : {A : Type ℓ} → Result A → Option String
error_of (returned a) = none
error_of (raised e) = some e

abbrev or_else : Option String → Option String → Option String
or_else none b = b
or_else (some e) b = some e

error_of-map {ℓ κ} :
    {A : Type ℓ} {B : Type κ} (m : Result A) (f : A → B)
    → error_of (m >>= (λ a. returned (f a))) ≡ error_of m
error_of-map (returned a) f = refl
error_of-map (raised e) f = refl

error_of-bind {ℓ κ μ} :
    {A : Type ℓ} {B : Type κ} {C : Type μ} (m : Result A) (n : Result B) (f : A → B → C)
    → error_of (m >>= (λ a. n >>= (λ b. returned (f a b)))) ≡ or_else (error_of m) (error_of n)
error_of-bind (returned a) n f = error_of-map n (f a)
error_of-bind (raised e) n f = refl

module _ (environ : String → Option String) where
  -- The name of the first token whose variable is not set and that has no default.
  abbrev pub missing_or : String → Option String → Option String → Option String
  missing_or name none none = some name
  missing_or name value default = none

  unfoldable pub first_missing : List Token → Option String
  first_missing List.[] = none
  first_missing (List.◌∷◌ token tokens) =
      or_else (missing_or token.name (environ token.name) token.default) (first_missing tokens)

  error_of-replace :
      (name : String) (value default : Option String)
      → error_of (value_or environ name value default) ≡ missing_or name value default
  error_of-replace name none none = refl
  error_of-replace name none (some default) = refl
  error_of-replace name (some value) default = refl

  or_else_assoc : (a b c : Option String) → or_else (or_else a b) c ≡ or_else a (or_else b c)
  or_else_assoc none b c = refl
  or_else_assoc (some e) b c = refl

  first_missing-append :
      (xs ys : List Token)
      → first_missing (List.◌++◌ xs ys) ≡ or_else (first_missing xs) (first_missing ys)
  unfolding first_missing
  first_missing-append List.[] ys = refl
  first_missing-append (List.◌∷◌ x xs) ys =
      ap (or_else (missing_or x.name (environ x.name) x.default)) (first_missing-append xs ys)
      ∙ sym (or_else_assoc _ (first_missing xs) (first_missing ys))

  error_of-replaced :
      (split : List (Segment Token))
      → error_of (replaced environ split) ≡ first_missing (captures split)
  unfolding replaced first_missing captures
  error_of-replaced List.[] = refl
  error_of-replaced (List.◌∷◌ (plain c) rest) =
      error_of-map (replaced environ rest) (λ later. c ∷ later) ∙ error_of-replaced rest
  error_of-replaced (List.◌∷◌ (match token) rest) =
      error_of-bind (replace environ token) (replaced environ rest) (λ value later. value ++ later)
      ∙ rw (error_of-replace token.name (environ token.name) token.default, error_of-replaced rest)

  mutual
    unfolding resolve_tree tokens_in resolve_env first_missing

    missing-tree : (t : Json) → error_of (resolve_tree environ t) ≡ first_missing (tokens_in t)
    missing-tree null = refl
    missing-tree (bool b) = refl
    missing-tree (number n) = refl
    missing-tree (string s) =
        error_of-map (replaced environ (segments match_token s)) string
        ∙ error_of-replaced (segments match_token s)
    missing-tree (array items) =
        error_of-map (resolve_items environ items) array ∙ missing-items items
    missing-tree (object fields) =
        error_of-map (resolve_fields environ fields) object ∙ missing-fields fields

    missing-items :
        (xs : Items) → error_of (resolve_items environ xs) ≡ first_missing (tokens_in_items xs)
    missing-items nil = refl
    missing-items (cons x xs) =
        error_of-bind (resolve_tree environ x) (resolve_items environ xs) cons
        ∙ rw (missing-tree x, missing-items xs)
            (sym (first_missing-append (tokens_in x) (tokens_in_items xs)))

    missing-fields :
        (xs : Fields) → error_of (resolve_fields environ xs) ≡ first_missing (tokens_in_fields xs)
    missing-fields end = refl
    missing-fields (field k x xs) =
        error_of-bind (resolve_tree environ x) (resolve_fields environ xs) (field k)
        ∙ rw (missing-tree x, missing-fields xs)
            (sym (first_missing-append (tokens_in x) (tokens_in_fields xs)))

  -- `resolve_tree` raises exactly where a token of the tree has no default and names a variable that
  -- is not set, and the error names the first such variable.
  pub error_of-resolve_tree :
      (t : Json) → error_of (resolve_tree environ t) ≡ first_missing (tokens_in t)
  error_of-resolve_tree t = missing-tree t

unchanged_text :
    (environ : String → Option String) (t : String) (split : List (Segment Token))
    → Splits match_token t split
    → captures split ≡ List.[]
    → replaced environ split ≡ returned t
unfolding replaced captures
unchanged_text environ _ _ ends h = refl
unchanged_text environ _ _ (steps c s rest e k) h =
    let later = unchanged_text environ s rest k h in rw later
unchanged_text environ _ _ (matches t s token rest e k) h = cc

append-eq-nil : (xs ys : List Token) → List.◌++◌ xs ys ≡ List.[] → (xs ≡ List.[]) × (ys ≡ List.[])
append-eq-nil List.[] ys h = (refl, h)
append-eq-nil (List.◌∷◌ x xs) ys h = cc

module _ (environ : String → Option String) where
  mutual
    unfolding resolve_tree tokens_in resolve_env

    unchanged_tree : (t : Json) → tokens_in t ≡ List.[] → resolve_tree environ t ≡ returned t
    unchanged_tree null h = refl
    unchanged_tree (bool b) h = refl
    unchanged_tree (number n) h = refl
    unchanged_tree (string s) h = rw (
        unchanged_text environ s (segments match_token s)
          (segments-Splits match_token token-IsPattern s) h)
    unchanged_tree (array items) h = rw (unchanged_items items h)
    unchanged_tree (object fields) h = rw (unchanged_fields fields h)

    unchanged_items :
        (xs : Items) → tokens_in_items xs ≡ List.[] → resolve_items environ xs ≡ returned xs
    unchanged_items nil h = refl
    unchanged_items (cons x xs) h =
        let (first, later) = append-eq-nil (tokens_in x) (tokens_in_items xs) h in
        rw (unchanged_tree x first, unchanged_items xs later)

    unchanged_fields :
        (xs : Fields) → tokens_in_fields xs ≡ List.[] → resolve_fields environ xs ≡ returned xs
    unchanged_fields end h = refl
    unchanged_fields (field k x xs) h =
        let (first, later) = append-eq-nil (tokens_in x) (tokens_in_fields xs) h in
        rw (unchanged_tree x first, unchanged_fields xs later)

  -- A tree with no `${...}` token, as one that was resolved to plain values, is resolved to itself,
  -- whatever the environment.
  resolve_tree_unchanged : (t : Json) → tokens_in t ≡ List.[] → resolve_tree environ t ≡ returned t
  resolve_tree_unchanged t h = unchanged_tree t h
