-- ===== src/Core/Env.antt =====
-- src/saga_agents/core/env.py. `environ` is os.environ.get. A match of _ENV_PATTERN is read as it is
-- written: behind the name comes `:-` or the brace, and a default ends at the first brace, so no
-- match is found by going back.
pub mod Pattern
pub mod Resolved
mod Tests
use Prim.Native.Char.{Char}
use Prim.Native.String.{String, [], ◌∷◌, ◌++◌}
use mathlib.Core.List
use saga_agents.Common.{Bool, true, false, not, ◌||◌, List, Option, none, some, if◌then◌else◌}
use saga_agents.Common.Json.{
  Json, null, bool, number, string, array, object, Items, nil, cons, Fields, end, field,
}
use saga_agents.Common.Result.{Result, returned, raised, ◌>>=◌}
use saga_agents.Common.Scan.{Segment, plain, match, segments}
use saga_agents.Common.Texts.{between, is_eq_char, strip_prefix, span}

-- The groups `name` and `default`.
pub record Token : Type 0 where
  pub name : String
  pub default : Option String

-- [A-Za-z_] and [A-Za-z0-9_]
abbrev pub starts_name : Char → Bool
starts_name c = between 65 90 c || between 97 122 c || between 95 95 c

abbrev pub in_name : Char → Bool
in_name c = starts_name c || between 48 57 c

abbrev pub in_default : Char → Bool
in_default c = not (is_eq_char c "}")

abbrev pub token_ends : String → Option String → Option String → Option (Token × String)
token_ends name default none = none
token_ends name default (some rest) = some (record { name = name; default = default }, rest)

-- (?::-(?P<default>[^}]*))?\}
abbrev pub default_or_end : String → String → Option String → Option (Token × String)
default_or_end name t none = token_ends name none (strip_prefix "}" t)
default_or_end name t (some u) =
    let (default, rest) = span in_default u in
    token_ends name (some default) (strip_prefix "}" rest)

abbrev pub named : Option String → Option (Token × String)
named none = none
named (some []) = none
named (some (c ∷ t)) =
    let (name, rest) = span in_name (c ∷ t) in
    if starts_name c then default_or_end name rest (strip_prefix ":-" rest) else none

-- A match of _ENV_PATTERN at the front of the text, and the text behind it.
unfoldable pub match_token : String → Option (Token × String)
match_token text = named (strip_prefix "${" text)

module _ (environ : String → Option String) where
  abbrev pub value_or : String → Option String → Option String → Result String
  value_or name (some value) default = returned value
  value_or name none (some default) = returned default
  value_or name none none = raised name

  -- `_replace`. The ConfigError names the variable.
  abbrev pub replace : Token → Result String
  replace token = value_or token.name (environ token.name) token.default

  unfoldable pub replaced : List (Segment Token) → Result String
  replaced List.[] = returned ""
  replaced (List.◌∷◌ (plain c) rest) = do later ← replaced rest; returned (c ∷ later)
  replaced (List.◌∷◌ (match token) rest) = do
    value ← replace token
    later ← replaced rest
    returned (value ++ later)

  unfoldable pub resolve_env : String → Result String
  unfolding match_token
  resolve_env value = replaced (segments match_token value)

  unfoldable mutual
    unfolding resolve_env

    pub resolve_tree : Json → Result Json
    resolve_tree null = returned null
    resolve_tree (bool b) = returned (bool b)
    resolve_tree (number n) = returned (number n)
    resolve_tree (string s) = do resolved ← resolve_env s; returned (string resolved)
    resolve_tree (array items) = do resolved ← resolve_items items; returned (array resolved)
    resolve_tree (object fields) = do resolved ← resolve_fields fields; returned (object resolved)

    pub resolve_items : Items → Result Items
    resolve_items nil = returned nil
    resolve_items (cons item items) = do
      first ← resolve_tree item
      rest ← resolve_items items
      returned (cons first rest)

    pub resolve_fields : Fields → Result Fields
    resolve_fields end = returned end
    resolve_fields (field k v fields) = do
      first ← resolve_tree v
      rest ← resolve_fields fields
      returned (field k first rest)
