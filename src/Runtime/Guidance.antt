-- ===== src/Runtime/Guidance.antt =====
-- src/saga_agents/runtime/guidance.py: the `{{saga.*}}` placeholders of a prompt, and the cache of
-- the store guidance. Times are clock ticks. The pattern is read from left to right: no class of
-- characters in it takes what the next part needs, so a match is found without going back.
pub mod Placeholders
pub mod Substitution
pub mod Accepted
pub mod Cache
pub mod Overlap
use Prim.Native.Nat.{◌-◌}
use Prim.Native.Char.{Char}
use Prim.Native.String.{String, [], ◌∷◌, ◌++◌}
use mathlib.Core.List
use saga_agents.Common.{
  ◌||◌, ℕ, zero, suc, ◌+◌, ◌==◌, Bool, true, false, List, Option, none, some, if◌then◌else◌, ltb,
  contains, not, inl, inr, ◌⊎◌,
}
use saga_agents.Common.Dict.{Dict, lookup, insert}
use saga_agents.Common.Json.{Json, null, object, Fields, end, field}
use saga_agents.Common.Result.{Result, returned, raised}
use saga_agents.Common.Scan.{Segment, plain, match, segments, captures}
use saga_agents.Common.Texts.{between, is_space, strip_prefix, span}

-- GUIDANCE_KEYS
abbrev pub guidance_keys : List String
guidance_keys = List.◌∷◌ "store_description" (
    List.◌∷◌ "doctype_instructions" (
      List.◌∷◌ "metadata_instructions" (
        List.◌∷◌ "summary_instructions"
          (List.◌∷◌ "folder_instructions" (List.◌∷◌ "language" List.[])))))

-- [a-z_]
abbrev pub is_key_char : Char → Bool
is_key_char c = between 97 122 c || between 95 95 c

-- The group is not empty, and the braces close.
abbrev pub closed : String → Option String → Option (String × String)
closed key none = none
closed key (some rest) = if key == "" then none else some (key, rest)

-- The key behind `saga.`, with the spaces behind it.
abbrev pub keyed : Option String → Option (String × String)
keyed none = none
keyed (some t) =
    let (key, rest) = span is_key_char t in closed key (strip_prefix "}}" (span is_space rest).1)

abbrev pub opened : Option String → Option (String × String)
opened none = none
opened (some t) = keyed (strip_prefix "saga." (span is_space t).1)

-- A match of _PLACEHOLDER_RE at the front of the text: its group, and the text behind it.
unfoldable pub match_placeholder : String → Option (String × String)
match_placeholder text = opened (strip_prefix "{{" text)

-- `set(_PLACEHOLDER_RE.findall(text))`, as a list
unfoldable pub referenced_keys : String → List String
unfolding match_placeholder
referenced_keys text = captures (segments match_placeholder text)

unfoldable pub unknown_keys : List String → List String
unknown_keys List.[] = List.[]
unknown_keys (List.◌∷◌ key keys) =
    let rest = unknown_keys keys in if contains key guidance_keys then rest else List.◌∷◌ key rest

-- A ConfigError with the keys that it names, which the source sorts.
unfoldable pub validate_placeholders : String → Unit {0} ⊎ List String
validate_placeholders text = elim (unknown_keys (referenced_keys text)) [
  | List.[] ↦ inl tt
  | unknown ↦ inr unknown
]

-- guidance.get(key, "")
unfoldable pub value_of : Dict String → String → String
value_of guidance key = elim (lookup key guidance) [ none ↦ "" | some v ↦ v ]

unfoldable pub filled : Dict String → List (Segment String) → String
filled guidance List.[] = ""
filled guidance (List.◌∷◌ (plain c) rest) = c ∷ filled guidance rest
filled guidance (List.◌∷◌ (match key) rest) = value_of guidance key ++ filled guidance rest

unfoldable pub substitute : String → Dict String → String
substitute text guidance = filled guidance (segments match_placeholder text)

-- What a call raises, where the caller tells GuidanceFetchError from other exceptions, and from a
-- CancelledError.
pub data Fetched {ℓ} (A : Type ℓ) : Type ℓ where
  fetched : A → Fetched A
  fetch_error : String → Fetched A
  other_error : String → Fetched A
  fetch_cancelled : Fetched A

-- `show` is `str` on a value.
module _ (show : Json → String) where
  text_of : Json → String
  text_of null = ""
  text_of v = show v

  coerced : Fields → Dict String → Dict String
  unfolding text_of
  coerced end out = out
  coerced (field k v rest) out = coerced rest (insert k (text_of v) out)

  -- `data = data["result"]` where that is the one key
  unfoldable pub unwrapped : Json → Json
  unwrapped (object (field k v end)) = if k == "result" then v else object (field k v end)
  unwrapped raw = raw

  -- The error names the type, which is left out.
  unfoldable pub coerce_guidance : Json → Fetched (Dict String)
  unfolding unwrapped coerced
  coerce_guidance raw = elim (unwrapped raw) [
    | object fields ↦ fetched (coerced fields List.[])
    | _ ↦ fetch_error "get_store_guidance returned unexpected type; expected a dict."
  ]

-- GuidanceProvider
pub record GuidanceProvider : Type 0 where
  pub ttl : ℕ
  pub cache : Option (Dict String)
  pub fetched_at : Option ℕ

abbrev pub served : ℕ → ℕ → Option (Dict String) → Option ℕ → Option (Dict String)
served now ttl (some guidance) (some at) = if ltb (now - at) ttl then some guidance else none
served now ttl cache fetched_at = none

-- The test of `get`: the cached guidance, if it is younger than the TTL.
unfoldable pub fresh : ℕ → GuidanceProvider → Option (Dict String)
fresh now p = served now p.ttl p.cache p.fetched_at

abbrev pub kept :
    ℕ → GuidanceProvider → Fetched (Dict String) → GuidanceProvider × Fetched (Dict String)
kept later p (fetched guidance) =
    (record p { cache = some guidance; fetched_at = some later }, fetched guidance)
kept later p failed = (p, failed)

module _ (show : Json → String) where
  abbrev pub after_fetch :
      ℕ → GuidanceProvider → Result Json → GuidanceProvider × Fetched (Dict String)
  after_fetch later p (returned raw) = kept later p (coerce_guidance show raw)
  after_fetch later p (raised e) =
      (p, fetch_error ("Could not fetch get_store_guidance from MCP: " ++ e))

  abbrev pub get_or_fetch :
      ℕ
      → (Unit {0} → Result Json)
      → GuidanceProvider
      → Option (Dict String)
      → GuidanceProvider × Fetched (Dict String)
  get_or_fetch later call p (some guidance) = (p, fetched guidance)
  get_or_fetch later call p none = after_fetch later p (call tt)

  -- `get`: `now` and `later` are the two readings of the clock, and `call` is what connecting to the
  -- server and its tool give, asked for only where the cache is stale.
  unfoldable pub get :
      ℕ → ℕ → (Unit {0} → Result Json) → GuidanceProvider → GuidanceProvider × Fetched (Dict String)
  unfolding fresh coerce_guidance
  get now later call p = get_or_fetch later call p (fresh now p)
