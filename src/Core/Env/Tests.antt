-- ===== src/Core/Env/Tests.antt =====
-- Resolving a tree with tokens.
use Prim.Native.String.{String}
use saga_agents.Common.{◌≡◌, refl, Option, none, some, ◌==◌, if◌then◌else◌}
use saga_agents.Common.Json.{Json, string, array, object, nil, cons, end, field, number}
use saga_agents.Common.Result.{returned}
use saga_agents.Common.Scan.{segments_from, captures}
use saga_agents.Common.Texts.{strip_prefix, span, count}
use saga_agents.Core.Env.{match_token, resolve_env, replaced, resolve_tree}
use saga_agents.Core.Env.Resolved.{tokens_in, error_of, first_missing, error_of-resolve_tree}

abbrev environ : String → Option String
environ name = if name == "HOST" then some "redis" else none

resolved_url :
    resolve_env environ "redis://${HOST}:${PORT:-6379}/${" ≡ returned "redis://redis:6379/${"
unfolding resolve_env replaced segments_from match_token strip_prefix span count
resolved_url = refl

abbrev settings : Json
settings =
    object (field "url" (string "${HOST}") (field "keys" (array (cons (string "${KEY}") nil)) end))

abbrev resolved_settings : Json
resolved_settings = object (field "url" (string "redis") (field "port" (number "6379") end))

error_of-resolve_tree_example :
    error_of (resolve_tree environ settings) ≡ first_missing environ (tokens_in settings)
error_of-resolve_tree_example = error_of-resolve_tree environ settings

key_missing : first_missing environ (tokens_in settings) ≡ some "KEY"
unfolding first_missing tokens_in segments_from captures match_token strip_prefix span count
key_missing = refl
