-- ===== src/Runtime/Guidance/Overlap.antt =====
-- Calls of `GuidanceProvider.get` (src/saga_agents/runtime/guidance.py) that overlap: while one awaits the
-- server, others begin, and they end in any order.
pub mod Sound
mod Tests
use saga_agents.Common.{
  String, ℕ, ◌-◌, ◌<◌, ◌≡◌, ◌≢◌, ◌∙◌, sym, ap, arith, refl, ◌⊎◌, inl, inr, List, [], ◌∷◌, ◌++◌,
  Option, none, some, get_elem?, set, Option-cases, get_elem?-set_cases, get_elem?-concat_cases,
}
use saga_agents.Common.Dict.{Dict}
use saga_agents.Common.Json.{Json}
use saga_agents.Common.Result.{Result, returned, raised}
use saga_agents.Runtime.Guidance.{
  Fetched, fetched, fetch_error, other_error, coerce_guidance, GuidanceProvider, fresh, kept,
  after_fetch,
}
use saga_agents.Runtime.Guidance.Cache.{Holds, fresh-Holds}

-- Where a call stands.
pub data Waiting : Type 0 where
  fetching : Waiting
  answered : Fetched (Dict String) → Waiting

-- A call, with its first reading of the clock.
pub record Call : Type 0 where
  pub began : ℕ
  pub waiting : Waiting

pub record Provider : Type 0 where
  pub provider : GuidanceProvider
  pub calls : List Call

-- A call begins at this time; or the server's answer to a call is there at this time.
pub data CallEvent : Type 0 where
  begins : ℕ → CallEvent
  ends : ℕ → ℕ → Result Json → CallEvent

-- `get` up to the `await`
abbrev pub begin : ℕ → Provider → Option (Dict String) → Provider
begin now s (some guidance) = record s {
  calls = s.calls ++ record { began = now; waiting = answered (fetched guidance) } ∷ [];
}
begin now s none = record s { calls = s.calls ++ record { began = now; waiting = fetching } ∷ [] }

-- GuidanceProvider(…)
abbrev pub built : ℕ → Provider
built ttl = record { provider = record { ttl = ttl; cache = none; fetched_at = none }; calls = [] }

module _ (show : Json → String) where
  -- `get` from the `await` on
  abbrev pub finish : ℕ → ℕ → Result Json → Call → Waiting → Provider → Provider
  finish i later answer c fetching s =
      let (p, r) = after_fetch show later s.provider answer in
      record { provider = p; calls = set s.calls i (record c { waiting = answered r }) }
  finish i later answer c (answered r) s = s

  abbrev pub finish_if : ℕ → ℕ → Result Json → Provider → Option Call → Provider
  finish_if i later answer s none = s
  finish_if i later answer s (some c) = finish i later answer c c.waiting s

  -- The newest event stands first.
  unfoldable pub after : ℕ → List CallEvent → Provider
  after ttl [] = built ttl
  after ttl (begins now ∷ es) = let s = after ttl es in begin now s (fresh now s.provider)
  after ttl (ends i later answer ∷ es) =
      let s = after ttl es in finish_if i later answer s (get_elem? s.calls i)
