-- ===== src/Triggers/Debounce.antt =====
-- class Debouncer of src/saga_agents/triggers/redis_listener.py.
-- A time is a number of clock ticks, at some fixed resolution; the source's floats are read as
-- exact. Each call takes the reading of `self._clock()` as an argument.
pub mod History
use saga_agents.Common.{ℕ, ◌+◌, Bool, true, false, Option, none, some, leb}

pub record Debouncer : Type 0 where
  pub delay : ℕ
  pub last_mark : Option ℕ
  pub pending : Bool

-- Debouncer(delay_seconds)
unfoldable pub init : ℕ → Debouncer
init delay = record { delay = delay; last_mark = none; pending = false }

unfoldable pub mark : ℕ → Debouncer → Debouncer
mark now d = record d { last_mark = some now; pending = true }

-- `now - last_mark >= delay`
elapsed : ℕ → ℕ → Option ℕ → Bool
elapsed now delay none = false
elapsed now delay (some last) = leb (last + delay) now

unfoldable pub due : ℕ → Debouncer → Bool
unfolding elapsed
due now d = elim d.pending [ false ↦ false | true ↦ elapsed now d.delay d.last_mark ]

unfoldable pub reset : Debouncer → Debouncer
reset d = record d { pending = false }
