-- ===== src/Triggers/Debounce/History.antt =====
-- The debouncer against the history of its calls.
use saga_agents.Common.{ℕ, ◌+◌, ◌≤◌, ◌≡◌, ◌↔◌, refl, true, List, [], ◌∷◌, Option, none, some, arith}
use saga_agents.Triggers.Debounce.{Debouncer, init, mark, due, reset}

-- A call that changes the debouncer: a mark, with the clock's reading, or a reset.
pub data Call : Type 0 where
  marks : ℕ → Call
  resets : Call

abbrev pub call : Call → Debouncer → Debouncer
call (marks now) d = mark now d
call resets d = reset d

-- The newest call stands first.
unfoldable pub after : ℕ → List Call → Debouncer
after delay [] = init delay
after delay (c ∷ cs) = call c (after delay cs)

-- The time of the newest mark, if it came after the newest reset.
abbrev pub unserved : List Call → Option ℕ
unserved [] = none
unserved (marks now ∷ cs) = some now
unserved (resets ∷ cs) = none

-- The window after the newest unserved mark is over at this time.
abbrev pub IsQuiet : ℕ → ℕ → Option ℕ → Type 0
IsQuiet now delay none = ⊥
IsQuiet now delay (some last) = last + delay ≤ now

delay-after : (delay : ℕ) (cs : List Call) → (after delay cs).delay ≡ delay
unfolding after init mark reset
delay-after delay [] = refl
delay-after delay (marks now ∷ cs) = delay-after delay cs
delay-after delay (resets ∷ cs) = delay-after delay cs

-- After any calls, the debouncer is due at a time exactly when the newest call is a mark and its
-- delay has passed since that mark.
pub due-after_iff :
    (delay now : ℕ) (cs : List Call)
    → (due now (after delay cs) ≡ true) ↔ IsQuiet now delay (unserved cs)
unfolding after due init mark reset
due-after_iff delay now [] = ground arith
due-after_iff delay now (marks t ∷ cs) = ground (arith, delay-after delay cs)
due-after_iff delay now (resets ∷ cs) = ground arith
