-- ===== src/Triggers/Executor/Exclusion/Steps.antt =====
-- Each step of the executor keeps the lock discipline, where no lock expires.
use saga_agents.Common.{
  ℕ, ◌+◌, String, ◌≡◌, ◌≢◌, refl, true, false, none, some, ltb, arith, get_elem?, set, Bool-cases,
  inl, inr,
}
use saga_agents.Triggers.Lock.{LockService, Token, ours, lock_key, token_eq, compare_and_delete}
use saga_agents.Triggers.Executor.{
  Settings, Outcome, Phase, waits_global, waits_agent, setting, running, releasing, ended, Task,
  Executor, Delivery, answered, lost_request, lost_reply, RunEnd, returns, raises, after_run,
  take_global, take_agent, after_set, after_eval, cancel, cancels, cancelled, interrupted,
  skipped_redis_lock, raised, reported, failed,
}
use saga_agents.Triggers.Executor.Exclusion.{
  token_of, lock_of, Exclusive, lock-token, moved-Exclusive, idle-Exclusive, set_nx-keeps,
  compare_and_delete-keeps, set_nx_sets,
}

other_token : (m n : ℕ) → m ≢ n → token_eq (ours m) (ours n) ≡ false
other_token m n ne = ground arith

module _ (redis : LockService) (c : Settings) (on : c.redis ≡ true) where
  open redis use {Store, peek, set_nx, del}

  abbrev pub IsExclusive : Executor Store → Type 0
  IsExclusive s = Exclusive redis s.locks s.uuids s.tasks

  module _ (i : ℕ) (t : Task) (s : Executor Store) (at : get_elem? s.tasks i ≡ some t)
      (x : IsExclusive s) where
    same : (j : String) (u : Token) → peek s.locks j ≡ some u → peek s.locks j ≡ some u
    same j u h = h

    -- Task `i` goes to a phase with no lock; the locks of the others are kept.
    idle :
        (p : Phase) (locks' : Store)
        → lock_of p ≡ none
        → token_of p ≡ none
        → p ≢ running none
        → ((j : String) (u : Token) → peek s.locks j ≡ some u → peek locks' j ≡ some u)
        → Exclusive redis locks' s.uuids (set s.tasks i (record t { phase = p }))
    idle = idle-Exclusive redis s.locks s.uuids s.tasks x i t at

    pub take_global-Exclusive : (p : Phase) → IsExclusive (take_global i t p s)
    unfolding take_global
    take_global-Exclusive waits_global =
        let moved = idle waits_agent s.locks refl refl (λ e. cc) same in ground arith
    take_global-Exclusive _ = x

    pub take_agent-Exclusive : (p : Phase) → t.phase ≡ p → IsExclusive (take_agent c i t p s)
    unfolding take_agent
    take_agent-Exclusive waits_agent e = elim (Bool-cases (ltb 0 (s.agent_sems t.req.agent_id))) [
      | inl free ↦
          rw (free, on)
            (moved-Exclusive redis s.locks s.uuids s.tasks x i t at (setting s.uuids) s.locks
              (s.uuids + 1) (λ j u n ne there h. x.owned j u n there h) (λ n h. cc)
              (λ n h. inr (ground arith)) (omega arith) (λ h. cc))
      | inr taken ↦ rw taken x
    ]
    take_agent-Exclusive _ e = x

    pub after_set-Exclusive :
        (p : Phase) (d : Delivery) → t.phase ≡ p → IsExclusive (after_set redis i t p d s)
    unfolding after_set
    after_set-Exclusive (setting n) answered e =
        let key : String = lock_key t.req.agent_id in
        elim (Bool-cases (set_nx s.locks key (ours n)).1) [
          | inl got ↦ rw got (
              moved-Exclusive redis s.locks s.uuids s.tasks x i t at (running (some n)) _ s.uuids
                (λ j u m ne there h. set_nx-keeps redis s.locks key _ _ _ (x.owned j u m there h))
                (λ m h. cc ((set_nx_sets redis s.locks key (ours n) got).1)) (λ m h. inl (rw e h))
                (omega arith) (λ h. cc))
          | inr missed ↦ rw missed (
              idle (ended skipped_redis_lock) _ refl refl (λ h. cc)
                (λ j u h. set_nx-keeps redis s.locks key j (ours n) u h))
        ]
    after_set-Exclusive (setting n) lost_request e =
        idle (ended raised) s.locks refl refl (λ h. cc) same
    after_set-Exclusive (setting n) lost_reply e =
        idle (ended raised) _ refl refl (λ h. cc)
          (λ j u h. set_nx-keeps redis s.locks _ j (ours n) u h)
    after_set-Exclusive _ d e = x

    ran :
        (n : ℕ) (end : RunEnd)
        → t.phase ≡ running (some n)
        → Exclusive redis s.locks s.uuids (set s.tasks i (record t { phase = releasing n end }))
    ran n end e =
        moved-Exclusive redis s.locks s.uuids s.tasks x i t at (releasing n end) s.locks s.uuids
          (λ j u m ne there h. x.owned j u m there h) (λ m h. x.owned i t m at (rw e h))
          (λ m h. inl (rw e h)) (omega arith) (λ h. cc)

    pub after_run-Exclusive :
        (p : Phase) (end : RunEnd) → t.phase ≡ p → IsExclusive (after_run i t p end s)
    unfolding after_run
    after_run-Exclusive (running none) end e = absurd (x.locked i t at e)
    after_run-Exclusive (running (some n)) (returns status) e = ran n (returns status) e
    after_run-Exclusive (running (some n)) raises e = ran n raises e
    after_run-Exclusive (running (some n)) cancels e = ran n cancels e
    after_run-Exclusive _ end e = x

    -- The lock of task `i` goes, and those of the others stay.
    released :
        (n : ℕ) (o : Outcome)
        → token_of t.phase ≡ some n
        → Exclusive redis
            (compare_and_delete redis s.locks (lock_key t.req.agent_id) (ours n))
            s.uuids
            (set s.tasks i (record t { phase = ended o }))
    released n o mine =
        moved-Exclusive redis s.locks s.uuids s.tasks x i t at (ended o) _ s.uuids
          (λ j u m ne there h.
            compare_and_delete-keeps redis s.locks _ _ (ours n) (ours m)
              (other_token m n (λ same.
                ne (x.unique i j t u n at there mine (lock-token redis u.phase n (rw same at h)))))
              (x.owned j u m there h))
          (λ m h. cc) (λ m h. cc) (omega arith) (λ h. cc)

    pub after_eval-Exclusive :
        (p : Phase) (d : Delivery) → t.phase ≡ p → IsExclusive (after_eval redis i t p d s)
    unfolding after_eval
    after_eval-Exclusive (releasing n (returns status)) lost_request e =
        idle (ended (reported status)) s.locks refl refl (λ h. cc) same
    after_eval-Exclusive (releasing n raises) lost_request e =
        idle (ended failed) s.locks refl refl (λ h. cc) same
    after_eval-Exclusive (releasing n (returns status)) _ e =
        released n (reported status) (rw e refl)
    after_eval-Exclusive (releasing n raises) _ e = released n failed (rw e refl)
    after_eval-Exclusive (releasing n cancels) lost_request e =
        idle (ended (interrupted cancels)) s.locks refl refl (λ h. cc) same
    after_eval-Exclusive (releasing n cancels) _ e = released n (interrupted cancels) (rw e refl)
    after_eval-Exclusive _ d e = x

    pub cancel-Exclusive :
        (p : Phase) (d : Delivery) → t.phase ≡ p → IsExclusive (cancel redis i t p d s)
    unfolding cancel
    cancel-Exclusive waits_global d e = idle (ended cancelled) s.locks refl refl (λ h. cc) same
    cancel-Exclusive waits_agent d e = idle (ended cancelled) s.locks refl refl (λ h. cc) same
    cancel-Exclusive (setting n) lost_request e =
        idle (ended cancelled) s.locks refl refl (λ h. cc) same
    cancel-Exclusive (setting n) _ e =
        idle (ended cancelled) _ refl refl (λ h. cc)
          (λ j u h. set_nx-keeps redis s.locks _ j (ours n) u h)
    cancel-Exclusive (running token) d e = after_run-Exclusive (running token) cancels e
    cancel-Exclusive (releasing n end) lost_request e =
        idle (ended (interrupted end)) s.locks refl refl (λ h. cc) same
    cancel-Exclusive (releasing n end) _ e = released n (interrupted end) (rw e refl)
    cancel-Exclusive (ended o) d e = x
