-- ===== src/App/Runs.antt =====
-- The runner under the executor, as `build_service` of src/saga_agents/app.py wires them: how the end
-- of `AgentRunner.run` (runtime/runner.py) shows in the state and the metrics of
-- `RunExecutor.submit` (triggers/executor.py).
use mathlib.Core.Option
use saga_agents.Common.{append-nil}
use saga_agents.Common.{
  ℕ, ◌+◌, String, ◌≡◌, ◌≢◌, ◌↔◌, ◌⊎◌, ◌∙◌, refl, sym, ap, Bool, true, false, List, [], ◌∷◌, ◌++◌,
  Option, none, some, get_elem?, get_elem?-set_self, inl, inr,
}
use saga_agents.Common.Dict.{lookup}
use saga_agents.Common.Result.{Result, Awaited, completes, fails, is_cancelled}
use saga_agents.Config.Models.{AgentDefinition}
use saga_agents.Runtime.Report.{RunStatus, ok, limit_exceeded, timeout, error, RunReport}
use saga_agents.Runtime.Runner.{AgentRunner, SpanContext}
use saga_agents.Runtime.Runner
use saga_agents.Runtime.Runner.Reports.{run-Reported}
use saga_agents.Triggers.Lock.{LockService}
use saga_agents.Triggers.Executor.{
  Settings, Phase, running, releasing, ended, Task, Executor, Delivery, lost_request, RunEnd,
  Outcome, returns, raises, cancels, reported, failed, interrupted, run_ends, eval_ends, RunCount,
  run_count, is_ok, update, after_run, after_eval, at_task, step, run,
}

-- How the `await` of `self._runner.run(definition)` ends, for `except Exception`.
unfoldable pub end_of : Awaited RunReport → RunEnd
end_of (completes report) = returns report.status
end_of (fails e) = raises
end_of is_cancelled = cancels

-- The run of the definition that the table has for the agent of the request.
unfoldable pub run_of :
    {Model Server G S : Type 0}
    → AgentRunner Model Server G S
    → Settings
    → Task
    → String
    → Result SpanContext
    → G
    → S
    → Option (Awaited RunReport)
run_of runner c t run_id tracing g sink =
    Option.map (λ definition. (Runner.run runner definition none run_id tracing g sink).result)
      (lookup t.req.agent_id c.definitions)

abbrev pub HasNoError : Awaited RunReport → Type 0
HasNoError result = (report : RunReport) × (result ≡ completes report) × (report.error ≡ none)

-- What AGENT_RUNS gets for a run: nothing where it was cancelled; otherwise one increment, `ok`
-- exactly if it returned a report without an error.
abbrev pub Counts : Task → Awaited RunReport → List RunCount → Type 0
Counts t r counts =
    ((r ≡ is_cancelled) × (counts ≡ []))
    ⊎ ((r ≢ is_cancelled)
        × (good : Bool) × (counts ≡ run_count t good ∷ [])
        × ((good ≡ true) ↔ HasNoError r))

counts : Task → Awaited RunReport → List RunCount
counts t (completes report) = run_count t (is_ok report.status) ∷ []
counts t (fails e) = run_count t false ∷ []
counts t is_cancelled = []

abbrev pub last_outcome : Awaited RunReport → Outcome
last_outcome (completes report) = reported report.status
last_outcome (fails e) = failed
last_outcome is_cancelled = interrupted cancels

is_ok_iff : (status : RunStatus) → (is_ok status ≡ true) ↔ (status ≡ ok)
is_ok_iff ok = (λ h. refl, λ h. refl)
is_ok_iff limit_exceeded = (λ h. cc, λ h. cc)
is_ok_iff timeout = (λ h. cc, λ h. cc)
is_ok_iff error = (λ h. cc, λ h. cc)

-- An error stands in a report exactly where its status is not ok.
run_Counts :
    {Model Server G S : Type 0} (runner : AgentRunner Model Server G S)
    (definition : AgentDefinition) (run_id : String) (tracing : Result SpanContext) (g : G)
    (sink : S) (t : Task)
    → let r = (Runner.run runner definition none run_id tracing g sink).result in
      Counts t r (counts t r)
unfolding counts
run_Counts runner definition run_id tracing g sink t =
    elim (run-Reported runner definition none run_id tracing g sink) [
      | inl (report, e, faithful) ↦ rw e (
          inr (
            λ h. cc,
            is_ok report.status,
            refl,
            (
              λ h. (report, refl, faithful.errors.1 ((is_ok_iff report.status).0 h)),
              λ (x, same, clean).
                  let equal : report ≡ x = cc in
                  (is_ok_iff report.status).1 (faithful.errors.0 (ap (λ y. y.error) equal ∙ clean)),
            ),
          ))
      | inr (inl (e, left_by, nothing, unchanged)) ↦
          rw left_by (inr (λ h. cc, false, refl, (λ h. cc, λ h. cc)))
      | inr (inr (stops, offered)) ↦ rw stops (inl (refl, refl))
    ]

module _ (redis : LockService) (c : Settings) where
  open redis use {Store}

  abbrev pub after_both : ℕ → RunEnd → Delivery → Executor Store → Executor Store
  after_both i end d s = run redis c (run_ends i end ∷ eval_ends i d ∷ []) s

  -- Submit `i` has ended as its run did: the run was observed and counted, and both permits are back.
  pub record Over (i : ℕ) (t : Task) (r : Awaited RunReport) (s s' : Executor Store)
      (counts : List RunCount) : Type 0 where
    pub over : get_elem? s'.tasks i ≡ some (record t { phase = ended (last_outcome r) })
    pub counted : s'.runs ≡ s.runs ++ counts
    pub observed : s'.durations ≡ s.durations ++ t.req.agent_id ∷ []
    pub lowered : s'.inflight_decs ≡ s.inflight_decs + 1
    pub global_permit : s'.global_sem ≡ s.global_sem + 1
    pub agent_permit :
        s'.agent_sems ≡ update s.agent_sems t.req.agent_id (s.agent_sems t.req.agent_id + 1)

  at_task-some :
      (i : ℕ) (f : Task → Executor Store → Executor Store) (t : Task) (s : Executor Store)
      → get_elem? s.tasks i ≡ some t
      → at_task redis i f s ≡ f t s
  at_task-some i f t s at = rw (at, at_task) refl

  -- The two steps, at the task and at what the first has made of it.
  after_both-eq :
      (i : ℕ) (t t' : Task) (end : RunEnd) (d : Delivery) (s s' : Executor Store)
      → get_elem? s.tasks i ≡ some t
      → after_run i t t.phase end s ≡ s'
      → get_elem? s'.tasks i ≡ some t'
      → after_both i end d s ≡ after_eval redis i t' t'.phase d s'
  unfolding run step
  after_both-eq i t t' end d s s' at first at' =
      ap (at_task redis i (λ x. after_eval redis i x x.phase d))
        (at_task-some i (λ x. after_run i x x.phase end) t s at ∙ first)
      ∙ at_task-some i (λ x. after_eval redis i x x.phase d) t' s' at'

  module _ (i : ℕ) (t : Task) (s : Executor Store) (at : get_elem? s.tasks i ≡ some t) where
    -- After the run: the submit is over, or waits for the release of its lock.
    abbrev ran : Option ℕ → Awaited RunReport → Executor Store
    ran token r = after_run i t (running token) (end_of r) s

    abbrev placed : Phase → Task
    placed p = record t { phase = p }

    placed_unlocked :
        (r : Awaited RunReport)
        → get_elem? (ran none r).tasks i ≡ some (placed (ended (last_outcome r)))
    unfolding after_run end_of
    placed_unlocked (completes report) = get_elem?-set_self s.tasks i t _ at
    placed_unlocked (fails e) = get_elem?-set_self s.tasks i t _ at
    placed_unlocked is_cancelled = get_elem?-set_self s.tasks i t _ at

    placed_releasing :
        (n : ℕ) (r : Awaited RunReport)
        → get_elem? (ran (some n) r).tasks i ≡ some (placed (releasing n (end_of r)))
    unfolding after_run end_of
    placed_releasing n (completes report) = get_elem?-set_self s.tasks i t _ at
    placed_releasing n (fails e) = get_elem?-set_self s.tasks i t _ at
    placed_releasing n is_cancelled = get_elem?-set_self s.tasks i t _ at

    -- The end, by where the submit then stands and what AGENT_RUNS shows.
    Over-by :
        (r : Awaited RunReport) (s' : Executor Store) (cs : List RunCount)
        → get_elem? s'.tasks i ≡ some (placed (ended (last_outcome r)))
        → s'.runs ≡ s.runs ++ cs
        → s'.durations ≡ s.durations ++ t.req.agent_id ∷ []
        → s'.inflight_decs ≡ s.inflight_decs + 1
        → s'.global_sem ≡ s.global_sem + 1
        → s'.agent_sems ≡ update s.agent_sems t.req.agent_id (s.agent_sems t.req.agent_id + 1)
        → Over i t r s s' cs
    Over-by r s' cs h1 h2 h3 h4 h5 h6 = record {
      over = h1;
      counted = h2;
      observed = h3;
      lowered = h4;
      global_permit = h5;
      agent_permit = h6;
    }

    Over-unlocked : (r : Awaited RunReport) → Over i t r s (ran none r) (counts t r)
    unfolding after_run end_of counts
    Over-unlocked (completes report) =
        Over-by _ _ _ (placed_unlocked (completes report)) refl refl refl refl refl
    Over-unlocked (fails e) = Over-by _ _ _ (placed_unlocked (fails e)) refl refl refl refl refl
    Over-unlocked is_cancelled =
        Over-by _ _ _ (placed_unlocked is_cancelled) (sym (append-nil s.runs)) refl refl refl refl

    Over-released :
        (n : ℕ) (r : Awaited RunReport) (d : Delivery)
        → Over i t r s
            (after_eval redis i
              (placed (releasing n (end_of r)))
              (releasing n (end_of r))
              d
              (ran (some n) r))
            (counts t r)
    unfolding after_run after_eval end_of counts
    Over-released n (completes report) lost_request =
        let there = get_elem?-set_self _ i _ _ (placed_releasing n (completes report)) in
        Over-by _ _ _ there refl refl refl refl refl
    Over-released n (completes report) _ =
        let there = get_elem?-set_self _ i _ _ (placed_releasing n (completes report)) in
        Over-by _ _ _ there refl refl refl refl refl
    Over-released n (fails e) lost_request =
        let there = get_elem?-set_self _ i _ _ (placed_releasing n (fails e)) in
        Over-by _ _ _ there refl refl refl refl refl
    Over-released n (fails e) _ =
        let there = get_elem?-set_self _ i _ _ (placed_releasing n (fails e)) in
        Over-by _ _ _ there refl refl refl refl refl
    Over-released n is_cancelled lost_request =
        let there = get_elem?-set_self _ i _ _ (placed_releasing n is_cancelled) in
        Over-by _ _ _ there (sym (append-nil s.runs)) refl refl refl refl
    Over-released n is_cancelled _ =
        let there = get_elem?-set_self _ i _ _ (placed_releasing n is_cancelled) in
        Over-by _ _ _ there (sym (append-nil s.runs)) refl refl refl refl

    Over-run :
        (token : Option ℕ) (r : Awaited RunReport) (d : Delivery)
        → t.phase ≡ running token
        → Over i t r s (after_both i (end_of r) d s) (counts t r)
    unfolding after_eval
    Over-run none r d is =
        rw
          (after_both-eq i t (placed (ended (last_outcome r))) (end_of r) d s (ran none r) at
            (ap (λ p. after_run i t p (end_of r) s) is) (placed_unlocked r))
          (Over-unlocked r)
    Over-run (some n) r d is =
        rw
          (after_both-eq i t (placed (releasing n (end_of r))) (end_of r) d s (ran (some n) r) at
            (ap (λ p. after_run i t p (end_of r) s) is) (placed_releasing n r))
          (Over-released n r d)

  run_of-Counts :
      {Model Server G S : Type 0} (runner : AgentRunner Model Server G S) (run_id : String)
      (tracing : Result SpanContext) (g : G) (sink : S) (t : Task) (r : Awaited RunReport)
      (o : Option AgentDefinition)
      → Option.map
          (λ definition. (Runner.run runner definition none run_id tracing g sink).result)
          o
        ≡ some r
      → Counts t r (counts t r)
  run_of-Counts runner run_id tracing g sink t r none e = cc
  run_of-Counts runner run_id tracing g sink t r (some definition) e =
      let same : (Runner.run runner definition none run_id tracing g sink).result ≡ r = cc in
      rw (sym same) (run_Counts runner definition run_id tracing g sink t)

  -- A run of the executor is a run of the runner. Where a submit runs, with or without a lock token,
  -- and `run` ends so for the definition of its agent, and then the answer to `eval` comes or is
  -- lost: the submit has ended as the run did, AGENT_RUN_DURATION has one observation more, the gauge
  -- is lowered, and the global permit and the agent's are back. AGENT_RUNS has one increment more,
  -- for the submit's agent and trigger, `ok` exactly if the run returned a report without an error;
  -- or none, if the run was cancelled.
  pub run-Over :
      {Model Server G S : Type 0} (runner : AgentRunner Model Server G S) (run_id : String)
      (tracing : Result SpanContext) (g : G) (sink : S) (r : Awaited RunReport) (i : ℕ) (t : Task)
      (token : Option ℕ) (d : Delivery) (s : Executor Store)
      → get_elem? s.tasks i ≡ some t
      → t.phase ≡ running token
      → run_of runner c t run_id tracing g sink ≡ some r
      → (counts : List RunCount) × Over i t r s (after_both i (end_of r) d s) counts
        × Counts t r counts
  unfolding run_of
  run-Over runner run_id tracing g sink r i t token d s at is ran_so = (
    counts t r,
    Over-run i t s at token r d is,
    run_of-Counts runner run_id tracing g sink t r (lookup t.req.agent_id c.definitions) ran_so,
  )
