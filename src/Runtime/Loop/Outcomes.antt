-- ===== src/Runtime/Loop/Outcomes.antt =====
-- How the status of a finished run goes with its error, its snapshot and its output.
use motoro.Prelude.{
  ℕ, ◌-◌, String, Option, none, some, List, [], ◌∷◌, ◌++◌, Bool-cases, inl, inr, ◌≡◌, refl,
}
use motoro.Runtime.Types.{
  Outcome, returned, raised, Phase, sense, reason, plan, act, RunStatus, completed, failed,
  cancelled, paused, Output, plan_output, act_output, other_output, PhaseResult, ActOutput,
}
use motoro.Runtime.Context.{RunContext}
use motoro.Runtime.Phase.{Env, RuntimeState, Signals, check_interrupt}
use motoro.Runtime.Loop.{
  Run, RunError, Flow, next, stop, after_act, after_memory, respond, after_phase, after_execute,
  after_limits, after_check, run_phase, set_iteration, start_run, run_iterations, catch, run_loop,
  run, start_phase_idx,
}
use motoro.Runtime.Loop.Induction.{Ensures, Ensures-run_iterations}

-- A completed run has no error and no snapshot; a failed one has an error and no snapshot; a
-- cancelled one has neither and no output; a paused one has a snapshot, no error and no output.
abbrev pub Consistent : RunStatus → String → Option RunError → Option RunContext → Type 0
Consistent completed output error snapshot = (error ≡ none) × (snapshot ≡ none)
Consistent failed output error snapshot = ((e : RunError) × (error ≡ some e)) × (snapshot ≡ none)
Consistent cancelled output error snapshot = (error ≡ none) × (snapshot ≡ none) × (output ≡ "")
Consistent paused output error snapshot =
    (error ≡ none) × ((c : RunContext) × (snapshot ≡ some c)) × (output ≡ "")
Consistent _ output error snapshot = ⊥

abbrev pub Unsettled : Run → Type 0
Unsettled v = (v.status ≡ completed) × (v.error_msg ≡ none) × (v.context_snapshot ≡ none)

abbrev pub Good : Flow → Run → Type 0
Good next v = Unsettled v
Good stop v = Consistent v.status v.final_output v.error_msg v.context_snapshot

abbrev pub Raised : String → Run → Type 0
Raised e v = v.context_snapshot ≡ none

respond_ok : (o : ActOutput) (v : Run) → Unsettled v → Ensures Good Raised (respond o v)
unfolding respond
respond_ok o v h = elim (Bool-cases o.should_continue) [
  | inl e ↦ rw e h
  | inr e ↦ rw (e, h.0) (h.1, h.2)
]

after_memory_ok :
    (e : Option String) (o : ActOutput) (v : Run)
    → Unsettled v
    → Ensures Good Raised (after_memory e o v)
unfolding after_memory
after_memory_ok (some e) o v h = h.2
after_memory_ok none o v h =
    respond_ok o (record v { remembered = v.remembered ++ o.final_response ∷ [] }) h

after_act_ok :
    (memory : Option (ℕ → String → Option String)) (o : ActOutput) (v : Run)
    → Unsettled v
    → Ensures Good Raised (after_act memory o v)
unfolding after_act
after_act_ok none o v h = respond_ok o v h
after_act_ok (some write) o v h = after_memory_ok (write _ _) o v h

pub after_phase_ok :
    (env : Env) (phase : Phase) (o : Output) (v : Run)
    → Unsettled v
    → Ensures Good Raised (after_phase env phase o v)
unfolding after_phase
after_phase_ok env plan (plan_output p) v h = elim (Bool-cases p.is_complete) [
  | inl e ↦ rw e (h.1, h.2)
  | inr e ↦ rw e h
]
after_phase_ok env plan (act_output o) v h = h
after_phase_ok env plan (other_output t) v h = h
after_phase_ok env act (act_output o) v h = after_act_ok env.remember o v h
after_phase_ok env act (plan_output p) v h = rw h.0 (h.1, h.2)
after_phase_ok env act (other_output t) v h = rw h.0 (h.1, h.2)
after_phase_ok env sense o v h = h
after_phase_ok env reason o v h = h

after_execute_ok :
    (env : Env) (phase : Phase) (r : Outcome PhaseResult × RuntimeState) (v : Run)
    → Unsettled v
    → Ensures Good Raised (after_execute env phase r v)
unfolding after_execute
after_execute_ok env phase (raised e, s) v h = h.2
after_execute_ok env phase (returned result, s) v h =
    after_phase_ok env phase result.output (record v { state = s }) h

after_limits_ok :
    (env : Env) (phase : Phase) (o : Option (List String)) (v : Run)
    → Unsettled v
    → Ensures Good Raised (after_limits env phase o v)
unfolding after_limits
after_limits_ok env phase (some names) v h = ((_, refl), h.2)
after_limits_ok env phase none v h = after_execute_ok env phase _ v h

-- The interrupt check gives nothing, cancelled or paused.
pub data IsInterrupt : Option RunStatus → Type 0 where
  none_set : IsInterrupt none
  cancel_set : IsInterrupt (some cancelled)
  pause_set : IsInterrupt (some paused)

pub check_interrupt-IsInterrupt : (s : Signals) → IsInterrupt (check_interrupt s)
unfolding check_interrupt
check_interrupt-IsInterrupt s = elim (Bool-cases s.cancel_set) [
  | inl e ↦ rw e cancel_set
  | inr e ↦ rw e (elim (Bool-cases s.pause_set) [ inl p ↦ rw p pause_set | inr p ↦ rw p none_set ])
]

after_check_ok :
    (env : Env) (phase : Phase) {o : Option RunStatus} (v : Run)
    → IsInterrupt o
    → Unsettled v
    → Ensures Good Raised (after_check env phase o v)
unfolding after_check
after_check_ok env phase v none_set h = after_limits_ok env phase _ v h
after_check_ok env phase v cancel_set h = (h.1, h.2, refl)
after_check_ok env phase v pause_set h = (h.1, (_, refl), refl)

run_phase_ok :
    (env : Env) (phase : Phase) (v : Run)
    → Unsettled v
    → Ensures Good Raised (run_phase env phase v)
unfolding run_phase
run_phase_ok env phase v h = after_check_ok env phase _ (check_interrupt-IsInterrupt _) h

catch_ok : (r : Outcome Flow × Run) → Ensures Good Raised r → Good stop (catch r)
unfolding catch
catch_ok (returned next, v) h = rw h.0 (h.1, h.2)
catch_ok (returned stop, v) h = h
catch_ok (raised e, v) h = ((_, refl), h)

-- Whatever the phases, the events, the limits, the commits and the memory do, the result of a run
-- is completed, failed, cancelled or paused, and its error, snapshot and output go with that: an
-- error exactly when it failed, a snapshot exactly when it paused, and no output when it was
-- cancelled or paused.
pub run-Consistent :
    (env : Env) (c : RunContext) (resume_phase : Option String)
    → let r = run env c resume_phase in Consistent r.status r.output r.error r.context_snapshot
unfolding run run_loop
run-Consistent env c resume_phase =
    catch_ok
      (run_iterations env (c.max_iterations - c.iteration) c.iteration
        (start_phase_idx resume_phase) (start_run c))
      (Ensures-run_iterations env Good Raised (run_phase_ok env)
        (λ i v h. unfold set_iteration in h) (λ v h. h) (c.max_iterations - c.iteration) c.iteration
        (start_phase_idx resume_phase) (start_run c) (unfold start_run in (refl, refl, refl)))
