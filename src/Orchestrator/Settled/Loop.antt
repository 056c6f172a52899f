-- ===== src/Orchestrator/Settled/Loop.antt =====
-- What holds between the phases of an orchestrated run, and where its loop ends.
use motoro.Prelude.{
  if◌then◌else◌, ℕ, zero, suc, ◌-◌, leb, String, Bool, true, false, Option, none, some, List, [],
  ◌∷◌, ◌++◌, map, get, get_or, drop, if-cases, refl,
}
use motoro.Patterns.Plugin.{loop_control, Callable}
use motoro.Runtime.Types.{
  Outcome, returned, raised, Phase, sense, reason, plan, act, eq_phase, RunStatus, Output,
  plan_output, act_output, other_output, PhaseResult,
}
use motoro.Runtime.Context.{Meta}
use motoro.Runtime.Phase.{RuntimeState, execute_phase}
use motoro.Runtime.Loop.{next, stop, after_phase, set_iteration, start_phase_idx, snapshot_if}
use motoro.Runtime.Loop.Outcomes.{
  after_phase_ok, IsInterrupt, none_set, cancel_set, pause_set, check_interrupt-IsInterrupt,
}
use motoro.Orchestrator.Types.{
  HookAction, skip_phase, retry_phase, abort, pause, Setup, hooks_at, Orch, context_of, set_state,
}
use motoro.Orchestrator.Hooks.{run_hooks}
use motoro.Orchestrator.Abort.{override_of, meta_text}
use motoro.Orchestrator.Sequence.{
  exception_of, control, controlled, get_phase_sequence, sequence_with,
}
use motoro.Orchestrator.Loop.{
  Step, before_act, injected_actions, post_process, go_on, if_returned, execute_then, start_retry,
  end_retry, after_post, run_and_post, after_pre, after_interrupt, beat, run_phase, run_phases,
  empty_sequence, run_sequence, set_output, exhausted, run_iterations, run_loop, pre_hook,
  post_hook,
}
use motoro.Orchestrator.Settled.{
  Between, Fine, Between-Ended, hooks_ok, stop_aborted_ok, stop_paused_ok, lift_ok,
}

module _ (setup : Setup) (phases : List Phase) where
  injected_ok : (o : Orch) → Between o → Between (injected_actions phases o)
  unfolding injected_actions
  injected_ok o b =
      if-cases Between _ _ _ (λ _. b) (λ _. found_ok (get (context_of o).phase_outputs plan))
    where
      found_ok :
          (found : Option Output)
          → Between (elim found [
            | some (plan_output p) ↦ record o {
              run = record o.run {
                actions_taken = o.run.actions_taken ++ map (λ s. s.action) p.steps;
              };
            }
            | _ ↦ o
          ])
      found_ok none = b
      found_ok (some (plan_output p)) = b
      found_ok (some (act_output a)) = b
      found_ok (some (other_output t)) = b

  before_act_ok :
      (p : Phase) (out : Output) (o : Orch) → Between o → Between (before_act phases p out o)
  unfolding before_act
  before_act_ok act (act_output a) o b = injected_ok o b
  before_act_ok act (plan_output a) o b = b
  before_act_ok act (other_output a) o b = b
  before_act_ok sense _ o b = b
  before_act_ok reason _ o b = b
  before_act_ok plan _ o b = b

  post_process_ok :
      (p : Phase) (out : Output) (o : Orch) → Between o → Fine (post_process setup phases p out o)
  unfolding post_process
  post_process_ok p out o b =
      let effective = get_or (context_of o).phase_outputs p out in
      let o' = before_act phases p effective o in
      let h = before_act_ok p effective o b in
      lift_ok o' (after_phase setup.runtime p effective o'.run) h.1
        (after_phase_ok setup.runtime p effective o'.run h.0)

  execute_ok :
      (p : Phase) (k : Output → Orch → Step) (o : Orch)
      → ((out : Output) (o' : Orch) → Between o' → Fine (k out o'))
      → Between o
      → Fine (execute_then setup p k o)
  unfolding execute_then if_returned
  execute_ok p k o f b = returned_ok (execute_phase setup.runtime p o.run.state)
    where
      returned_ok : (r : Outcome PhaseResult × RuntimeState) → Fine (if_returned k o r)
      returned_ok (raised e, s) = (b.0.2, b.1)
      returned_ok (returned result, s) = f result.output (set_state s o) b

  after_post_ok :
      (p : Phase) (out : Output) (r : Option HookAction × Orch)
      → Between r.1
      → Fine (after_post setup phases p out r)
  unfolding after_post start_retry end_retry
  after_post_ok p out (some retry_phase, o) b =
      execute_ok p (λ again o'. post_process setup phases p again (end_retry o')) (start_retry p o)
        (λ again o' b'. post_process_ok p again (end_retry o') b') b
  after_post_ok p out (some abort, o) b = stop_aborted_ok setup o b
  after_post_ok p out (some pause, o) b = stop_paused_ok o b
  after_post_ok p out (some skip_phase, o) b = post_process_ok p out o b
  after_post_ok p out (none, o) b = post_process_ok p out o b

  run_and_post_ok : (p : Phase) (o : Orch) → Between o → Fine (run_and_post setup phases p o)
  unfolding run_and_post
  run_and_post_ok p o b =
      let hooked : Output → Orch → Option HookAction × Orch =
        λ out o'. run_hooks setup (post_hook p) (some out) o' in
      execute_ok p (λ out o'. after_post setup phases p out (hooked out o')) o
        (λ out o' b'.
          after_post_ok p out (hooked out o') (hooks_ok setup (post_hook p) (some out) o' b'))
        b

  after_pre_ok :
      (p : Phase) (r : Option HookAction × Orch) → Between r.1 → Fine (after_pre setup phases p r)
  unfolding after_pre
  after_pre_ok p (some skip_phase, o) b = b
  after_pre_ok p (some abort, o) b = stop_aborted_ok setup o b
  after_pre_ok p (some pause, o) b = stop_paused_ok o b
  after_pre_ok p (some retry_phase, o) b = run_and_post_ok p o b
  after_pre_ok p (none, o) b = run_and_post_ok p o b

  after_interrupt_ok :
      (p : Phase) {i : Option RunStatus} (o : Orch)
      → IsInterrupt i
      → Between o
      → Fine (after_interrupt setup phases p i o)
  unfolding after_interrupt snapshot_if
  after_interrupt_ok p o none_set b =
      after_pre_ok p (run_hooks setup (pre_hook p) none o) (hooks_ok setup (pre_hook p) none o b)
  after_interrupt_ok p o cancel_set (h, d) = ((h.1, h.2, refl), d)
  after_interrupt_ok p o pause_set (h, d) = ((h.1, (_, refl)), d)

  run_phase_ok : (p : Phase) (o : Orch) → Between o → Fine (run_phase setup phases p o)
  unfolding run_phase beat
  run_phase_ok p o b =
      after_interrupt_ok p _
        (check_interrupt-IsInterrupt (setup.runtime.signals o.run.state.checks)) b

go_on_ok :
    (rest : Orch → Step) (r : Step)
    → ((o : Orch) → Between o → Fine (rest o))
    → Fine r
    → Fine (go_on rest r)
unfolding go_on
go_on_ok rest (returned next, o) f h = f o h
go_on_ok rest (returned stop, o) f h = h
go_on_ok rest (raised e, o) f h = h

run_phases_ok :
    (setup : Setup) (phases ps : List Phase) (o : Orch)
    → Between o
    → Fine (run_phases setup phases ps o)
unfolding run_phases
run_phases_ok setup phases [] o b = b
run_phases_ok setup phases (p ∷ ps) o b =
    go_on_ok (run_phases setup phases ps) (run_phase setup phases p o)
      (run_phases_ok setup phases ps) (run_phase_ok setup phases p o b)

empty_ok : (is_first : Bool) (o : Orch) → Between o → Fine (empty_sequence is_first o)
unfolding empty_sequence set_output
empty_ok is_first o b = found_ok (override_of (context_of o))
  where
    found_ok :
        (m : Option Meta)
        → Fine (elim m [
          | some m ↦ (returned stop, set_output (meta_text m) o)
          | none ↦
              if is_first
              then (raised "RuntimeError: empty phase_sequence on the first iteration", o)
              else (returned stop, o)
        ])
    found_ok none = if-cases Fine is_first _ _ (λ _. (b.0.2, b.1)) (λ _. Between-Ended o b)
    found_ok (some m) = Between-Ended (set_output (meta_text m) o) b

run_sequence_ok :
    (setup : Setup) (is_first : Bool) (first : ℕ) (r : Outcome (List Phase) × Orch)
    → Between r.1
    → Fine (run_sequence setup is_first first r)
unfolding run_sequence
run_sequence_ok setup is_first first (raised e, o) b = (b.0.2, b.1)
run_sequence_ok setup is_first first (returned [], o) b = empty_ok is_first o b
run_sequence_ok setup is_first first (returned (p ∷ ps), o) b =
    run_phases_ok setup (p ∷ ps) (drop first (p ∷ ps)) o b

-- What a hook of the loop raises is raised again, or the next hook runs.
raised_ok :
    (strict : Bool) (e : Option String) (o : Orch) (rest : Option String × Orch)
    → Between o
    → Between rest.1
    → let r : Option String × Orch = elim e [
      | none ↦ rest
      | some x ↦ if strict then (some x, o) else rest
    ] in
      Between r.1
raised_ok strict none o rest b h = h
raised_ok strict (some x) o rest b h =
    if-cases (λ (r : Option String × Orch). Between r.1) strict _ _ (λ _. b) (λ _. h)

control_ok :
    (setup : Setup) (hooks : List (String × Callable)) (o : Orch)
    → Between o
    → Between (control setup hooks o).1
unfolding control
control_ok setup [] o b = b
control_ok setup ((slug, cb) ∷ hooks) o b =
    let (result, s) = setup.call cb none o.run.state in
    raised_ok setup.fail_on_hook_error (exception_of result) (set_state s o)
      (control setup hooks (set_state s o)) b (control_ok setup hooks (set_state s o) b)

controlled_ok : (r : Option String × Orch) → Between r.1 → Between (controlled r).1
unfolding controlled
controlled_ok (some e, o) b = b
controlled_ok (none, o) b = b

sequence_ok :
    (setup : Setup) (hooks : List (String × Callable)) (o : Orch)
    → Between o
    → Between (sequence_with setup hooks o).1
unfolding sequence_with
sequence_ok setup [] o b = b
sequence_ok setup (hook ∷ hooks) o b = controlled_ok _ (control_ok setup (hook ∷ hooks) o b)

run_iterations_ok :
    (setup : Setup) (left i : ℕ) (is_first : Bool) (first : ℕ) (o : Orch)
    → Between o
    → Fine (run_iterations setup left i is_first first o)
unfolding run_iterations exhausted set_output set_iteration get_phase_sequence
run_iterations_ok setup zero i is_first first o b = b
run_iterations_ok setup (suc left) i is_first first o b =
    let o' = record o { run = set_iteration i o.run } in
    go_on_ok (run_iterations setup left (suc i) false 0) _
      (run_iterations_ok setup left (suc i) false 0)
      (run_sequence_ok setup is_first first (get_phase_sequence setup o')
        (sequence_ok setup (hooks_at setup loop_control) o' b))

pub run_loop_ok :
    (setup : Setup) (resume_phase : Option String) (o : Orch)
    → Between o
    → Fine (run_loop setup resume_phase o)
unfolding run_loop set_output
run_loop_ok setup resume_phase o b =
    let c = context_of o in
    if-cases Fine (leb c.max_iterations c.iteration)
      (returned stop, set_output "Max iterations reached on resume." o)
      (run_iterations setup (c.max_iterations - c.iteration) c.iteration true
        (start_phase_idx resume_phase) o)
      (λ _. Between-Ended (set_output "Max iterations reached on resume." o) b)
      (λ _.
        run_iterations_ok setup (c.max_iterations - c.iteration) c.iteration true
          (start_phase_idx resume_phase) o b)
