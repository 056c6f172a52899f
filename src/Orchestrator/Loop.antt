-- ===== src/Orchestrator/Loop.antt =====
-- `PatternOrchestrator.run`: the loop, its hooks, and the end of its try block.
use motoro.Prelude.{
  ℕ, zero, suc, ◌+◌, ◌-◌, leb, String, eq_text, eq_number, Bool, true, false, Option, none, some,
  List, [], ◌∷◌, ◌++◌, map, drop, get, get_or, put, remove, has, if◌then◌else◌,
}
use motoro.Patterns.Plugin.{
  HookPoint, pre_sense, post_sense, pre_reason, post_reason, pre_plan, post_plan, pre_act, post_act,
  on_completion, on_error,
}
use motoro.Runtime.Types.{
  Outcome, returned, raised, Phase, sense, reason, plan, act, eq_phase, RunStatus, completed,
  failed, paused, Output, plan_output, act_output, PhaseResult,
}
use motoro.Runtime.Plan.{◌or_text◌}
use motoro.Runtime.Context.{text}
use motoro.Runtime.Phase.{RuntimeState, execute_phase, check_interrupt}
use motoro.Runtime.Loop.{
  Run, exception, aborted, Flow, next, stop, after_phase, snapshot_if, set_iteration,
  start_phase_idx, phase_name,
}
use motoro.Orchestrator.Types.{
  HookAction, skip_phase, retry_phase, abort, pause, Setup, Orch, context_of, set_state,
  set_context, set_meta,
}
use motoro.Orchestrator.Hooks.{run_hooks}
use motoro.Orchestrator.Abort.{Resolved, override_of, meta_text, resolve_abort}
use motoro.Orchestrator.Sequence.{get_phase_sequence}

abbrev pub pre_hook : Phase → HookPoint
pre_hook sense = pre_sense
pre_hook reason = pre_reason
pre_hook plan = pre_plan
pre_hook act = pre_act

abbrev pub post_hook : Phase → HookPoint
post_hook sense = post_sense
post_hook reason = post_reason
post_hook plan = post_plan
post_hook act = post_act

abbrev pub Step : Type 0
Step = Outcome Flow × Orch

-- Work of the runtime on its own part of the state.
abbrev pub lift : Orch → Outcome Flow × Run → Step
lift o (flow, run) = (flow, record o { run = run })

unfoldable pub settle_abort : Resolved → Orch → Step
settle_abort r o = (
  returned stop,
  record o {
    run = record o.run {
      status = r.status;
      final_output = r.output;
      error_msg = elim r.error [ none ↦ none | some e ↦ some (aborted e) ];
    };
  },
)

unfoldable pub stop_aborted : Setup → Orch → Step
unfolding settle_abort resolve_abort
stop_aborted setup o = settle_abort (resolve_abort setup (context_of o) o.run.final_output) o

unfoldable pub stop_paused : Orch → Step
stop_paused o = (
  returned stop,
  record o { run = record o.run { status = paused; context_snapshot = some (context_of o) } },
)

-- actions_taken.extend(...) from a plan that a hook has put in place of the plan phase
unfoldable pub injected_actions : List Phase → Orch → Orch
unfolding get
injected_actions phases o =
    if has phases plan then o else elim (get (context_of o).phase_outputs plan) [
      | some (plan_output p) ↦ record o {
        run = record o.run { actions_taken = o.run.actions_taken ++ map (λ s. s.action) p.steps };
      }
      | _ ↦ o
    ]

unfoldable pub before_act : List Phase → Phase → Output → Orch → Orch
unfolding injected_actions
before_act phases act (act_output a) o = injected_actions phases o
before_act phases _ _ o = o

-- Phase-specific post-processing, of the output as the hooks have left it.
unfoldable pub post_process : Setup → List Phase → Phase → Output → Orch → Step
unfolding after_phase before_act get_or
post_process setup phases phase output o =
    let effective = get_or (context_of o).phase_outputs phase output in
    let o' = before_act phases phase effective o in
    lift o' (after_phase setup.runtime phase effective o'.run)

unfoldable pub if_returned :
    (Output → Orch → Step) → Orch → Outcome PhaseResult × RuntimeState → Step
if_returned k o (raised e, s) = (raised e, set_state s o)
if_returned k o (returned result, s) = k result.output (set_state s o)

-- A call of `_execute_phase`, and what follows it if it returns.
unfoldable pub execute_then : Setup → Phase → (Output → Orch → Step) → Orch → Step
unfolding execute_phase if_returned
execute_then setup phase k o = if_returned k o (execute_phase setup.runtime phase o.run.state)

unfoldable pub bump_retry : Option ℕ → Option ℕ
bump_retry none = some 1
bump_retry (some n) = some (n + 1)

unfoldable pub start_retry : Phase → Orch → Orch
unfolding bump_retry put
start_retry phase o =
    let o' = set_meta "_retry_phase" (text (phase_name phase)) o in
    let c = context_of o' in set_context (record c { retry_count = bump_retry c.retry_count }) o'

unfoldable pub end_retry : Orch → Orch
unfolding remove
end_retry o =
    let c = context_of o in
    set_context (record c { retry_count = none; metadata = remove c.metadata "_retry_phase" }) o

unfoldable pub after_post : Setup → List Phase → Phase → Output → Option HookAction × Orch → Step
unfolding execute_then post_process start_retry end_retry stop_aborted stop_paused
after_post setup phases phase output (some retry_phase, o) =
    execute_then setup phase (λ again o'. post_process setup phases phase again (end_retry o'))
      (start_retry phase o)
after_post setup phases phase output (some abort, o) = stop_aborted setup o
after_post setup phases phase output (some pause, o) = stop_paused o
after_post setup phases phase output (_, o) = post_process setup phases phase output o

unfoldable pub run_and_post : Setup → List Phase → Phase → Orch → Step
unfolding execute_then after_post run_hooks
run_and_post setup phases phase o =
    execute_then setup phase
      (λ output o'.
        after_post setup phases phase output (run_hooks setup (post_hook phase) (some output) o'))
      o

unfoldable pub after_pre : Setup → List Phase → Phase → Option HookAction × Orch → Step
unfolding run_and_post stop_aborted stop_paused
after_pre setup phases phase (some skip_phase, o) = (returned next, o)
after_pre setup phases phase (some abort, o) = stop_aborted setup o
after_pre setup phases phase (some pause, o) = stop_paused o
after_pre setup phases phase (_, o) = run_and_post setup phases phase o

unfoldable pub after_interrupt : Setup → List Phase → Phase → Option RunStatus → Orch → Step
unfolding after_pre run_hooks snapshot_if
after_interrupt setup phases phase (some status) o = (
  returned stop,
  record o {
    run = record o.run {
      status = status;
      final_output = "";
      context_snapshot = snapshot_if status (context_of o) o.run.context_snapshot;
    };
  },
)
after_interrupt setup phases phase none o =
    after_pre setup phases phase (run_hooks setup (pre_hook phase) none o)

unfoldable pub beat : Setup → Orch → Orch
beat setup o =
    let c = context_of o in
    let failures = if setup.heartbeat o.beats then 0 else c.heartbeat_failures + 1 in
    let o' = set_context (record c { heartbeat_failures = failures }) o in
    record o' { beats = o.beats + 1 }

-- The body of the inner loop.
unfoldable pub run_phase : Setup → List Phase → Phase → Orch → Step
unfolding beat after_interrupt check_interrupt
run_phase setup phases phase o =
    let o' = beat setup (set_context (record (context_of o) { current_phase = some phase }) o) in
    let s = o'.run.state in
    after_interrupt setup phases phase (check_interrupt (setup.runtime.signals s.checks))
      (set_state (record s { checks = s.checks + 1 }) o')

unfoldable pub go_on : (Orch → Step) → Step → Step
go_on rest (returned next, o) = rest o
go_on rest (returned stop, o) = (returned stop, o)
go_on rest (raised e, o) = (raised e, o)

unfoldable pub run_phases : Setup → List Phase → List Phase → Orch → Step
unfolding go_on run_phase
run_phases setup phases [] o = (returned next, o)
run_phases setup phases (p ∷ ps) o = go_on (run_phases setup phases ps) (run_phase setup phases p o)

unfoldable pub set_output : String → Orch → Orch
set_output output o = record o { run = record o.run { final_output = output } }

-- No phases: the run is done, or nothing was ever to be run.
unfoldable pub empty_sequence : Bool → Orch → Step
unfolding set_output get
empty_sequence is_first o = elim (override_of (context_of o)) [
  | some m ↦ (returned stop, set_output (meta_text m) o)
  | none ↦
      if is_first
      then (raised "RuntimeError: empty phase_sequence on the first iteration", o)
      else (returned stop, o)
]

-- One iteration, from the phase with the index `first` on.
unfoldable pub run_sequence : Setup → Bool → ℕ → Outcome (List Phase) × Orch → Step
unfolding empty_sequence run_phases
run_sequence setup is_first first (raised e, o) = (raised e, o)
run_sequence setup is_first first (returned [], o) = empty_sequence is_first o
run_sequence setup is_first first (returned (p ∷ ps), o) =
    run_phases setup (p ∷ ps) (drop first (p ∷ ps)) o

-- The `else` of the loop.
unfoldable pub exhausted : Orch → Orch
unfolding set_output get
exhausted o =
    set_output
      (elim (override_of (context_of o)) [
        | some m ↦ meta_text m
        | none ↦ o.run.final_output or_text "Max iterations reached."
      ])
      o

-- `left` iterations, of which the next has number i; it is the first if `is_first`.
unfoldable pub run_iterations : Setup → ℕ → ℕ → Bool → ℕ → Orch → Step
unfolding go_on run_sequence get_phase_sequence exhausted set_iteration
run_iterations setup zero i is_first first o = (returned next, exhausted o)
run_iterations setup (suc left) i is_first first o =
    go_on (run_iterations setup left (suc i) false 0) (
      run_sequence setup is_first first
        (get_phase_sequence setup (record o { run = set_iteration i o.run })))

unfoldable pub run_on_completion : Setup → RunStatus → Orch → Orch
unfolding run_hooks
run_on_completion setup completed o = (run_hooks setup on_completion none o).1
run_on_completion setup _ o = o

-- The end of the try block, and its except clause.
unfoldable pub conclude : Setup → Step → Orch
unfolding run_on_completion run_hooks
conclude setup (returned f, o) = run_on_completion setup o.run.status o
conclude setup (raised e, o) =
    let o' = record o {
      run = record o.run { status = failed; error_msg = some (exception e); final_output = "" };
    } in
    (run_hooks setup on_error none (set_meta "error" (text e) o')).1

unfoldable pub run_loop : Setup → Option String → Orch → Step
unfolding run_iterations set_output start_phase_idx
run_loop setup resume_phase o =
    let c = context_of o in
    if leb c.max_iterations c.iteration
    then (returned stop, set_output "Max iterations reached on resume." o)
    else run_iterations setup (c.max_iterations - c.iteration) c.iteration true
        (start_phase_idx resume_phase) o
