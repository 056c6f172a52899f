-- ===== src/Orchestrator/Settled.antt =====
-- How the result of an orchestrated run hangs together, and which plugins are deactivated.
pub mod Loop
pub mod Results
use motoro.Prelude.{
  ℕ, zero, suc, ◌-◌, leb, String, Bool, true, false, Option, none, some, List, [], ◌∷◌, ◌++◌, map,
  get, get_or, put, drop, contains_text, lower, if-cases, Bool-cases, Option-cases, inl, inr, ◌≡◌,
  ◌⊎◌, ◌↔◌, refl, sym, ap, subst, ◌∙◌,
}
use motoro.Patterns.Plugin.{HookPoint, loop_control, on_completion, on_error, Plugin}
use motoro.Runtime.Types.{
  Outcome, returned, raised, Phase, sense, reason, plan, act, eq_phase, RunStatus, completed,
  failed, cancelled, paused, pending, running, awaiting_human, Output, plan_output, act_output,
  other_output, PhaseResult,
}
use motoro.Runtime.Context.{RunContext, Meta, text}
use motoro.Runtime.Phase.{RuntimeState, execute_phase, check_interrupt}
use motoro.Runtime.Loop.{
  Run, RunError, exception, aborted, Flow, next, stop, after_phase, set_iteration, start_phase_idx,
  snapshot_if, AgentRunResult, result_of,
}
use motoro.Runtime.Loop.Induction.{Ensures}
use motoro.Runtime.Loop.Outcomes as Outcomes
use motoro.Runtime.Loop.Outcomes.{
  Unsettled, Good, Raised, after_phase_ok, IsInterrupt, none_set, cancel_set, pause_set,
  check_interrupt-IsInterrupt,
}
use motoro.Orchestrator.Types.{
  HookAction, skip_phase, retry_phase, abort, pause, Setup, Orch, context_of, set_state, set_meta,
}
use motoro.Orchestrator.Hooks.{run_hooks}
use motoro.Orchestrator.Hooks.Tolerance.{Keeps}
use motoro.Orchestrator.Hooks.Errors.{run_hooks-Keeps}
use motoro.Orchestrator.Abort.{
  Resolved, override_of, resolve_error, resolve_override, resolve_abort,
}
use motoro.Orchestrator.Sequence.{get_phase_sequence, sequence_with}
use motoro.Orchestrator.Loop.{
  Step, lift, settle_abort, stop_aborted, stop_paused, before_act, injected_actions, post_process,
  go_on, if_returned, execute_then, start_retry, end_retry, after_post, run_and_post, after_pre,
  after_interrupt, beat, run_phase, run_phases, empty_sequence, run_sequence, set_output, exhausted,
  run_iterations, run_on_completion, conclude, run_loop, pre_hook, post_hook,
}
use motoro.Orchestrator.Lifecycle.{
  deactivate, activate, activation_failed, after_activation, end_result, start, orchestrate, run,
}

-- A completed run has no snapshot, and an error only where a hook has aborted it; a failed one has
-- an error and no snapshot; a cancelled one neither, and no output; a paused one has a snapshot and
-- no error.
abbrev pub Consistent : RunStatus → String → Option RunError → Option RunContext → Type 0
Consistent completed output error snapshot =
    ((error ≡ none) ⊎ ((e : String) × (error ≡ some (aborted e)))) × (snapshot ≡ none)
Consistent failed output error snapshot = ((e : RunError) × (error ≡ some e)) × (snapshot ≡ none)
Consistent cancelled output error snapshot = (error ≡ none) × (snapshot ≡ none) × (output ≡ "")
Consistent paused output error snapshot = (error ≡ none) × ((c : RunContext) × (snapshot ≡ some c))
Consistent _ output error snapshot = ⊥

abbrev pub Fits : Run → Type 0
Fits v = Consistent v.status v.final_output v.error_msg v.context_snapshot

-- Between phases nothing is settled and no plugin deactivated.
abbrev pub Between : Orch → Type 0
Between o = Unsettled o.run × (o.deactivated ≡ [])

abbrev pub Ended : Orch → Type 0
Ended o = Fits o.run × (o.deactivated ≡ [])

abbrev pub Fine : Step → Type 0
Fine (returned next, o) = Between o
Fine (returned stop, o) = Ended o
Fine (raised e, o) = (o.run.context_snapshot ≡ none) × (o.deactivated ≡ [])

pub Between-Ended : (o : Orch) → Between o → Ended o
Between-Ended o (h, d) = (rw h.0 (inl h.1, h.2), d)

pub Between-Keeps : (o o' : Orch) → Keeps o o' → Between o → Between o'
Between-Keeps o o' k b = subst Between k b

pub hooks_ok :
    (setup : Setup) (point : HookPoint) (out : Option Output) (o : Orch)
    → Between o
    → Between (run_hooks setup point out o).1
hooks_ok setup point out o b = Between-Keeps o _ (run_hooks-Keeps setup point out o) b

-- An abort completes or fails the run, and without an error only completes it.
abbrev Decided : Resolved → Type 0
Decided r =
    ((r.status ≡ completed) × (r.error ≡ none))
    ⊎ ((e : String) × (r.error ≡ some e) × ((r.status ≡ completed) ⊎ (r.status ≡ failed)))

resolve_abort-Decided :
    (setup : Setup) (c : RunContext) (out : String) → Decided (resolve_abort setup c out)
unfolding resolve_abort resolve_override resolve_error
resolve_abort-Decided setup c out = elim (Option-cases (override_of c)) [
  | inl e ↦
      rw e (if-cases Decided _ _ _ (λ p. inr (_, refl, inl refl)) (λ p. inr (_, refl, inr refl)))
  | inr (m, e) ↦ rw e (inl (refl, refl))
]

settle_abort_ok : (r : Resolved) (o : Orch) → Decided r → Between o → Fine (settle_abort r o)
unfolding settle_abort
settle_abort_ok r o (inl (s, e)) (h, d) = (rw (s, e) (inl refl, h.2), d)
settle_abort_ok r o (inr (x, e, inl s)) (h, d) = (rw (s, e) (inr (x, refl), h.2), d)
settle_abort_ok r o (inr (x, e, inr s)) (h, d) = (rw (s, e) ((_, refl), h.2), d)

pub stop_aborted_ok : (setup : Setup) (o : Orch) → Between o → Fine (stop_aborted setup o)
unfolding stop_aborted
stop_aborted_ok setup o b =
    settle_abort_ok _ o (resolve_abort-Decided setup (context_of o) o.run.final_output) b

pub stop_paused_ok : (o : Orch) → Between o → Fine (stop_paused o)
unfolding stop_paused
stop_paused_ok o (h, d) = ((h.1, (_, refl)), d)

weaken :
    (status : RunStatus) (output : String) (error : Option RunError) (snapshot : Option RunContext)
    → Outcomes.Consistent status output error snapshot
    → Consistent status output error snapshot
weaken completed _ _ _ (e, s) = (inl e, s)
weaken failed _ _ _ h = h
weaken cancelled _ _ _ h = h
weaken paused _ _ _ (e, s, o) = (e, s)
weaken pending _ _ _ h = h
weaken running _ _ _ h = h
weaken awaiting_human _ _ _ h = h

pub lift_ok :
    (o : Orch) (r : Outcome Flow × Run)
    → o.deactivated ≡ []
    → Ensures Good Raised r
    → Fine (lift o r)
lift_ok o (returned next, v) d h = (h, d)
lift_ok o (returned stop, v) d h = (weaken v.status _ _ _ h, d)
lift_ok o (raised e, v) d h = (h, d)
