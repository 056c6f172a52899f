-- ===== src/Orchestrator/Bare.antt =====
-- Without plugins the orchestrator is the plain runtime.
use mathlib.Core.Path.{ap₂}
use motoro.Prelude.{
  sym, Dict, ℕ, zero, suc, ◌-◌, ◌<◌, String, eq_text, Bool, true, false, Option, none, some, List,
  [], ◌∷◌, drop, get_or, ◌≡◌, refl, ap, ◌∙◌, subst, arith,
}
use motoro.Patterns.Plugin.{HookPoint, loop_control, on_completion, on_error}
use motoro.Runtime.Types.{
  Outcome, returned, raised, Phase, eq_phase, RunStatus, completed, failed, cancelled, paused,
  pending, running, awaiting_human, Output, PhaseResult,
}
use motoro.Runtime.Context.{RunContext, text}
use motoro.Runtime.Phase.{RuntimeState, execute_phase, check_interrupt, check_resource_limits}
use motoro.Runtime.Metadata.{MetadataValue, put_count, if_positive}
use motoro.Runtime.Loop as Plain
use motoro.Runtime.Loop.{
  Run, exception, Flow, next, stop, after_execute, after_check, after_limits, snapshot_if,
  after_phase, after_plan, after_act, after_memory, respond, phase_sequence, set_iteration,
  start_run, start_phase_idx, AgentRunResult, result_of,
}
use motoro.Orchestrator.Types.{Setup, consolidate, hooks_at, Orch, context_of, set_state, set_meta}
use motoro.Orchestrator.Hooks.{run_hooks, run_each}
use motoro.Orchestrator.Sequence.{get_phase_sequence, sequence_with}
use motoro.Orchestrator.Loop.{
  pre_hook, post_hook, Step, post_process, if_returned, execute_then, after_post, run_and_post,
  after_pre, after_interrupt, beat, run_phase, run_phases, run_sequence, set_output, exhausted,
  run_iterations, run_on_completion, conclude, run_loop,
}
use motoro.Orchestrator.Lifecycle.{
  activate, end_result, deactivate, after_activation, start, orchestrate, run,
}
use motoro.Orchestrator.Metadata.{without_own-run_metadata_of, without_own-error}
use motoro.Orchestrator.Veil.{
  veil_snapshot, NoOverride, Same, Settled, Unaware, after_phase_metadata, after_phase_veil,
  before_act_standard, go_on-Same, settle-Settled, settle-veil, snapshot_veil, veil, veil_result,
  veil_run, veil_state,
}

-- Two results that differ in the snapshot and the metadata at most.
result_with : Run → Option RunContext → Dict String MetadataValue → AgentRunResult
result_with v snapshot metadata = record (result_of v) {
  context_snapshot = snapshot;
  run_metadata = metadata;
}

veil_snapshot_twice :
    (snapshot : Option RunContext) → veil_snapshot snapshot ≡ veil_snapshot (veil_snapshot snapshot)
veil_snapshot_twice none = refl
veil_snapshot_twice (some c) = refl

result_of-veil_run : (v : Run) → veil_result (result_of v) ≡ veil_result (result_of (veil_run v))
unfolding result_with
result_of-veil_run v = ap₂ (result_with v) (veil_snapshot_twice v.context_snapshot) (
    without_own-run_metadata_of v.state.context
    ∙ sym (without_own-run_metadata_of (veil v.state.context)))

result_of-error :
    (x : String) (o : Orch)
    → veil_result (result_of (set_meta "error" (text x) o).run) ≡ veil_result (result_of o.run)
unfolding result_with
result_of-error x o =
    let o' = set_meta "error" (text x) o in
    let c = context_of o in
    ap (result_with o.run (veil_snapshot o.run.context_snapshot)) (
      without_own-run_metadata_of (context_of o')
      ∙ ap
          (λ d.
            put_count "loop_iterations" (if_positive c.iteration)
              (put_count "_retry_count" c.retry_count d))
          (without_own-error c.metadata x)
      ∙ sym (without_own-run_metadata_of c))

module _ (setup : Setup) where
  post_process-Same :
      (phase : Phase) (m : Output) (o : Orch)
      → NoOverride (context_of o)
      → get_or (context_of o).phase_outputs phase m ≡ m
      → Same
          (post_process setup phase_sequence phase m o)
          (after_phase setup.runtime phase m (veil_run o.run))
  unfolding post_process Same
  post_process-Same phase m o n g =
      rw (g, before_act_standard phase m o, after_phase_veil setup.runtime phase m o.run)
        (refl, rw (after_phase_metadata setup.runtime phase m o.run) n)

  executed-Same :
      (phase : Phase) (t : Outcome PhaseResult × RuntimeState) (o : Orch)
      → Settled phase t
      → Same
          (if_returned (λ m o'. post_process setup phase_sequence phase m o') o t)
          (after_execute setup.runtime phase (t.0, veil_state t.1) (veil_run o.run))
  unfolding if_returned after_execute Settled Same
  executed-Same phase (raised e, s) o n = (refl, n)
  executed-Same phase (returned result, s) o (n, g) =
      post_process-Same phase result.output (set_state s o) n g

  module _ (bare : setup.plugins ≡ []) where
    hooks_at_bare : (point : HookPoint) → hooks_at setup point ≡ []
    unfolding hooks_at consolidate get_or
    hooks_at_bare point = rw bare

    run_hooks_bare :
        (point : HookPoint) (m : Option Output) (o : Orch) → run_hooks setup point m o ≡ (none, o)
    unfolding run_hooks run_each
    run_hooks_bare point m o = rw (hooks_at_bare point)

    get_phase_sequence_bare : (o : Orch) → get_phase_sequence setup o ≡ (returned phase_sequence, o)
    unfolding get_phase_sequence sequence_with
    get_phase_sequence_bare o = rw (hooks_at_bare loop_control)

    posted :
        (phase : Phase) (t : Outcome PhaseResult × RuntimeState) (o : Orch)
        → if_returned
            (λ m o'.
              after_post setup phase_sequence phase m
                (run_hooks setup (post_hook phase) (some m) o'))
            o
            t
          ≡ if_returned (λ m o'. post_process setup phase_sequence phase m o') o t
    unfolding if_returned after_post
    posted phase (raised e, s) o = refl
    posted phase (returned result, s) o =
        rw (run_hooks_bare (post_hook phase) (some result.output) (set_state s o))

    module _ (unaware : Unaware setup.runtime) where
      execute_phase_veil :
          (phase : Phase) (s : RuntimeState)
          → execute_phase setup.runtime phase (veil_state s) ≡ (
            (execute_phase setup.runtime phase s).0,
            veil_state (execute_phase setup.runtime phase s).1,
          )
      unfolding execute_phase
      execute_phase_veil phase s = rw (unaware.blind phase s.context) (
          settle-veil setup.runtime phase (setup.runtime.execute phase s.context).0
            (setup.runtime.execute phase s.context).1 s)

      execute_phase-Settled :
          (phase : Phase) (s : RuntimeState)
          → NoOverride s.context
          → Settled phase (execute_phase setup.runtime phase s)
      unfolding execute_phase
      execute_phase-Settled phase s n =
          settle-Settled setup.runtime phase _ _ s (unaware.keeps_override phase s.context ∙ n)

      run_and_post-Same :
          (phase : Phase) (o : Orch)
          → NoOverride (context_of o)
          → Same (run_and_post setup phase_sequence phase o) (
              after_execute setup.runtime phase
                (execute_phase setup.runtime phase (veil_state o.run.state))
                (veil_run o.run))
      unfolding run_and_post execute_then
      run_and_post-Same phase o n =
          rw
            (
              posted phase (execute_phase setup.runtime phase o.run.state) o,
              execute_phase_veil phase o.run.state,
            )
            (executed-Same phase (execute_phase setup.runtime phase o.run.state) o
              (execute_phase-Settled phase o.run.state n))

      module _ (unlimited : setup.runtime.limit_checker ≡ none) where
        after_interrupt-Same :
            (phase : Phase) (status : Option RunStatus) (o : Orch)
            → NoOverride (context_of o)
            → Same
                (after_interrupt setup phase_sequence phase status o)
                (after_check setup.runtime phase status (veil_run o.run))
        unfolding after_interrupt after_check after_limits after_pre check_resource_limits Same
        after_interrupt-Same phase (some status) o n =
            (rw (snapshot_veil status (context_of o) o.run.context_snapshot), n)
        after_interrupt-Same phase none o n =
            rw (run_hooks_bare (pre_hook phase) none o, unlimited) (run_and_post-Same phase o n)

        run_phase-Same :
            (phase : Phase) (o : Orch)
            → NoOverride (context_of o)
            → Same
                (run_phase setup phase_sequence phase o)
                (Plain.run_phase setup.runtime phase (veil_run o.run))
        unfolding run_phase Plain.run_phase beat
        run_phase-Same phase o n =
            after_interrupt-Same phase (check_interrupt (setup.runtime.signals o.run.state.checks))
              _ n

        run_phases-Same :
            (ps : List Phase) (o : Orch)
            → NoOverride (context_of o)
            → Same
                (run_phases setup phase_sequence ps o)
                (Plain.run_phases setup.runtime ps (veil_run o.run))
        unfolding run_phases Plain.run_phases Same
        run_phases-Same [] o n = (refl, n)
        run_phases-Same (p ∷ ps) o n =
            go_on-Same (run_phases setup phase_sequence ps) (Plain.run_phases setup.runtime ps)
              (run_phase setup phase_sequence p o)
              (Plain.run_phase setup.runtime p (veil_run o.run)) (run_phases-Same ps)
              (run_phase-Same p o n)

        run_iterations-Same :
            (left i : ℕ) (is_first : Bool) (first : ℕ) (o : Orch)
            → NoOverride (context_of o)
            → Same
                (run_iterations setup left i is_first first o)
                (Plain.run_iterations setup.runtime left i first (veil_run o.run))
        unfolding run_iterations Plain.run_iterations exhausted run_sequence set_iteration Same
            set_output
        run_iterations-Same zero i is_first first o n = (rw n, n)
        run_iterations-Same (suc left) i is_first first o n =
            go_on-Same (run_iterations setup left (suc i) false 0)
              (Plain.run_iterations setup.runtime left (suc i) 0) _ _
              (run_iterations-Same left (suc i) false 0)
              (rw (get_phase_sequence_bare (record o { run = set_iteration i o.run })) (
                run_phases-Same (drop first phase_sequence)
                  (record o { run = set_iteration i o.run }) n))

    run_on_completion_bare : (status : RunStatus) (o : Orch) → run_on_completion setup status o ≡ o
    unfolding run_on_completion
    run_on_completion_bare completed o = ap (λ r. r.1) (run_hooks_bare on_completion none o)
    run_on_completion_bare pending o = refl
    run_on_completion_bare running o = refl
    run_on_completion_bare failed o = refl
    run_on_completion_bare cancelled o = refl
    run_on_completion_bare paused o = refl
    run_on_completion_bare awaiting_human o = refl

    conclude_bare :
        (step : Step) (r : Outcome Flow × Run)
        → Same step r
        → veil_result (result_of (conclude setup step).run)
          ≡ veil_result (result_of (Plain.catch r))
    unfolding conclude Plain.catch Same
    conclude_bare (returned f, o) r (e, n) =
        subst
          (λ x.
            veil_result (result_of (conclude setup (returned f, o)).run)
            ≡ veil_result (result_of (Plain.catch x)))
          e (rw (run_on_completion_bare o.run.status o) (result_of-veil_run o.run))
    conclude_bare (raised x, o) r (e, n) =
        let failure = record o.run {
          status = failed;
          error_msg = some (exception x);
          final_output = "";
        } in
        subst
          (λ y.
            veil_result (result_of (conclude setup (raised x, o)).run)
            ≡ veil_result (result_of (Plain.catch y)))
          e
          (ap (λ h. veil_result (result_of h.1.run))
              (run_hooks_bare on_error none
                (set_meta "error" (text x) (record o { run = failure })))
            ∙ result_of-error x (record o { run = failure })
            ∙ result_of-veil_run failure)

    activated_bare : (o : Orch) → activate setup setup.plugins o ≡ (([], none), o)
    unfolding activate
    activated_bare o = rw bare

    run_concluded :
        (c : RunContext) (resume_phase : Option String)
        → run setup c resume_phase
          ≡ result_of (conclude setup (run_loop setup resume_phase (start c))).run
    unfolding run end_result orchestrate after_activation deactivate
    run_concluded c resume_phase = rw (activated_bare (start c))

run_loop_left :
    (setup : Setup) (resume_phase : Option String) (o : Orch)
    → (context_of o).iteration < (context_of o).max_iterations
    → run_loop setup resume_phase o
      ≡ run_iterations setup
          ((context_of o).max_iterations - (context_of o).iteration)
          (context_of o).iteration
          true
          (start_phase_idx resume_phase)
          o
unfolding run_loop
run_loop_left setup resume_phase o left = ground (arith, left)

-- An orchestrator without plugins gives the result that the plain runtime gives, for a run that has
-- iterations left and no override of its output, where the phases neither read nor write the
-- current phase and the heartbeat failures, and no limit checker is installed. The two results may
-- differ in the current phase and the heartbeat failures of a snapshot, and in the keys "error" and
-- "_heartbeat_failures" of their metadata, and in nothing else.
pub run_bare :
    (setup : Setup) (c : RunContext) (resume_phase : Option String)
    → setup.plugins ≡ []
    → Unaware setup.runtime
    → setup.runtime.limit_checker ≡ none
    → c.iteration < c.max_iterations
    → NoOverride c
    → veil_result (run setup c resume_phase)
      ≡ veil_result (Plain.run setup.runtime (veil c) resume_phase)
unfolding start Plain.run Plain.run_loop start_run
run_bare setup c resume_phase bare unaware unlimited left n =
    rw (run_concluded setup bare c resume_phase, run_loop_left setup resume_phase (start c) left)
      (conclude_bare setup bare
        (run_iterations setup (c.max_iterations - c.iteration) c.iteration true
          (start_phase_idx resume_phase) (start c))
        (Plain.run_iterations setup.runtime (c.max_iterations - c.iteration) c.iteration
          (start_phase_idx resume_phase) (start_run (veil c)))
        (run_iterations-Same setup bare unaware unlimited (c.max_iterations - c.iteration)
          c.iteration true (start_phase_idx resume_phase) (start c) n))
