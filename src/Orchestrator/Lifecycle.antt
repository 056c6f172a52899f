-- ===== src/Orchestrator/Lifecycle.antt =====
-- `PatternOrchestrator.run`: the life cycle of the plugins around the loop.
use motoro.Prelude.{
  String, eq_text, eq_number, Option, none, some, List, [], ◌∷◌, ◌++◌, map, has, if◌then◌else◌,
}
use motoro.Patterns.Plugin.{on_error, Callable, Plugin}
use motoro.Runtime.Types.{eq_phase, failed}
use motoro.Runtime.Context.{RunContext, text}
use motoro.Runtime.Loop.{exception, start_run, AgentRunResult, result_of}
use motoro.Orchestrator.Types.{Setup, hooks_at, Orch, set_state, set_meta}
use motoro.Orchestrator.Loop.{conclude, run_loop}

-- Exceptions of on_deactivate are only logged.
unfoldable pub deactivate : Setup → List Plugin → Orch → Orch
deactivate setup [] o = o
deactivate setup (p ∷ ps) o =
    let (_, s) = setup.on_deactivate p o.run.state in
    let o' = set_state s o in
    deactivate setup ps (record o' { deactivated = o'.deactivated ++ p.slug ∷ [] })

-- The plugins that were activated, and the exception that ended it.
unfoldable pub activate : Setup → List Plugin → Orch → (List Plugin × Option String) × Orch
activate setup [] o = (([], none), o)
activate setup (p ∷ ps) o =
    let (failure, s) = setup.on_activate p o.run.state in
    let ((activated, ended), o') = activate setup ps (set_state s o) in
    elim failure [ some e ↦ (([], some e), set_state s o) | none ↦ ((p ∷ activated, ended), o') ]

-- The error hooks of the plugins that were activated; what they return or raise is dropped.
unfoldable pub report_activation : Setup → List String → List (String × Callable) → Orch → Orch
report_activation setup slugs [] o = o
report_activation setup slugs ((slug, cb) ∷ hooks) o =
    let called = set_state (setup.call cb none o.run.state).1 o in
    report_activation setup slugs hooks (if has slugs slug then called else o)

unfoldable pub activation_failed : Setup → List Plugin → String → Orch → Orch
unfolding deactivate report_activation hooks_at
activation_failed setup activated e o =
    let o1 = set_meta "error" (text e) o in
    let o2 = report_activation setup (map (λ p. p.slug) activated) (hooks_at setup on_error) o1 in
    let o3 = deactivate setup activated o2 in
    record o3 {
      run = record o3.run {
        status = failed;
        final_output = "";
        error_msg = some (exception e);
        context_snapshot = none;
      };
    }

unfoldable pub after_activation :
    Setup → Option String → (List Plugin × Option String) × Orch → Orch
unfolding activation_failed deactivate conclude run_loop
after_activation setup resume_phase ((activated, some e), o) = activation_failed setup activated e o
after_activation setup resume_phase ((activated, none), o) =
    deactivate setup activated (conclude setup (run_loop setup resume_phase o))

unfoldable pub start : RunContext → Orch
start c = record { run = start_run c; hook_errors = []; beats = 0; deactivated = [] }

unfoldable pub orchestrate : Setup → RunContext → Option String → Orch
unfolding after_activation activate start start_run
orchestrate setup c resume_phase =
    after_activation setup resume_phase (activate setup setup.plugins (start c))

-- A failed activation returns without metadata.
unfoldable pub end_result : Option String → Orch → AgentRunResult
end_result (some e) o = record (result_of o.run) { run_metadata = [] }
end_result none o = result_of o.run

unfoldable pub run : Setup → RunContext → Option String → AgentRunResult
unfolding orchestrate activate end_result start
run setup c resume_phase =
    end_result (activate setup setup.plugins (start c)).0.1 (orchestrate setup c resume_phase)
