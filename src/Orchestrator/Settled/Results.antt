-- ===== src/Orchestrator/Settled/Results.antt =====
-- The result of an orchestrated run, and the plugins that it deactivates.
use mathlib.Core.List.{append-nil, append_assoc}
use motoro.Prelude.{
  has, eq_text, String, Option, none, some, List, [], ◌∷◌, ◌++◌, map, if-cases, ◌≡◌, ◌↔◌, refl, sym,
  ap, subst, ◌∙◌,
}
use motoro.Patterns.Plugin.{on_completion, on_error, Callable, Plugin}
use motoro.Runtime.Types.{
  returned, raised, eq_phase, RunStatus, completed, failed, cancelled, paused, pending, running,
  awaiting_human,
}
use motoro.Runtime.Context.{RunContext, text}
use motoro.Runtime.Loop.{exception, next, stop, start_run}
use motoro.Orchestrator.Types.{Setup, hooks_at, Orch, set_state, set_meta}
use motoro.Orchestrator.Hooks.{run_hooks}
use motoro.Orchestrator.Hooks.Tolerance.{Keeps}
use motoro.Orchestrator.Hooks.Errors.{run_hooks-Keeps}
use motoro.Orchestrator.Loop.{Step, run_on_completion, conclude, run_loop}
use motoro.Orchestrator.Lifecycle.{
  deactivate, activate, report_activation, activation_failed, after_activation, end_result, start,
  orchestrate, run,
}
use motoro.Orchestrator.Settled.{Consistent, Fits, Between, Ended, Fine, Between-Ended}
use motoro.Orchestrator.Settled.Loop.{run_loop_ok}

abbrev Activated : Type 0
Activated = (List Plugin × Option String) × Orch

Ended-Keeps : (o o' : Orch) → Keeps o o' → Ended o → Ended o'
Ended-Keeps o o' k b = subst Ended k b

completion_ok :
    (setup : Setup) (status : RunStatus) (o : Orch)
    → Ended o
    → Ended (run_on_completion setup status o)
unfolding run_on_completion
completion_ok setup completed o h =
    Ended-Keeps o (run_hooks setup on_completion none o).1
      (run_hooks-Keeps setup on_completion none o) h
completion_ok setup failed o h = h
completion_ok setup cancelled o h = h
completion_ok setup paused o h = h
completion_ok setup pending o h = h
completion_ok setup running o h = h
completion_ok setup awaiting_human o h = h

conclude_ok : (setup : Setup) (step : Step) → Fine step → Ended (conclude setup step)
unfolding conclude
conclude_ok setup (returned next, o) h = completion_ok setup o.run.status o (Between-Ended o h)
conclude_ok setup (returned stop, o) h = completion_ok setup o.run.status o h
conclude_ok setup (raised e, o) (h, d) =
    let o' = set_meta "error" (text e) (record o {
      run = record o.run { status = failed; error_msg = some (exception e); final_output = "" };
    }) in
    Ended-Keeps o' (run_hooks setup on_error none o').1 (run_hooks-Keeps setup on_error none o')
      (((_, refl), h), d)

activated_ok :
    (p : Plugin) (e : Option String) (o : Orch) (r : Activated)
    → Between o
    → Between r.1
    → let r' : Activated = elim e [
      | some e ↦ (([], some e), o)
      | none ↦ ((p ∷ r.0.0, r.0.1), r.1)
    ] in
      Between r'.1
activated_ok p none o r b h = h
activated_ok p (some x) o r b h = b

activate_ok :
    (setup : Setup) (ps : List Plugin) (o : Orch) → Between o → Between (activate setup ps o).1
unfolding activate
activate_ok setup [] o b = b
activate_ok setup (p ∷ ps) o b =
    let (failure, s) = setup.on_activate p o.run.state in
    activated_ok p failure (set_state s o) (activate setup ps (set_state s o)) b
      (activate_ok setup ps (set_state s o) b)

report_ok :
    (setup : Setup) (slugs : List String) (hooks : List (String × Callable)) (o : Orch)
    → Between o
    → Between (report_activation setup slugs hooks o)
unfolding report_activation
report_ok setup slugs [] o b = b
report_ok setup slugs ((slug, cb) ∷ hooks) o b =
    report_ok setup slugs hooks _ (if-cases Between (has slugs slug) _ _ (λ _. b) (λ _. b))

deactivate_ok :
    (setup : Setup) (ps : List Plugin) (o : Orch)
    → Fits o.run
    → Fits (deactivate setup ps o).run
      × ((deactivate setup ps o).deactivated ≡ o.deactivated ++ map (λ p. p.slug) ps)
unfolding deactivate
deactivate_ok setup [] o h = (h, sym (append-nil o.deactivated))
deactivate_ok setup (p ∷ ps) o h =
    let (_, s) = setup.on_deactivate p o.run.state in
    let o' = set_state s o in
    let (f, d) =
      deactivate_ok setup ps (record o' { deactivated = o.deactivated ++ p.slug ∷ [] }) h in
    (f, d ∙ append_assoc o.deactivated (p.slug ∷ []) (map (λ p. p.slug) ps))

-- What holds of a run whose activated plugins are these.
abbrev Closed : List Plugin → Orch → Type 0
Closed activated o = Fits o.run × (o.deactivated ≡ map (λ p. p.slug) activated)

deactivate-Closed :
    (setup : Setup) (activated : List Plugin) (o : Orch)
    → Ended o
    → Closed activated (deactivate setup activated o)
deactivate-Closed setup activated o (h, d) =
    let (f, e) = deactivate_ok setup activated o h in
    (f, e ∙ ap (λ l. l ++ map (λ p. p.slug) activated) d)

after_activation_ok :
    (setup : Setup) (resume_phase : Option String) (r : (List Plugin × Option String) × Orch)
    → Between r.1
    → Closed r.0.0 (after_activation setup resume_phase r)
unfolding after_activation activation_failed
after_activation_ok setup resume_phase ((activated, none), o) b =
    deactivate-Closed setup activated _
      (conclude_ok setup (run_loop setup resume_phase o) (run_loop_ok setup resume_phase o b))
after_activation_ok setup resume_phase ((activated, some e), o) b =
    let o1 = set_meta "error" (text e) o in
    let slugs = map (λ (p : Plugin). p.slug) activated in
    let o2 = report_activation setup slugs (hooks_at setup on_error) o1 in
    let b2 = report_ok setup slugs (hooks_at setup on_error) o1 b in
    (((_, refl), refl), (deactivate-Closed setup activated o2 (Between-Ended o2 b2)).1)

start_ok : (c : RunContext) → Between (start c)
unfolding start start_run
start_ok c = ((refl, refl, refl), refl)

end_result_ok :
    (e : Option String) (o : Orch)
    → Fits o.run
    → let r = end_result e o in Consistent r.status r.output r.error r.context_snapshot
unfolding end_result
end_result_ok none o h = h
end_result_ok (some e) o h = h

orchestrate_ok :
    (setup : Setup) (c : RunContext) (resume_phase : Option String)
    → Closed (activate setup setup.plugins (start c)).0.0 (orchestrate setup c resume_phase)
unfolding orchestrate
orchestrate_ok setup c resume_phase =
    after_activation_ok setup resume_phase (activate setup setup.plugins (start c))
      (activate_ok setup setup.plugins (start c) (start_ok c))

-- Whatever the plugins, their hooks, the phases, the events and the commits do, the result of an
-- orchestrated run is completed, failed, cancelled or paused, and its error and snapshot go with
-- that: a snapshot exactly when it paused, an error whenever it failed and, of a completed run, at
-- most the text of an abort; a cancelled run has no output.
pub run_result-Consistent :
    (setup : Setup) (c : RunContext) (resume_phase : Option String)
    → let r = run setup c resume_phase in Consistent r.status r.output r.error r.context_snapshot
unfolding run
run_result-Consistent setup c resume_phase =
    end_result_ok (activate setup setup.plugins (start c)).0.1 (orchestrate setup c resume_phase)
      (orchestrate_ok setup c resume_phase).0

-- The activated plugins are the first ones, and all of them where nothing has failed.
abbrev IsPrefix : List Plugin → Activated → Type 0
IsPrefix ps ((activated, failure), _) =
    (rest : List Plugin) × (activated ++ rest ≡ ps) × ((failure ≡ none) ↔ (rest ≡ []))
