-- ===== src/Orchestrator/Hooks.antt =====
-- `_run_hooks`: the hooks of one point, in order, up to the first that stops the run of hooks.
pub mod Tolerance
pub mod Errors
use motoro.Prelude.{
  ℕ, ◌+◌, leb, String, eq_text, eq_pair, Bool, true, false, ◌||◌, Option, none, some, List, [], ◌∷◌,
  has, get_or, put, remove, if◌then◌else◌,
}
use motoro.Patterns.Plugin.{HookPoint, eq_point, Callable}
use motoro.Runtime.Types.{
  Phase, sense, reason, plan, act, eq_phase, Output, plan_output, act_output, other_output,
}
use motoro.Runtime.Context.{text, update_phase_output}
use motoro.Orchestrator.Types.{
  HookAction, abort, HookResult, nothing, timed_out, action, model, unexpected, failed, Trouble,
  timed_out_once, failed_once, timed_out_repeatedly, failed_repeatedly, wrong_model, wrong_type,
  Setup, hooks_at, load_bearing_slugs, Orch, context_of, set_state, set_context, set_meta,
  set_default_meta,
}

unfoldable pub max_consecutive_hook_errors : ℕ
max_consecutive_hook_errors = 3

-- What one hook leads to: on to the next with this phase output, or out with an action.
pub data Verdict : Type 0 where
  go_on : Option Output → Verdict
  stop : HookAction → Verdict

-- isinstance(result, expected_type)
unfoldable pub is_expected : Setup → Phase → Output → Bool
is_expected setup plan (plan_output p) = true
is_expected setup act (act_output a) = true
is_expected setup sense (other_output t) = setup.is_sense t
is_expected setup reason (other_output t) = setup.is_reason t
is_expected setup _ _ = false

module _ (setup : Setup) (point : HookPoint) (slug : String) where
  unfoldable pub abort_with : Trouble → Orch → Verdict × Orch
  abort_with trouble o =
      (stop abort, set_meta "abort_error" (text (setup.describe slug point trouble)) o)

  -- A timeout or an exception: `once` and `again` are what is told of it.
  unfoldable pub hook_trouble : Option Output → Trouble → (ℕ → Trouble) → Orch → Verdict × Orch
  unfolding load_bearing_slugs set_default_meta get_or put abort_with max_consecutive_hook_errors
  hook_trouble phase_output once again o =
      let count = get_or o.hook_errors (slug, point) 0 + 1 in
      let counted = record o { hook_errors = put o.hook_errors (slug, point) count } in
      if setup.fail_on_hook_error || has (load_bearing_slugs setup.plugins) slug
      then (stop abort, set_default_meta "abort_error" (text (setup.describe slug point once)) o)
      else if leb max_consecutive_hook_errors count
      then abort_with (again count) counted
      else (go_on phase_output, counted)

  unfoldable pub modify_output : Option Phase → Output → Orch → Verdict × Orch
  unfolding update_phase_output
  modify_output none m o = (go_on (some m), o)
  modify_output (some phase) m o =
      (go_on (some m), set_context (update_phase_output phase m (context_of o)) o)

  unfoldable pub fits : Option Phase → Output → Bool
  unfolding is_expected
  fits none m = true
  fits (some phase) m = is_expected setup phase m

  unfoldable pub hook_model : Option Output → Output → Orch → Verdict × Orch
  unfolding fits modify_output abort_with
  hook_model phase_output m o =
      let current = (context_of o).current_phase in
      if fits current m
      then modify_output current m o
      else if setup.fail_on_type_mismatch
      then abort_with (wrong_model m current) o
      else (go_on phase_output, o)

  -- The hook succeeded: its error counter is reset.
  unfoldable pub reset_errors : Orch → Orch
  unfolding remove
  reset_errors o = record o { hook_errors = remove o.hook_errors (slug, point) }

  unfoldable pub after_hook : Option Output → HookResult → Orch → Verdict × Orch
  unfolding hook_trouble reset_errors hook_model abort_with
  after_hook phase_output timed_out o =
      hook_trouble phase_output timed_out_once timed_out_repeatedly o
  after_hook phase_output (failed exc) o =
      hook_trouble phase_output (failed_once exc) (λ n. failed_repeatedly n exc) o
  after_hook phase_output nothing o = (go_on phase_output, reset_errors o)
  after_hook phase_output (action a) o = (stop a, reset_errors o)
  after_hook phase_output (model m) o = hook_model phase_output m (reset_errors o)
  after_hook phase_output (unexpected name) o =
      if setup.fail_on_type_mismatch
      then abort_with (wrong_type name) (reset_errors o)
      else (go_on phase_output, reset_errors o)

  unfoldable pub run_hook : Callable → Option Output → Orch → Verdict × Orch
  unfolding after_hook
  run_hook cb phase_output o =
      let (result, s) = setup.call cb phase_output o.run.state in
      after_hook phase_output result (set_state s o)

unfoldable pub then_hooks :
    (Option Output → Orch → Option HookAction × Orch) → Verdict × Orch → Option HookAction × Orch
then_hooks rest (go_on phase_output, o) = rest phase_output o
then_hooks rest (stop a, o) = (some a, o)

unfoldable pub run_each :
    Setup → HookPoint → List (String × Callable) → Option Output → Orch → Option HookAction × Orch
unfolding then_hooks run_hook
run_each setup point [] phase_output o = (none, o)
run_each setup point ((slug, cb) ∷ hooks) phase_output o =
    then_hooks (run_each setup point hooks) (run_hook setup point slug cb phase_output o)

unfoldable pub run_hooks : Setup → HookPoint → Option Output → Orch → Option HookAction × Orch
unfolding run_each hooks_at
run_hooks setup point phase_output o = run_each setup point (hooks_at setup point) phase_output o
