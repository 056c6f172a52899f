-- ===== src/Runtime/Loop/Interrupts.antt =====
-- How soon a cancelled or paused run stops.
use motoro.Prelude.{
  ℕ, suc, ◌+◌, ◌-◌, ◌≤◌, ◌<◌, subst, String, Bool, true, ◌||◌, Option, none, some, List, [], ◌∷◌,
  length, length-append, ◌≡◌, refl, arith, ap, ◌∙◌,
}
use native.Mathlib.Decide.{dec_lt}
use motoro.Runtime.Types.{Outcome, returned, raised, Phase, RunStatus, PhaseResult}
use motoro.Runtime.Context.{RunContext}
use motoro.Runtime.Phase.{Env, Signals, RuntimeState, check_interrupt}
use motoro.Runtime.Phase.Row.{Added, Added-execute_phase}
use motoro.Runtime.Loop.{
  Run, Flow, next, stop, after_phase, after_execute, after_limits, after_check, run_phase,
  set_iteration, start_run, run_iterations, catch, run_loop, start_phase_idx,
}
use motoro.Runtime.Loop.Frame.{Frame-after_phase}
use motoro.Runtime.Loop.Induction.{Ensures, Ensures-run_iterations}

-- One of the two events is set.
abbrev pub is_set : Signals → Bool
is_set s = s.cancel_set || s.pause_set

module _ (env : Env) (n : ℕ) (set_at : is_set (env.signals n) ≡ true) where
  -- Between phases the check number n is still ahead.
  abbrev Ahead : RuntimeState → Type 0
  Ahead s = (length s.rows ≤ s.checks) × (s.checks ≤ n)

  abbrev Good : Flow → Run → Type 0
  Good next v = Ahead v.state
  Good stop v = length v.state.rows ≤ n

  abbrev Raised : String → Run → Type 0
  Raised e v = length v.state.rows ≤ n

  Ensures-of_bounds :
      (r : Outcome Flow × Run)
      → length r.1.state.rows ≤ r.1.state.checks
      → r.1.state.checks ≤ n
      → Ensures Good Raised r
  Ensures-of_bounds (returned next, v) a b = (a, b)
  Ensures-of_bounds (returned stop, v) a b = omega arith
  Ensures-of_bounds (raised e, v) a b = omega arith

  length-Added :
      {phase : Phase} {s : RuntimeState} {r : Outcome PhaseResult × RuntimeState}
      → Added phase s r
      → length r.1.rows ≡ length s.rows + 1
  length-Added {s} a = ap length a.rows_added ∙ length-append s.rows (a.row ∷ [])

  after_execute_ok :
      (phase : Phase) (r : Outcome PhaseResult × RuntimeState) (v : Run)
      → length v.state.rows < v.state.checks
      → v.state.checks ≤ n
      → Added phase v.state r
      → Ensures Good Raised (after_execute env phase r v)
  unfolding after_execute
  after_execute_ok phase (raised e, s) v below ahead a = omega (arith, length-Added a)
  after_execute_ok phase (returned result, s) v below ahead a =
      let f = Frame-after_phase env phase result.output (record v { state = s }) in
      Ensures-of_bounds (after_phase env phase result.output (record v { state = s }))
        (omega (arith, ap length f.rows_kept, length-Added a, f.checks_kept, a.checks_same))
        (omega (arith, f.checks_kept, a.checks_same))

  after_limits_ok :
      (phase : Phase) (o : Option (List String)) (v : Run)
      → length v.state.rows < v.state.checks
      → v.state.checks ≤ n
      → Ensures Good Raised (after_limits env phase o v)
  unfolding after_limits
  after_limits_ok phase (some names) v below ahead = omega arith
  after_limits_ok phase none v below ahead =
      after_execute_ok phase _ v below ahead (Added-execute_phase env phase v.state)

  after_check_ok :
      (phase : Phase) (o : Option RunStatus) (v : Run)
      → length v.state.rows < v.state.checks
      → v.state.checks ≤ suc n
      → (o ≡ none → v.state.checks ≤ n)
      → Ensures Good Raised (after_check env phase o v)
  unfolding after_check
  after_check_ok phase (some status) v below ahead go = omega arith
  after_check_ok phase none v below ahead go = after_limits_ok phase _ v below (go refl)

  not_at_set : (i : ℕ) → i ≤ n → check_interrupt (env.signals i) ≡ none → i < n
  unfolding check_interrupt
  not_at_set i h e = elim (dec_lt i n) [
    | yes below ↦ below
    | no above ↦
        absurd (interrupts (subst (λ j. check_interrupt (env.signals j) ≡ none) (omega arith) e))
  ]
    where
      interrupts : check_interrupt (env.signals n) ≡ none → ⊥
      interrupts q = ground arith

  run_phase_ok :
      (phase : Phase) (v : Run) → Ahead v.state → Ensures Good Raised (run_phase env phase v)
  unfolding run_phase
  run_phase_ok phase v h =
      after_check_ok phase (check_interrupt (env.signals v.state.checks))
        (record v { state = record v.state { checks = v.state.checks + 1 } }) (omega arith)
        (omega arith) (λ e. omega (arith, not_at_set v.state.checks h.1 e))

  catch_ok : (r : Outcome Flow × Run) → Ensures Good Raised r → length (catch r).state.rows ≤ n
  unfolding catch
  catch_ok (returned next, v) h = omega arith
  catch_ok (returned stop, v) h = h
  catch_ok (raised e, v) h = h

  -- Where the cancel or the pause event is set at interrupt check number n, counted from 0, a run
  -- executes at most n phases: none begins after that check.
  pub length-rows-le-signal :
      (c : RunContext) (resume_phase : Option String)
      → length (run_loop env c resume_phase).state.rows ≤ n
  unfolding run_loop
  length-rows-le-signal c resume_phase =
      catch_ok
        (run_iterations env (c.max_iterations - c.iteration) c.iteration
          (start_phase_idx resume_phase) (start_run c))
        (Ensures-run_iterations env Good Raised run_phase_ok (λ i v h. unfold set_iteration in h)
          (λ v h. h) (c.max_iterations - c.iteration) c.iteration (start_phase_idx resume_phase)
          (start_run c) (unfold start_run in (omega arith, omega arith)))
