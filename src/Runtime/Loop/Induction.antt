-- ===== src/Runtime/Loop/Induction.antt =====
-- What each phase keeps holds at the end of the loops: `P next` between phases, `P stop` where the
-- loops are left, `E` where an exception is raised.
use motoro.Prelude.{ℕ, zero, suc, String, List, [], ◌∷◌, drop}
use motoro.Runtime.Types.{Outcome, returned, raised, Phase}
use motoro.Runtime.Plan.{◌or_text◌}
use motoro.Runtime.Phase.{Env}
use motoro.Runtime.Loop.{
  Run, Flow, next, stop, run_phase, go_on, run_phases, set_iteration, run_iterations,
  phase_sequence,
}

abbrev pub Ensures : (Flow → Run → Type 0) → (String → Run → Type 0) → Outcome Flow × Run → Type 0
Ensures P E (returned f, v) = P f v
Ensures P E (raised e, v) = E e v

module _ (env : Env) (P : Flow → Run → Type 0) (E : String → Run → Type 0)
    (phase_ok : (phase : Phase) (v : Run) → P next v → Ensures P E (run_phase env phase v))
    (iteration_ok : (i : ℕ) (v : Run) → P next v → P next (set_iteration i v))
    (end_ok : (v : Run)
      → P next v
      → P next (record v { final_output = v.final_output or_text "Max iterations reached." })) where
  Ensures-go_on :
      (rest : Run → Outcome Flow × Run) (r : Outcome Flow × Run)
      → ((v : Run) → P next v → Ensures P E (rest v))
      → Ensures P E r
      → Ensures P E (go_on rest r)
  unfolding go_on
  Ensures-go_on rest (returned next, v) k h = k v h
  Ensures-go_on rest (returned stop, v) k h = h
  Ensures-go_on rest (raised e, v) k h = h

  Ensures-run_phases : (ps : List Phase) (v : Run) → P next v → Ensures P E (run_phases env ps v)
  unfolding run_phases
  Ensures-run_phases [] v h = h
  Ensures-run_phases (p ∷ ps) v h =
      Ensures-go_on (run_phases env ps) (run_phase env p v) (Ensures-run_phases ps) (phase_ok p v h)

  pub Ensures-run_iterations :
      (left i first : ℕ) (v : Run) → P next v → Ensures P E (run_iterations env left i first v)
  unfolding run_iterations
  Ensures-run_iterations zero i first v h = end_ok v h
  Ensures-run_iterations (suc left) i first v h =
      Ensures-go_on (run_iterations env left (suc i) 0)
        (run_phases env (drop first phase_sequence) (set_iteration i v))
        (Ensures-run_iterations left (suc i) 0)
        (Ensures-run_phases (drop first phase_sequence) (set_iteration i v) (iteration_ok i v h))
