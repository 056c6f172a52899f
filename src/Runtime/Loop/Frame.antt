-- ===== src/Runtime/Loop/Frame.antt =====
-- What the work after a phase leaves alone: the rows, the steps, their numbers, the iteration and
-- the count of checks.
use motoro.Prelude.{ℕ, String, Option, none, some, ◌≡◌, refl, Bool-cases, inl, inr}
use motoro.Runtime.Types.{
  Phase, sense, reason, plan, act, Output, plan_output, act_output, other_output, ActOutput,
  PlanOutput,
}
use motoro.Runtime.Phase.{Env, RuntimeState}
use motoro.Runtime.Loop.{Run, after_act, after_memory, after_plan, after_phase}

pub record Frame (s s' : RuntimeState) : Type 0 where
  pub rows_kept : s'.rows ≡ s.rows
  pub steps_kept : s'.steps ≡ s.steps
  pub counter_kept : s'.step_sequence ≡ s.step_sequence
  pub iteration_kept : s'.context.iteration ≡ s.context.iteration
  pub checks_kept : s'.checks ≡ s.checks

Frame-refl : (s : RuntimeState) → Frame s s
Frame-refl s = record {
  rows_kept = refl;
  steps_kept = refl;
  counter_kept = refl;
  iteration_kept = refl;
  checks_kept = refl;
}

Frame-after_memory :
    (e : Option String) (o : ActOutput) (v : Run) → Frame v.state (after_memory e o v).1.state
unfolding after_memory
Frame-after_memory (some e) o v = Frame-refl v.state
Frame-after_memory none o v = Frame-refl v.state

Frame-after_act :
    (memory : Option (ℕ → String → Option String)) (o : ActOutput) (v : Run)
    → Frame v.state (after_act memory o v).1.state
unfolding after_act
Frame-after_act none o v = Frame-refl v.state
Frame-after_act (some write) o v = Frame-after_memory (write _ _) o v

Frame-after_plan :
    (env : Env) (p : PlanOutput) (v : Run) → Frame v.state (after_plan env p v).1.state
unfolding after_plan
Frame-after_plan env p v = elim (Bool-cases p.is_complete) [
  | inl e ↦ rw e (Frame-refl v.state)
  | inr e ↦ rw e (record {
    rows_kept = refl;
    steps_kept = refl;
    counter_kept = refl;
    iteration_kept = refl;
    checks_kept = refl;
  })
]

pub Frame-after_phase :
    (env : Env) (phase : Phase) (o : Output) (v : Run)
    → Frame v.state (after_phase env phase o v).1.state
unfolding after_phase
Frame-after_phase env plan (plan_output p) v = Frame-after_plan env p v
Frame-after_phase env act (act_output o) v = Frame-after_act env.remember o v
Frame-after_phase env plan (act_output o) v = Frame-refl v.state
Frame-after_phase env plan (other_output t) v = Frame-refl v.state
Frame-after_phase env act (plan_output p) v = Frame-refl v.state
Frame-after_phase env act (other_output t) v = Frame-refl v.state
Frame-after_phase env sense o v = Frame-refl v.state
Frame-after_phase env reason o v = Frame-refl v.state
