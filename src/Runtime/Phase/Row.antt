-- ===== src/Runtime/Phase/Row.antt =====
-- The row that the execution of a phase adds.
use motoro.Prelude.{
  ◌+◌, String, Option, none, some, List, [], ◌∷◌, ◌++◌, ◌≡◌, ◌⊎◌, inl, inr, refl, ◌∙◌,
}
use motoro.Runtime.Types.{Outcome, returned, raised, Phase, PhaseResult, LlmCallRecord}
use motoro.Runtime.Context.{RunContext}
use motoro.Runtime.Phase.{
  Env, RunStep, RuntimeState, execute_phase, settle, fail_phase, finish_phase, after_commit,
  add_row, track_usage,
}

-- A phase that returns is among the steps of the result. One that raises may not be: its commit
-- may be what raised.
abbrev pub Tracked : Outcome PhaseResult → List RunStep → List RunStep → RunStep → Type 0
Tracked (returned result) before after row = after ≡ before ++ row ∷ []
Tracked (raised e) before after row = (after ≡ before ++ row ∷ []) ⊎ (after ≡ before)

-- One row is added, of this phase and of the iteration that the context has, under the next number.
pub record Added (phase : Phase) (s : RuntimeState) (r : Outcome PhaseResult × RuntimeState)
    : Type 0 where
  pub row : RunStep
  pub rows_added : r.1.rows ≡ s.rows ++ row ∷ []
  pub phase_same : row.phase ≡ phase
  pub iteration_same : row.iteration ≡ r.1.context.iteration
  pub sequence_next : row.sequence ≡ s.step_sequence
  pub counter_next : r.1.step_sequence ≡ s.step_sequence + 1
  pub checks_same : r.1.checks ≡ s.checks
  pub tracked : Tracked r.0 s.steps r.1.steps row

Added-after_commit :
    (e : Option String) (result : PhaseResult) (step : RunStep) (c : RunContext) (s : RuntimeState)
    → step.sequence ≡ s.step_sequence
    → step.iteration ≡ c.iteration
    → Added step.phase s (after_commit e result step (add_row step c s))
unfolding after_commit add_row
Added-after_commit none result step c s number turn = record {
  row = step;
  rows_added = refl;
  phase_same = refl;
  iteration_same = turn;
  sequence_next = number;
  counter_next = refl;
  checks_same = refl;
  tracked = refl;
}
Added-after_commit (some e) result step c s number turn = record {
  row = step;
  rows_added = refl;
  phase_same = refl;
  iteration_same = turn;
  sequence_next = number;
  counter_next = refl;
  checks_same = refl;
  tracked = inr refl;
}

Added-settle :
    (env : Env) (phase : Phase) (r : Outcome PhaseResult × RunContext) (s : RuntimeState)
    → Added phase s (settle env phase r s)
unfolding settle fail_phase finish_phase
Added-settle env phase (raised e, c) s = record {
  row = _;
  rows_added = refl;
  phase_same = refl;
  iteration_same = refl;
  sequence_next = refl;
  counter_next = refl;
  checks_same = refl;
  tracked = inl refl;
}
Added-settle env phase (returned result, c) s =
    Added-after_commit (env.commit s.commits) result _ _ s refl refl

pub Added-execute_phase :
    (env : Env) (phase : Phase) (s : RuntimeState) → Added phase s (execute_phase env phase s)
unfolding execute_phase
Added-execute_phase env phase s = Added-settle env phase (env.execute phase s.context) s

-- The phases leave `context.iteration` to the loop.
pub record KeepsIteration (env : Env) : Type 0 where
  pub kept : (phase : Phase) (c : RunContext) → (env.execute phase c).1.iteration ≡ c.iteration

iteration-track_usage :
    (o : Option LlmCallRecord) (c : RunContext) → (track_usage o c).iteration ≡ c.iteration
unfolding track_usage
iteration-track_usage none c = refl
iteration-track_usage (some r) c = refl

iteration-after_commit :
    (e : Option String) (result : PhaseResult) (step : RunStep) (c : RunContext) (s : RuntimeState)
    → (after_commit e result step (add_row step c s)).1.context.iteration ≡ c.iteration
unfolding after_commit add_row
iteration-after_commit none result step c s = refl
iteration-after_commit (some e) result step c s = refl

iteration-settle :
    (env : Env) (phase : Phase) (r : Outcome PhaseResult × RunContext) (s : RuntimeState)
    → (settle env phase r s).1.context.iteration ≡ r.1.iteration
unfolding settle fail_phase finish_phase
iteration-settle env phase (raised e, c) s = refl
iteration-settle env phase (returned result, c) s =
    iteration-after_commit (env.commit s.commits) result _ _ s
    ∙ iteration-track_usage result.llm_call c

pub iteration-execute_phase :
    (env : Env) (phase : Phase) (s : RuntimeState)
    → KeepsIteration env
    → (execute_phase env phase s).1.context.iteration ≡ s.context.iteration
unfolding execute_phase
iteration-execute_phase env phase s k =
    iteration-settle env phase (env.execute phase s.context) s ∙ k.kept phase s.context
