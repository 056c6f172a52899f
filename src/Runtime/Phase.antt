-- ===== src/Runtime/Phase.antt =====
-- `_execute_phase`, `_create_step`, `_prev_phase`, `_check_interrupt` and `_check_resource_limits`
-- of engine/runtime.py.
pub mod Row
use motoro.Prelude.{
  ℕ, suc, ◌+◌, String, eq_text, Bool, true, false, not, ◌==◌, Option, none, some, List, [], ◌∷◌,
  ◌++◌, map, Dict, get, length, all, if◌then◌else◌,
}
use motoro.Runtime.Types.{
  Outcome, returned, raised, Phase, sense, reason, plan, act, eq_phase, RunStatus, cancelled,
  paused, Output, plan_output, act_output, other_output, LlmCallRecord, PhaseResult,
}
use motoro.Runtime.Calls.{JsonValue, tool_call_data}
use motoro.Runtime.Plan.{Peer}
use motoro.Runtime.Context.{RunContext, add_llm_usage, record_phase_output}

-- What the two events say when they are read.
pub record Signals : Type 0 where
  pub cancel_set : Bool
  pub pause_set : Bool

-- The dict that an installed limit checker returns: "exceeded" and the other keys.
pub record LimitReport : Type 0 where
  pub exceeded : Bool
  pub flags : List (String × Bool)

-- What a run meets outside of the loop: the phases, the n-th commit (an exception, if it raises),
-- the events at the n-th check, the limit checker (`none` inside: it raised), the working memory
-- (an exception, if the n-th write raises), the texts of outputs and the names of peers.
pub record Env : Type 0 where
  pub execute : Phase → RunContext → Outcome PhaseResult × RunContext
  pub commit : ℕ → Option String
  pub signals : ℕ → Signals
  pub limit_checker : Option (ℕ → ℕ → Option LimitReport)
  pub remember : Option (ℕ → String → Option String)
  pub str : Output → String
  pub summarize : Output → String
  pub slug : Peer → String

pub data StepOutput : Type 0 where
  step_error : String → StepOutput
  step_output : Output → StepOutput

pub record RunStep : Type 0 where
  pub sequence : ℕ
  pub iteration : ℕ
  pub phase : Phase
  pub input_data : Option Output
  pub retry_attempt : Option ℕ
  pub output_data : StepOutput
  pub llm_call : Option LlmCallRecord
  pub tool_call : Option JsonValue

-- `steps` is `_steps`; `rows` are the steps given to `_db.add`; `commits` and `checks` count the
-- commits and the interrupt checks so far; `published` are the phase_completed events.
pub record RuntimeState : Type 0 where
  pub context : RunContext
  pub steps : List RunStep
  pub rows : List RunStep
  pub step_sequence : ℕ
  pub commits : ℕ
  pub checks : ℕ
  pub published : List (Phase × ℕ)

unfoldable pub prev_phase : Phase → Option Phase
prev_phase sense = none
prev_phase reason = some sense
prev_phase plan = some reason
prev_phase act = some plan

unfoldable pub phase_input : Option Phase → RunContext → Option Output
phase_input none c = none
phase_input (some p) c = get c.phase_outputs p

unfoldable pub track_usage : Option LlmCallRecord → RunContext → RunContext
unfolding add_llm_usage
track_usage none c = c
track_usage (some r) c = add_llm_usage r.prompt_tokens r.completion_tokens r.cost_estimate c

-- Adds the row and takes the next sequence number.
unfoldable pub add_row : RunStep → RunContext → RuntimeState → RuntimeState
add_row step c s = record s {
  context = c;
  rows = s.rows ++ step ∷ [];
  step_sequence = s.step_sequence + 1;
  commits = s.commits + 1;
}

-- The error path: the step is kept whether or not its commit succeeds.
unfoldable pub fail_phase :
    Phase → String → RunContext → RuntimeState → Outcome PhaseResult × RuntimeState
unfolding add_row phase_input prev_phase
fail_phase phase e c s =
    let step : RunStep = record {
      sequence = s.step_sequence;
      iteration = c.iteration;
      phase = phase;
      input_data = phase_input (prev_phase phase) c;
      retry_attempt = none;
      output_data = step_error e;
      llm_call = none;
      tool_call = none;
    } in
    (raised e, record (add_row step c s) { steps = s.steps ++ step ∷ [] })

-- The end of the success path: a commit that raises ends it.
unfoldable pub after_commit :
    Option String → PhaseResult → RunStep → RuntimeState → Outcome PhaseResult × RuntimeState
after_commit (some e) result step s = (raised e, s)
after_commit none result step s = (
  returned result,
  record s {
    steps = s.steps ++ step ∷ [];
    published = s.published ++ (step.phase, s.context.iteration) ∷ [];
  },
)

unfoldable pub finish_phase :
    Env → Phase → PhaseResult → RunContext → RuntimeState → Outcome PhaseResult × RuntimeState
unfolding track_usage record_phase_output after_commit add_row phase_input prev_phase tool_call_data
finish_phase env phase result c s =
    let c' =
      record_phase_output env.summarize phase result.output (track_usage result.llm_call c) in
    let step : RunStep = record {
      sequence = s.step_sequence;
      iteration = c'.iteration;
      phase = phase;
      input_data = phase_input (prev_phase phase) c';
      retry_attempt = c'.retry_count;
      output_data = step_output result.output;
      llm_call = result.llm_call;
      tool_call = tool_call_data result.output;
    } in
    after_commit (env.commit s.commits) result step (add_row step c' s)

unfoldable pub settle :
    Env
    → Phase
    → Outcome PhaseResult × RunContext
    → RuntimeState
    → Outcome PhaseResult × RuntimeState
unfolding fail_phase finish_phase
settle env phase (raised e, c) s = fail_phase phase e c s
settle env phase (returned result, c) s = finish_phase env phase result c s

unfoldable pub execute_phase : Env → Phase → RuntimeState → Outcome PhaseResult × RuntimeState
unfolding settle
execute_phase env phase s = settle env phase (env.execute phase s.context) s

unfoldable pub check_interrupt : Signals → Option RunStatus
check_interrupt s =
    if s.cancel_set then some cancelled else if s.pause_set then some paused else none

-- The calls of tools that the outputs in the context report.
count_results : Dict Phase Output → ℕ
count_results [] = 0
count_results ((p, act_output o) ∷ outputs) = length o.results + count_results outputs
count_results ((p, plan_output o) ∷ outputs) = count_results outputs
count_results ((p, other_output o) ∷ outputs) = count_results outputs

exceeded_flags : List (String × Bool) → List String
exceeded_flags [] = []
exceeded_flags ((k, v) ∷ flags) =
    if v
    then (if k == "exceeded" then exceeded_flags flags else k ∷ exceeded_flags flags)
    else exceeded_flags flags

read_report : Option LimitReport → Option (List String)
unfolding exceeded_flags
read_report none = none
read_report (some r) = if r.exceeded then some (exceeded_flags r.flags) else none

-- The names of the limits that are exceeded: no checker, or one that raises, stops nothing.
unfoldable pub check_resource_limits : Env → RunContext → Option (List String)
unfolding count_results read_report
check_resource_limits env c = elim env.limit_checker [
  | none ↦ none
  | some check ↦
      read_report
        (check (c.total_prompt_tokens + c.total_completion_tokens) (count_results c.phase_outputs))
]
