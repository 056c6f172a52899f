-- ===== src/Runtime/Loop.antt =====
-- `AgentRuntime.run` of engine/runtime.py, from the determination of the first phase to the
-- result. Preparing the context and storing memories after the loop are outside.
pub mod Induction
pub mod Outcomes
pub mod Rows
pub mod Frame
pub mod Interrupts
pub mod Numbering
use motoro.Prelude.{
  ℕ, zero, suc, ◌+◌, ◌-◌, ltb, String, eq_text, Bool, true, false, ◌==◌, Dict, Option, none, some,
  List, [], ◌∷◌, ◌++◌, map, drop, put, length, if◌then◌else◌,
}
use motoro.Runtime.Types.{
  Outcome, returned, raised, Phase, sense, reason, plan, act, eq_phase, RunStatus, completed,
  failed, cancelled, paused, Output, plan_output, act_output, other_output, ActOutput, PlanOutput,
  PhaseResult,
}
use motoro.Runtime.Plan.{◌or_text◌, validate_plan_tools}
use motoro.Runtime.Context.{RunContext}
use motoro.Runtime.Metadata.{MetadataValue, run_metadata_of}
use motoro.Runtime.Phase.{
  Signals, Env, RunStep, RuntimeState, execute_phase, check_interrupt, check_resource_limits,
}

abbrev pub phase_sequence : List Phase
phase_sequence = sense ∷ reason ∷ plan ∷ act ∷ []

-- error_msg: "Resource limits exceeded: ...", the text of the exception, or, from the orchestrator
-- alone, the text of an abort.
pub data RunError : Type 0 where
  limits_exceeded : List String → RunError
  aborted : String → RunError
  exception : String → RunError

-- The local variables of `run` beside the runtime's own state. `remembered` are the texts written
-- to the working memory.
pub record Run : Type 0 where
  pub state : RuntimeState
  pub status : RunStatus
  pub final_output : String
  pub error_msg : Option RunError
  pub context_snapshot : Option RunContext
  pub actions_taken : List String
  pub remembered : List String

-- How the body of the inner loop ends: on to the next phase, or out of both loops.
pub data Flow : Type 0 where
  next stop : Flow

or_default : Option String → String → String
or_default none d = d
or_default (some s) d = s or_text d

unfoldable pub after_plan : Env → PlanOutput → Run → Outcome Flow × Run
unfolding or_default validate_plan_tools
after_plan env p v =
    let c = v.state.context in
    let validated = validate_plan_tools env.slug c.available_tools c.available_agents p in
    if p.is_complete
    then (
      returned stop,
      record v {
        final_output = or_default p.completion_reason "Goal already satisfied.";
        status = completed;
      },
    )
    else (
      returned next,
      record v {
        state = record v.state {
          context = record c { phase_outputs = put c.phase_outputs plan (plan_output validated) };
        };
        actions_taken = v.actions_taken ++ map (λ s. s.action) validated.steps;
      },
    )

unfoldable pub respond : ActOutput → Run → Outcome Flow × Run
respond o v =
    let v' = record v { final_output = o.final_response } in
    (returned (if o.should_continue then next else stop), v')

-- A write to the working memory that raises ends the run.
unfoldable pub after_memory : Option String → ActOutput → Run → Outcome Flow × Run
unfolding respond
after_memory (some e) o v = (raised e, v)
after_memory none o v = respond o (record v { remembered = v.remembered ++ o.final_response ∷ [] })

unfoldable pub after_act :
    Option (ℕ → String → Option String) → ActOutput → Run → Outcome Flow × Run
unfolding after_memory respond
after_act none o v = respond o v
after_act (some write) o v = after_memory (write (length v.remembered) o.final_response) o v

-- Phase-specific post-processing.
unfoldable pub after_phase : Env → Phase → Output → Run → Outcome Flow × Run
unfolding after_plan after_act
after_phase env plan (plan_output p) v = after_plan env p v
after_phase env plan _ v = (returned next, v)
after_phase env act (act_output o) v = after_act env.remember o v
after_phase env act o v = (returned stop, record v { final_output = env.str o })
after_phase env sense o v = (returned next, v)
after_phase env reason o v = (returned next, v)

unfoldable pub after_execute :
    Env → Phase → Outcome PhaseResult × RuntimeState → Run → Outcome Flow × Run
unfolding after_phase
after_execute env phase (raised e, s) v = (raised e, record v { state = s })
after_execute env phase (returned result, s) v =
    after_phase env phase result.output (record v { state = s })

unfoldable pub after_limits : Env → Phase → Option (List String) → Run → Outcome Flow × Run
unfolding after_execute execute_phase
after_limits env phase (some names) v =
    (returned stop, record v { status = failed; error_msg = some (limits_exceeded names) })
after_limits env phase none v = after_execute env phase (execute_phase env phase v.state) v

unfoldable pub snapshot_if : RunStatus → RunContext → Option RunContext → Option RunContext
snapshot_if paused c old = some c
snapshot_if _ c old = old

unfoldable pub after_check : Env → Phase → Option RunStatus → Run → Outcome Flow × Run
unfolding after_limits snapshot_if check_resource_limits
after_check env phase (some status) v = (
  returned stop,
  record v {
    status = status;
    final_output = "";
    context_snapshot = snapshot_if status v.state.context v.context_snapshot;
  },
)
after_check env phase none v = after_limits env phase (check_resource_limits env v.state.context) v

-- The body of the inner loop.
unfoldable pub run_phase : Env → Phase → Run → Outcome Flow × Run
unfolding after_check check_interrupt
run_phase env phase v =
    after_check env phase (check_interrupt (env.signals v.state.checks))
      (record v { state = record v.state { checks = v.state.checks + 1 } })

unfoldable pub go_on : (Run → Outcome Flow × Run) → Outcome Flow × Run → Outcome Flow × Run
go_on rest (returned next, v) = rest v
go_on rest (returned stop, v) = (returned stop, v)
go_on rest (raised e, v) = (raised e, v)

unfoldable pub run_phases : Env → List Phase → Run → Outcome Flow × Run
unfolding go_on run_phase
run_phases env [] v = (returned next, v)
run_phases env (p ∷ ps) v = go_on (run_phases env ps) (run_phase env p v)

unfoldable pub set_iteration : ℕ → Run → Run
set_iteration i v = record v {
  state = record v.state { context = record v.state.context { iteration = i } };
}

-- `for iteration in range(...)`: the iterations left, the next one and its first phase. The end of
-- the range is the `else` of the loop.
unfoldable pub run_iterations : Env → ℕ → ℕ → ℕ → Run → Outcome Flow × Run
unfolding go_on run_phases set_iteration
run_iterations env zero i first v =
    (returned next, record v { final_output = v.final_output or_text "Max iterations reached." })
run_iterations env (suc left) i first v =
    go_on (run_iterations env left (suc i) 0)
      (run_phases env (drop first phase_sequence) (set_iteration i v))

-- except Exception
unfoldable pub catch : Outcome Flow × Run → Run
catch (returned f, v) = v
catch (raised e, v) = record v {
  status = failed;
  error_msg = some (exception e);
  final_output = "";
}

abbrev pub phase_name : Phase → String
phase_name sense = "sense"
phase_name reason = "reason"
phase_name plan = "plan"
phase_name act = "act"

-- phase_names.index(name) if name in phase_names else 0
index_of : String → List Phase → ℕ → ℕ
index_of name [] i = 0
index_of name (p ∷ ps) i = if phase_name p == name then i else index_of name ps (suc i)

unfoldable pub start_phase_idx : Option String → ℕ
unfolding index_of
start_phase_idx none = 0
start_phase_idx (some name) = index_of name phase_sequence 0

unfoldable pub start_run : RunContext → Run
start_run c = record {
  state = record {
    context = c;
    steps = [];
    rows = [];
    step_sequence = 0;
    commits = 0;
    checks = 0;
    published = [];
  };
  status = completed;
  final_output = "";
  error_msg = none;
  context_snapshot = none;
  actions_taken = [];
  remembered = [];
}

pub record AgentRunResult : Type 0 where
  pub status : RunStatus
  pub output : String
  pub steps : List RunStep
  pub total_prompt_tokens : ℕ
  pub total_completion_tokens : ℕ
  pub total_cost : ℕ
  pub error : Option RunError
  pub context_snapshot : Option RunContext
  pub run_metadata : Dict String MetadataValue

unfoldable pub run_loop : Env → RunContext → Option String → Run
unfolding run_iterations catch start_phase_idx start_run
run_loop env c resume_phase = catch (
    run_iterations env (c.max_iterations - c.iteration) c.iteration (start_phase_idx resume_phase)
      (start_run c))

abbrev pub result_of : Run → AgentRunResult
result_of v =
    let c' = v.state.context in
    record {
      status = v.status;
      output = v.final_output;
      steps = v.state.steps;
      total_prompt_tokens = c'.total_prompt_tokens;
      total_completion_tokens = c'.total_completion_tokens;
      total_cost = c'.total_cost;
      error = v.error_msg;
      context_snapshot = v.context_snapshot;
      run_metadata = run_metadata_of c';
    }

unfoldable pub run : Env → RunContext → Option String → AgentRunResult
unfolding run_loop run_metadata_of
run env c resume_phase = result_of (run_loop env c resume_phase)
