-- ===== src/Runtime/Examples.antt =====
-- A run of two iterations in which the plan names an unknown tool, and one that is cancelled.
use motoro.Prelude.{
  ℕ, ◌≤◌, ◌-◌, eq_text, Bool, true, false, leb, Option, none, some, List, [], ◌∷◌, ◌++◌, get,
  length, map, min, ◌+◌, if◌then◌else◌, String, ◌≡◌, refl, ◌==◌,
}
use motoro.Runtime.Types.{
  returned, Phase, plan, act, eq_phase, ToolCallRecord, StepResult, PlanStep, PlanOutput, ActOutput,
  Output, plan_output, act_output, other_output,
}
use motoro.Runtime.Plan.{ToolDescriptor, Peer, valid_names, validate_plan_tools}
use motoro.Runtime.Plan.Validity.{Offered, AllChecked, validate_plan_tools_lem}
use motoro.Runtime.Context.{HistoryEntry, RunContext, record_phase_output}
use motoro.Runtime.Context.History.{record_phase_output_lem}
use motoro.Runtime.Phase.{Env}
use motoro.Runtime.Calls.{tool_call_data, flatten_tool_call_records}
use motoro.Runtime.Calls.Reading.{Records, flatten-tool_call_data}
use motoro.Runtime.Phase.Row.{KeepsIteration}
use motoro.Runtime.Loop.{run, run_loop}
use motoro.Runtime.Loop.Outcomes.{Consistent, run-Consistent}
use motoro.Runtime.Loop.Numbering.{Accounted, run_loop-Accounted}
use motoro.Runtime.Loop.Rows.{Follows, schedule, phases_from, run_loop-Follows}
use motoro.Runtime.Loop.Interrupts.{length-rows-le-signal}

abbrev search_tool : ToolDescriptor
search_tool = record { name = "web.search"; tool_name = "search"; server = "web" }

abbrev bad_plan : PlanOutput
bad_plan = record {
  steps =
      record {
        action = "look up";
        description = "";
        tool_name = some "fetch";
        tool_args = some "{}";
        expected_outcome = "";
      }
      ∷ [];
  is_complete = false;
  completion_reason = none;
}

abbrev answer : Bool → ActOutput
answer again = record { results = []; final_response = "done"; should_continue = again }

abbrev reply_of : Phase → RunContext → Output
reply_of plan c = plan_output bad_plan
reply_of act c = act_output (answer (leb c.iteration 0))
reply_of p c = other_output "noted"

abbrev start : RunContext
start = record {
  phase_outputs = [];
  conversation_history = [];
  available_tools = search_tool ∷ [];
  available_agents = [];
  total_prompt_tokens = 0;
  total_completion_tokens = 0;
  total_cost = 0;
  iteration = 0;
  max_iterations = 5;
  max_history = 3;
  retry_count = none;
  heartbeat_failures = 0;
  metadata = [];
  current_phase = none;
}

-- Every phase answers; the cancel event is set from the check with this number on.
abbrev env : ℕ → Env
env cancel_at = record {
  execute = λ p c. (returned (record { output = reply_of p c; llm_call = none }), c);
  commit = λ n. none;
  signals = λ n. record { cancel_set = leb cancel_at n; pause_set = false };
  limit_checker = none;
  remember = none;
  str = λ o. "";
  summarize = λ o. "";
  slug = λ a. a.name;
}

keeps : (n : ℕ) → KeepsIteration (env n)
keeps n = record { kept = λ p c. refl }

two_iterations :
    map (λ s. s.sequence) (run (env 100) start none).steps ≡ 0 ∷ 1 ∷ 2 ∷ 3 ∷ 4 ∷ 5 ∷ 6 ∷ 7 ∷ []
unfolding run
two_iterations = refl

abbrev step : String → PlanStep
step tool = record {
  action = "look up";
  description = "";
  tool_name = some tool;
  tool_args = some "{}";
  expected_outcome = "";
}

abbrev helper : Peer
helper = record { agent_id = "7"; name = "ask_helper" }

-- A tool, an unknown name and a peer.
abbrev mixed_plan : PlanOutput
mixed_plan = record {
  steps = step "search" ∷ step "fetch" ∷ step "ask_helper" ∷ [];
  is_complete = false;
  completion_reason = none;
}

abbrev validated_steps : List PlanStep
unfolding validate_plan_tools
validated_steps =
    (validate_plan_tools (λ a. a.name) (search_tool ∷ []) (helper ∷ []) mixed_plan).steps

fetch_cleared :
    (map (λ s. s.tool_name) validated_steps ≡ some "search" ∷ none ∷ some "ask_helper" ∷ [])
    × (map (λ s. s.tool_args) validated_steps ≡ some "{}" ∷ none ∷ some "{}" ∷ [])
unfolding validated_steps valid_names
fetch_cleared = (refl, refl)

validate_plan_tools_lem_example :
    let validated = validate_plan_tools (λ a. a.name) (search_tool ∷ []) (helper ∷ []) mixed_plan in
    AllChecked
      (Offered (λ a. a.name) (search_tool ∷ []) (helper ∷ []))
      mixed_plan.steps
      validated.steps
    × (validated.is_complete ≡ mixed_plan.is_complete)
    × (validated.completion_reason ≡ mixed_plan.completion_reason)
validate_plan_tools_lem_example =
    validate_plan_tools_lem (λ a. a.name) (search_tool ∷ []) (helper ∷ []) mixed_plan

record_phase_output_lem_example :
    let c' = record_phase_output (λ o. "") act (act_output (answer true)) start in
    ((q : Phase)
      → get c'.phase_outputs q
        ≡ (if act == q then some (act_output (answer true)) else get start.phase_outputs q))
    × (length c'.conversation_history
        ≡ min start.max_history (length start.conversation_history + 1))
    × ((older : List HistoryEntry) × (entry : HistoryEntry) × (entry.phase ≡ act)
        × (entry.iteration ≡ start.iteration)
        × (start.conversation_history ++ entry ∷ [] ≡ older ++ c'.conversation_history))
record_phase_output_lem_example =
    record_phase_output_lem (λ o. "") act (act_output (answer true)) start

abbrev call : String → Bool → ToolCallRecord
call tool success = record {
  server = "web";
  tool = tool;
  arguments = "{}";
  result = "";
  success = success;
}

abbrev result : Option ToolCallRecord → StepResult
result c = record { step_index = 0; action = "look up"; result = ""; success = true; tool_call = c }

-- Two calls, of which one has failed, and a result without a call.
abbrev two_calls : ActOutput
two_calls = record {
  results =
      result (some (call "search" false)) ∷ result none ∷ result (some (call "fetch" true)) ∷ [];
  final_response = "done";
  should_continue = false;
}

flatten-tool_call_data_example :
    Records
      (call "search" false ∷ call "fetch" true ∷ [])
      (flatten_tool_call_records (tool_call_data (act_output two_calls)))
flatten-tool_call_data_example = flatten-tool_call_data (act_output two_calls)

run-Consistent_example :
    let r = run (env 6) start (some "plan") in
    Consistent r.status r.output r.error r.context_snapshot
run-Consistent_example = run-Consistent (env 6) start (some "plan")

run_loop-Accounted_example : Accounted (run_loop (env 100) start none)
run_loop-Accounted_example = run_loop-Accounted (env 100) start none

run_loop-Follows_example :
    Follows
      (schedule
        (start.max_iterations - start.iteration)
        start.iteration
        (phases_from (some "plan")))
      (run_loop (env 100) start (some "plan")).state.rows
run_loop-Follows_example = run_loop-Follows (env 100) start (some "plan") (keeps 100)

length-rows-le-signal_example : length (run_loop (env 6) start none).state.rows ≤ 6
length-rows-le-signal_example = length-rows-le-signal (env 6) 6 refl start none
