-- ===== src/Orchestrator/Examples.antt =====
-- A run without plugins, and one with two plugins of which one keeps failing at its hook.
use motoro.Prelude.{
  if◌then◌else◌, ◌==◌, true, false, String, eq_text, concat, none, some, List, [], ◌∷◌, get, ◌≡◌,
  refl, arith,
}
use motoro.Patterns.Plugin.{coordination, pre_sense, Plugin}
use motoro.Runtime.Types.{
  returned, Phase, PhaseResult, plan, act, eq_phase, Output, plan_output, act_output, other_output,
}
use motoro.Runtime.Context.{RunContext}
use motoro.Runtime.Phase.{Env}
use motoro.Runtime.Loop as Plain
use motoro.Runtime.Loop.{start_run}
use motoro.Orchestrator.Types.{abort, failed as hook_failed, Setup, Orch}
use motoro.Orchestrator.Hooks.{run_hooks}
use motoro.Orchestrator.Lifecycle.{orchestrate, run}
use motoro.Orchestrator.Settled.{Consistent}
use motoro.Orchestrator.Settled.Results.{run_result-Consistent}
use motoro.Orchestrator.Veil.{veil, Unaware, veil_result}
use motoro.Orchestrator.Bare.{run_bare}

abbrev output_of : Phase → Output
output_of plan = plan_output (record { steps = []; is_complete = false; completion_reason = none })
output_of act =
    act_output (record { results = []; final_response = "done"; should_continue = false })
output_of p = other_output "noted"

abbrev result_for : Phase → PhaseResult
result_for p = record { output = output_of p; llm_call = none }

abbrev context : RunContext
context = record {
  phase_outputs = [];
  conversation_history = [];
  available_tools = [];
  available_agents = [];
  total_prompt_tokens = 0;
  total_completion_tokens = 0;
  total_cost = 0;
  iteration = 0;
  max_iterations = 3;
  max_history = 3;
  retry_count = none;
  heartbeat_failures = 2;
  metadata = [];
  current_phase = none;
}

abbrev runtime : Env
runtime = record {
  execute = λ p c. (returned (result_for p), c);
  commit = λ n. none;
  signals = λ n. record { cancel_set = false; pause_set = false };
  limit_checker = none;
  remember = none;
  str = λ o. "";
  summarize = λ o. "";
  slug = λ a. a.name;
}

abbrev plugin : String → Plugin
plugin name = record {
  slug = name;
  category = coordination;
  dependencies = [];
  requires_multi_agent = false;
  conflicts_with = [];
  consumes_skills = false;
  get_hooks = (pre_sense, 1 ∷ []) ∷ [];
}

-- The hook always raises; the third plugin cannot be activated.
abbrev setup_of : List Plugin → Setup
setup_of ps = record {
  runtime = runtime;
  plugins = ps;
  call = λ cb out s. (hook_failed "boom", s);
  on_activate = λ p s. (if p.slug == "third" then some "RuntimeError: no" else none, s);
  on_deactivate = λ p s. (none, s);
  fail_on_hook_error = false;
  fail_on_type_mismatch = false;
  heartbeat = λ n. true;
  describe = λ slug point t. concat slug ": failed";
  is_sense = λ t. true;
  is_reason = λ t. true;
  strategy = λ t. t;
}

unaware : Unaware runtime
unaware = record { blind = λ p c. refl; keeps_override = λ p c. refl }

run_bare_example :
    veil_result (run (setup_of []) context (some "reason"))
    ≡ veil_result (Plain.run runtime (veil context) (some "reason"))
unfolding get
run_bare_example =
    run_bare (setup_of []) context (some "reason") refl unaware refl (omega arith) refl

-- Two failures have been counted before.
abbrev failing : Orch
failing = record {
  run = start_run context;
  hook_errors = (("first", pre_sense), 2) ∷ [];
  beats = 0;
  deactivated = [];
}

third_failure : (run_hooks (setup_of (plugin "first" ∷ [])) pre_sense none failing).0 ≡ some abort
unfolding run_hooks
third_failure = refl

abbrev three_plugins : List Plugin
three_plugins = plugin "first" ∷ plugin "second" ∷ plugin "third" ∷ []

two_deactivated :
    (orchestrate (setup_of three_plugins) context none).deactivated ≡ "first" ∷ "second" ∷ []
unfolding orchestrate
two_deactivated = refl

run_result-Consistent_example :
    let r = run (setup_of three_plugins) context none in
    Consistent r.status r.output r.error r.context_snapshot
run_result-Consistent_example = run_result-Consistent (setup_of three_plugins) context none
