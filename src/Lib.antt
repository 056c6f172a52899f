-- ===== src/Lib.antt =====
-- Motoro is a headless runtime for agents (Python package src/motoro of the repository): plugins
-- called patterns are composed around a loop of four phases, and each run of the loop leaves
-- numbered steps behind. This library models the decision logic of its parts. Paths below are
-- from the repository's root.
--
-- - Runtime (Types, Plan, Context, Calls, Metadata, Phase, Loop): src/motoro/engine/runtime.py
--   with engine/phase.py, engine/context.py, schemas/llm.py, models/run.py, and the names of
--   tools and peers from mcp/adapters.py and engine/agent_channel.py. `run` is AgentRuntime.run
--   from the choice of the first phase on, `execute_phase` is _execute_phase, `check_interrupt`,
--   `check_resource_limits` and `validate_plan_tools` are the functions of these names. What the
--   loop meets outside (phases, commits, events, limit checker, working memory) is the record
--   `Env`; exceptions are values of `Outcome`. Calls has the stored JSON of a step's tool calls
--   with `flatten_tool_call_records`, and Metadata the `run_metadata` of a result, up to the
--   order of its keys. Preparing the context before the loop, the episode stored after it,
--   tracing and metrics are not modelled.
-- - Orchestrator (Types, Hooks, Abort, Sequence, Loop, Lifecycle):
--   src/motoro/engine/patterns/orchestrator.py. `run` is PatternOrchestrator.run from the
--   activation of the plugins on, `run_hooks`, `get_phase_sequence` and `resolve_abort` are the
--   methods and the function of these names; the phases are executed by the Runtime modules. The
--   record `Setup` holds the arguments of the constructor and what a run meets outside: the hook
--   functions, which read the phase output and may change all that the runtime keeps, the life
--   cycle methods, the heartbeat and the wording of messages. Preparing the context, the skills
--   put into the prompt, what follows the deactivation of the plugins, and the plugins that
--   from_pattern_config makes are not modelled.
-- - Patterns (Plugin, Conflicts, Hooks, Dependencies, Cycle, Resolution, Composition):
--   src/motoro/engine/patterns/base.py and composition.py, that is validate_composition with
--   detect_conflicts, build_ordered_hooks, resolve_dependencies and _detect_cycle, and
--   collect_missing_dependencies; Resolution has also the resolution of dependencies of
--   from_pattern_config in orchestrator.py. The recursion of `check_transitive` takes fuel: one
--   more than the active slugs, since each deeper call visits another of them;
--   `collect_missing_dependencies` takes one more than the active slugs and all dependencies of
--   the graph; `detect_cycle` gives its search and its climb one more than the slugs, and `none`
--   says that this ran out.
-- - Memory (Entries, Strategy, System): src/motoro/memory/working.py. `run_strategy` is the body
--   of _apply_strategy as one function; `advance` is add_entry with _apply_strategy,
--   _acquire_lock and _release_lock as single steps, one for each command to Redis, and `play`
--   an interleaving of the steps of many calls, each with a manager and a token of its own, and
--   of the end of the lock's time to live. The summarizer and the encoder are arguments, and
--   commands to Redis do not fail; cleanup and the JSON of an entry are not modelled.
-- - Sampling (Values, Capabilities, Resolve): src/motoro/services/sampling.py,
--   services/model_capabilities.py and the model types of services/provider_types.py.
--   `model_validate` is the validator of ModelCapabilities, `resolve_sampling` the function of
--   this name. A float is a whole number of its smallest steps, `one` of which make 1.0, or an
--   infinity or NaN.
-- - Retry: src/motoro/services/retry.py, both of its functions. The outcomes of the calls and
--   the jitter are arguments; a time is a whole number of a unit of which the base delay is an
--   even number.
-- - Guard: src/motoro/security/ssrf_guard.py. `validate_outbound_url` gives the error, if any;
--   the parsers of URLs and addresses and the resolver are the record `Net`.
-- - Commands: src/motoro/security/mcp_command_allowlist.py, with shlex.split as an argument.
-- - RunConfig: src/motoro/services/run_config.py, effective_agent_config up to the validation of
--   its result. The truth of a value and the validation of the model's settings are arguments.
--
-- A Python set or dict is a list of its entries; where Python leaves an order open, the list
-- stands for one that it may have. Messages are the data that they are made of. Numbers are
-- unbounded as in Python, and costs whole numbers of a unit. Prelude holds the shared tests,
-- lists, dictionaries and sorting. Modules called Examples apply the theorems to concrete
-- inputs.
pub mod Commands
pub mod Guard
pub mod Memory
pub mod Orchestrator
pub mod Patterns
pub mod Prelude
pub mod Retry
pub mod RunConfig
pub mod Runtime
pub mod Sampling
