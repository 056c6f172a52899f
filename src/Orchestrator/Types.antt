-- ===== src/Orchestrator/Types.antt =====
-- `PatternOrchestrator`: what it is built from, and what it changes during a run.
use motoro.Prelude.{
  ℕ, String, eq_text, Bool, ◌==◌, Option, none, some, List, [], ◌∷◌, ◌++◌, map, select, Dict, get,
  get_or, put,
}
use motoro.Patterns.Plugin.{execution, eq_category, HookPoint, eq_point, Callable, Plugin}
use motoro.Runtime.Types.{Phase, Output}
use motoro.Runtime.Context.{RunContext, Meta}
use motoro.Runtime.Phase.{Env, RuntimeState}
use motoro.Runtime.Loop.{Run}

pub data HookAction : Type 0 where
  skip_phase retry_phase abort pause : HookAction

-- How the call of a hook ends: with None, an action, a model, a value of another type (its name),
-- an exception (its text) or the timeout.
pub data HookResult : Type 0 where
  nothing timed_out : HookResult
  action : HookAction → HookResult
  model : Output → HookResult
  unexpected failed : String → HookResult

-- A hook gets the phase output and may change all that the runtime keeps.
abbrev pub Hook : Type 0
Hook = Option Output → RuntimeState → HookResult × RuntimeState

-- What a text in "abort_error" tells beside the hook and its point.
pub data Trouble : Type 0 where
  timed_out_once : Trouble
  failed_once : String → Trouble
  timed_out_repeatedly : ℕ → Trouble
  failed_repeatedly : ℕ → String → Trouble
  wrong_model : Output → Option Phase → Trouble
  wrong_type : String → Trouble

-- The arguments of the constructor, and what a run meets outside: the hook functions, the life
-- cycle methods of the plugins (an exception, if they raise), the n-th heartbeat, the formatted
-- messages, and whether a model of another type is the one of the sense or the reason phase.
pub record Setup : Type 0 where
  pub runtime : Env
  pub plugins : List Plugin
  pub call : Callable → Hook
  pub on_activate : Plugin → RuntimeState → Option String × RuntimeState
  pub on_deactivate : Plugin → RuntimeState → Option String × RuntimeState
  pub fail_on_hook_error : Bool
  pub fail_on_type_mismatch : Bool
  pub heartbeat : ℕ → Bool
  pub describe : String → HookPoint → Trouble → String
  pub is_sense : String → Bool
  pub is_reason : String → Bool
  pub strategy : String → String

abbrev pub Pipeline : Type 0
Pipeline = Dict HookPoint (List (String × Callable))

-- setdefault(point, []) and the appends
unfoldable pub add_callables : String → Dict HookPoint (List Callable) → Pipeline → Pipeline
unfolding put get_or
add_callables slug [] hooks = hooks
add_callables slug ((point, callables) ∷ rest) hooks =
    add_callables slug rest
      (put hooks point (get_or hooks point [] ++ map (λ cb. (slug, cb)) callables))

unfoldable pub consolidate : List Plugin → Pipeline → Pipeline
unfolding add_callables
consolidate [] hooks = hooks
consolidate (p ∷ ps) hooks = consolidate ps (add_callables p.slug p.get_hooks hooks)

-- self._hooks.get(point, [])
unfoldable pub hooks_at : Setup → HookPoint → List (String × Callable)
unfolding consolidate get_or
hooks_at setup point = get_or (consolidate setup.plugins []) point []

unfoldable pub load_bearing_slugs : List Plugin → List String
load_bearing_slugs plugins = map (λ p. p.slug) (select (λ p. p.category == execution) plugins)

abbrev pub ErrorKey : Type 0
ErrorKey = String × HookPoint

-- `hook_errors` is `_consecutive_hook_errors`; `beats` counts the heartbeats; `deactivated` are
-- the slugs whose on_deactivate was called.
pub record Orch : Type 0 where
  pub run : Run
  pub hook_errors : Dict ErrorKey ℕ
  pub beats : ℕ
  pub deactivated : List String

abbrev pub context_of : Orch → RunContext
context_of o = o.run.state.context

abbrev pub set_state : RuntimeState → Orch → Orch
set_state s o = record o { run = record o.run { state = s } }

abbrev pub set_context : RunContext → Orch → Orch
set_context c o = set_state (record o.run.state { context = c }) o

-- context.metadata[key] = value
abbrev pub set_meta : String → Meta → Orch → Orch
set_meta key value o =
    let c = context_of o in set_context (record c { metadata = put c.metadata key value }) o

-- context.metadata.setdefault(key, value)
unfoldable pub set_default_meta : String → Meta → Orch → Orch
unfolding get put
set_default_meta key value o = elim (get (context_of o).metadata key) [
  | none ↦ set_meta key value o
  | some old ↦ o
]
