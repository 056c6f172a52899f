-- ===== src/RunConfig.antt =====
-- services/run_config.py: the settings a run executes with.
pub mod Fields
mod Examples
use motoro.Prelude.{
  String, eq_text, Bool, true, false, not, ◌==◌, ◌&&◌, Option, none, some, List, [], ◌∷◌, Dict, get,
  get_or, put, if◌then◌else◌,
}

-- A setting: null, an object, or some other value. What stands inside an object is opaque here.
pub data Setting (V : Type 0) : Type 0 where
  null : Setting V
  object : Dict String V → Setting V
  plain : V → Setting V

-- The rows that are read. The attributes of the agent are found by name; a run without a
-- snapshot or without overrides has the empty object for them.
pub record Rows (V : Type 0) : Type 0 where
  pub config_snapshot : Dict String (Setting V)
  pub agent : String → Setting V
  pub pattern_overrides : Dict String V
  pub model_config_overrides : Dict String V

-- _AGENT_FIELDS: the public key and the agent's attribute.
abbrev pub agent_fields : Dict String String
agent_fields =
    ("name", "name")
    ∷ ("goal", "goal")
    ∷ ("description", "description")
    ∷ ("system_prompt", "system_prompt")
    ∷ ("model_config", "model_config_data")
    ∷ ("pattern_config", "pattern_config")
    ∷ ("skill_config", "skill_config")
    ∷ ("output_contract", "output_contract")
    ∷ ("memory_config", "memory_config_data")
    ∷ ("budget_limit_usd", "budget_limit_usd")
    ∷ ("max_run_duration_seconds", "max_run_duration_seconds")
    ∷ []

module _ {V : Type 0} where
  -- snapshot[key] if key in snapshot else getattr(run.agent, attr)
  unfoldable pub pinned_or_own : Option (Setting V) → Setting V → Setting V
  pinned_or_own none own = own
  pinned_or_own (some pinned) own = pinned

  unfoldable pub collect :
      Dict String (Setting V) → (String → Setting V) → Dict String String → Dict String (Setting V)
  unfolding pinned_or_own get
  collect snapshot agent [] = []
  collect snapshot agent ((key, attr) ∷ fields) =
      (key, pinned_or_own (get snapshot key) (agent attr)) ∷ collect snapshot agent fields

  -- {**d, **overrides}
  unfoldable pub merge : Dict String V → Dict String V → Dict String V
  unfolding put
  merge d [] = d
  merge d ((key, v) ∷ overrides) = merge (put d key v) overrides

  -- apply_run_overrides and "pattern_config" not in snapshot and run.pattern_overrides
  unfoldable pub pattern_setting : Bool → Option (Setting V) → Dict String V → Setting V → Setting V
  pattern_setting true none (entry ∷ overrides) own = object (entry ∷ overrides)
  pattern_setting _ _ _ own = own

  -- The Boolean of a value.
  module _ (truthy : V → Bool) where
    -- data["memory_config"] or {}
    unfoldable pub or_empty : Setting V → Setting V
    or_empty null = object []
    or_empty (object d) = object d
    or_empty (plain v) = if truthy v then plain v else object []

    -- (data["model_config"] or {}) as a mapping: `none` where ** raises.
    unfoldable pub mapping : Setting V → Option (Dict String V)
    mapping null = some []
    mapping (object d) = some d
    mapping (plain v) = if truthy v then none else some []

    -- The validation of `ModelConfig` is a parameter; it may refuse.
    unfoldable pub model_setting :
        (Dict String V → Option V) → Option (Dict String V) → Dict String V → Option (Setting V)
    unfolding merge
    model_setting model_validate none overrides = none
    model_setting model_validate (some d) overrides = elim (model_validate (merge d overrides)) [
      | none ↦ none
      | some m ↦ some (plain m)
    ]

    unfoldable pub finish :
        Dict String (Setting V) → Option (Setting V) → Option (Dict String (Setting V))
    unfolding or_empty put get_or
    finish settings none = none
    finish settings (some model) =
        let with_model = put settings "model_config" model in
        some (put with_model "memory_config" (or_empty (get_or with_model "memory_config" null)))

    -- What `AgentExecutionConfig` is validated from, or `none` where a step before raises.
    unfoldable pub effective_agent_config :
        (Dict String V → Option V) → Rows V → Bool → Option (Dict String (Setting V))
    unfolding collect pattern_setting mapping model_setting finish put get get_or
    effective_agent_config model_validate run apply_run_overrides =
        let snapshot = run.config_snapshot in
        let collected = collect snapshot run.agent agent_fields in
        let settings = put collected "pattern_config" (
          pattern_setting apply_run_overrides (get snapshot "pattern_config") run.pattern_overrides
            (get_or collected "pattern_config" null)) in
        let overrides = if apply_run_overrides then run.model_config_overrides else [] in
        finish settings
          (model_setting model_validate (mapping (get_or settings "model_config" null)) overrides)
