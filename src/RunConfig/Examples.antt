-- ===== src/RunConfig/Examples.antt =====
-- A run that pins a null goal, and overrides the pattern and a part of the model.
use motoro.Prelude.{
  ℕ, String, eq_text, Bool, true, ◌==◌, Option, none, some, [], ◌∷◌, Dict, length, ltb, ◌≡◌, refl,
  if◌then◌else◌,
}
use motoro.RunConfig.{Setting, null, object, plain, Rows, effective_agent_config}
use motoro.RunConfig.Fields.{Effective, effective_agent_config-Effective}

abbrev positive : ℕ → Bool
positive n = ltb 0 n

-- A model with as many settings as the number says.
abbrev count_settings : Dict String ℕ → Option ℕ
count_settings d = if ltb (length d) 3 then some (length d) else none

abbrev own_settings : String → Setting ℕ
own_settings attr =
    if attr == "model_config_data"
    then object (("model", 1) ∷ [])
    else if attr == "memory_config_data"
    then null
    else plain 5

abbrev pinned_run : Rows ℕ
pinned_run = record {
  config_snapshot = ("goal", null) ∷ [];
  agent = own_settings;
  pattern_overrides = ("slug", 9) ∷ [];
  model_config_overrides = ("model", 2) ∷ ("effort", 3) ∷ [];
}

abbrev settled : Dict String (Setting ℕ)
settled =
    ("name", plain 5)
    ∷ ("goal", null)
    ∷ ("description", plain 5)
    ∷ ("system_prompt", plain 5)
    ∷ ("model_config", plain 2)
    ∷ ("pattern_config", object (("slug", 9) ∷ []))
    ∷ ("skill_config", plain 5)
    ∷ ("output_contract", plain 5)
    ∷ ("memory_config", object [])
    ∷ ("budget_limit_usd", plain 5)
    ∷ ("max_run_duration_seconds", plain 5)
    ∷ []

settles : effective_agent_config positive count_settings pinned_run true ≡ some settled
unfolding effective_agent_config
settles = refl

effective_agent_config-Effective_example : Effective positive count_settings pinned_run true settled
effective_agent_config-Effective_example =
    effective_agent_config-Effective positive count_settings pinned_run true settled settles
