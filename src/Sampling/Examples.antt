-- ===== src/Sampling/Examples.antt =====
-- Resolutions for a concrete model.
use motoro.Prelude.{true, none, some, [], ◌∷◌, ◌≡◌, refl}
use motoro.Sampling.Values.{plus}
use motoro.Sampling.Capabilities.{
  ModelCapabilities, model_validate, provider, catalog, ModelInfo, unknown,
}
use motoro.Sampling.Values.{null, text}
use motoro.Sampling.Resolve.{
  ResolvedSampling, sent, left_out, explicit, capability_override, advertised_default,
  unknown_support, unsupported_effort, returned, raised, bare, discovered, resolve_sampling,
}
use motoro.Sampling.Resolve.Admissible.{Admissible}
use motoro.Sampling.Resolve.Stable.{resolve_sampling-Settled}
use motoro.Sampling.Resolve.Total.{resolve_sampling_total}

-- Temperature goes with the low effort only.
abbrev thinker : ModelCapabilities
thinker = record {
  supports_temperature = some true;
  supports_effort = some true;
  default_temperature = none;
  effort_levels = some ("low" ∷ "high" ∷ []);
  effort_levels_complete = true;
  unsupported_effort_levels = none;
  default_effort = some "low";
  temperature_effort_levels = some ("low" ∷ []);
}

-- A temperature of 0.7, in tenths, with the default effort.
abbrev warm : ResolvedSampling
warm = record { temperature = sent (plus 7) explicit; effort = sent "low" capability_override }

stays_warm : resolve_sampling 10 (bare thinker) (some (plus 7)) none ≡ returned warm
unfolding resolve_sampling
stays_warm = refl

refuses_medium :
    resolve_sampling 10 (bare thinker) none (some "medium") ≡ raised (unsupported_effort "medium")
unfolding resolve_sampling
refuses_medium = refl

passes_validation : model_validate 10 thinker ≡ none
unfolding model_validate
passes_validation = refl

-- The provider only vouches for the effort levels and for the default effort.
abbrev found : ModelInfo
found = record {
  capabilities = thinker;
  capability_sources = ("effort_levels", provider) ∷ ("temperature_effort_levels", catalog) ∷ [];
  defaults = record {
    temperature = record { value = null; source = unknown };
    effort = record { value = text "high"; source = provider };
    additional = [];
  };
}

advertised :
    resolve_sampling 10 (discovered found) none none
    ≡ returned
        (record { temperature = left_out unknown_support; effort = sent "high" advertised_default })
unfolding resolve_sampling
advertised = refl

resolve_sampling-Settled_example :
    (r : ResolvedSampling) × (resolve_sampling 10 (bare thinker) (some (plus 7)) (some "low")
      ≡ returned r)
    × (r.temperature.value ≡ some (plus 7))
    × (r.effort.value ≡ some "low")
resolve_sampling-Settled_example =
    resolve_sampling-Settled 10 thinker (some (plus 7)) none warm stays_warm

resolve_sampling_total_example :
    (r : ResolvedSampling) × (resolve_sampling 10 (bare thinker) none none ≡ returned r)
    × (r.effort.value ≡ some "low")
resolve_sampling_total_example = resolve_sampling_total 10 thinker passes_validation
