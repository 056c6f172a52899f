-- ===== src/Sampling/Resolve.antt =====
-- `resolve_sampling` of services/sampling.py.
mod Ensures
pub mod Admissible
pub mod Stable
pub mod Total
use motoro.Prelude.{
  ℕ, String, eq_text, Bool, true, false, not, ◌&&◌, ◌||◌, Option, none, some, List, [], ◌∷◌, has,
  if◌then◌else◌, get,
}
use motoro.Sampling.Values.{
  Float, isfinite, between, JsonValue, boolean, number, text, json_text, json_number, is_padded,
}
use motoro.Sampling.Capabilities.{
  ModelCapabilities, Invalid, model_validate, is_true, is_false, levels_or_empty, unlisted,
  from_provider, DefaultValue, ModelInfo, provider_facts,
}

pub data SamplingSource : Type 0 where
  explicit advertised_default capability_override omitted : SamplingSource

pub data OmissionReason : Type 0 where
  unsupported unknown_support unadvertised_default incompatible_effort unknown_effort :
      OmissionReason

-- The exceptions; a message is the value that it names.
pub data SamplingError : Type 0 where
  validation_error : Invalid → SamplingError
  invalid_temperature unsupported_temperature : Float → SamplingError
  invalid_effort unsupported_effort : String → SamplingError
  combination_error : Option String → SamplingError
  invalid_advertised_temperature : SamplingError

pub data Outcome {ℓ} (A : Type ℓ) : Type ℓ where
  returned : A → Outcome A
  raised : SamplingError → Outcome A

infixl 5 ◌>>=◌
abbrev pub ◌>>=◌ : {A B : Type 0} → Outcome A → (A → Outcome B) → Outcome B
(returned a) >>= k = k a
(raised e) >>= k = raised e

-- A control's value with its source, and why it is omitted.
pub record Control (A : Type 0) : Type 0 where
  pub value : Option A
  pub source : SamplingSource
  pub reason : Option OmissionReason

pub record ResolvedSampling : Type 0 where
  pub temperature : Control Float
  pub effort : Control String

abbrev pub sent : {A : Type 0} → A → SamplingSource → Control A
sent value source = record { value = some value; source = source; reason = none }

abbrev pub left_out : {A : Type 0} → OmissionReason → Control A
left_out reason = record { value = none; source = omitted; reason = some reason }

-- What resolution goes by, whichever of the two kinds of capabilities was given.
pub record Policy : Type 0 where
  pub caps : ModelCapabilities
  pub default_effort : JsonValue
  pub default_temperature : JsonValue
  pub default_source : SamplingSource

pub data Given : Type 0 where
  bare : ModelCapabilities → Given
  discovered : ModelInfo → Given

-- enabled is not None and enabled.source == "provider" and enabled.value is False
disabled : Option DefaultValue → Bool
disabled none = false
disabled (some d) = from_provider d.source && elim d.value [ boolean false ↦ true | _ ↦ false ]

abbrev pub provided : DefaultValue → JsonValue → JsonValue
provided d otherwise = if from_provider d.source then d.value else otherwise

unfoldable pub info_policy : ModelInfo → Policy
unfolding provider_facts json_text json_number disabled get
info_policy info =
    let caps = provider_facts info in
    record {
      caps = caps;
      default_effort =
          if disabled (get info.defaults.additional "reasoning.default_enabled")
          then json_text none
          else provided info.defaults.effort (json_text caps.default_effort);
      default_temperature =
          provided info.defaults.temperature (json_number caps.default_temperature);
      default_source = advertised_default;
    }

unfoldable pub bare_policy : ModelCapabilities → Policy
unfolding json_text json_number
bare_policy caps = record {
  caps = caps;
  default_effort = json_text caps.default_effort;
  default_temperature = json_number caps.default_temperature;
  default_source = capability_override;
}

unfoldable pub policy : Given → Policy
unfolding info_policy bare_policy
policy (bare caps) = bare_policy caps
policy (discovered info) = info_policy info

unfoldable pub check_valid : Option Invalid → Outcome (Unit {0})
check_valid none = returned tt
check_valid (some e) = raised (validation_error e)

unfoldable pub check_temperature : ℕ → Option Float → Outcome (Unit {0})
unfolding isfinite between
check_temperature one none = returned tt
check_temperature one (some t) =
    if not (isfinite t) || not (between one t) then raised (invalid_temperature t) else returned tt

unfoldable pub check_effort : Option String → Outcome (Unit {0})
unfolding is_padded
check_effort none = returned tt
check_effort (some e) = if is_padded e then raised (invalid_effort e) else returned tt

-- The explicit effort contradicts what is known.
unfoldable pub effort_refused : ModelCapabilities → String → Bool
effort_refused caps e =
    is_false caps.supports_effort
    || has (levels_or_empty caps.unsupported_effort_levels) e
    || (caps.effort_levels_complete && unlisted caps.effort_levels e)

unfoldable pub default_usable : ModelCapabilities → String → Bool
default_usable caps e =
    not (caps.effort_levels_complete && unlisted caps.effort_levels e)
    && not (has (levels_or_empty caps.unsupported_effort_levels) e)

no_default : Option Bool → OmissionReason
no_default supported = if is_true supported then unadvertised_default else unknown_support

unfoldable pub default_control : Policy → JsonValue → Control String
unfolding default_usable no_default
default_control p (text e) =
    if default_usable p.caps e
    then sent e p.default_source
    else left_out (no_default p.caps.supports_effort)
default_control p _ = left_out (no_default p.caps.supports_effort)

unfoldable pub resolve_effort : Policy → Option String → Outcome (Control String)
unfolding effort_refused default_control
resolve_effort p (some e) =
    if effort_refused p.caps e then raised (unsupported_effort e) else returned (sent e explicit)
resolve_effort p none =
    if is_false p.caps.supports_effort
    then returned (left_out unsupported)
    else returned (default_control p p.default_effort)

unfoldable pub is_incompatible : Option (List String) → Option String → Bool
is_incompatible none effort = false
is_incompatible (some []) effort = true
is_incompatible (some (level ∷ levels)) none = false
is_incompatible (some (level ∷ levels)) (some e) = not (has (level ∷ levels) e)

unfoldable pub is_uncertain : Option (List String) → Option String → Bool
is_uncertain none effort = false
is_uncertain (some levels) none = true
is_uncertain (some levels) (some e) = false

unfoldable pub default_number : ℕ → Policy → JsonValue → Outcome (Control Float)
unfolding isfinite between no_default
default_number one p (number t) =
    if not (isfinite t) || not (between one t)
    then raised invalid_advertised_temperature
    else returned (sent t p.default_source)
default_number one p _ = returned (left_out (no_default p.caps.supports_temperature))

unfoldable pub resolve_temperature :
    ℕ → Policy → Option String → Option Float → Outcome (Control Float)
unfolding is_incompatible is_uncertain default_number
resolve_temperature one p effort (some t) =
    if is_false p.caps.supports_temperature
    then raised (unsupported_temperature t)
    else if is_incompatible p.caps.temperature_effort_levels effort
    then raised (combination_error effort)
    else returned (sent t explicit)
resolve_temperature one p effort none =
    if is_false p.caps.supports_temperature
    then returned (left_out unsupported)
    else if is_incompatible p.caps.temperature_effort_levels effort
    then returned (left_out incompatible_effort)
    else if is_uncertain p.caps.temperature_effort_levels effort
    then returned (left_out unknown_effort)
    else default_number one p p.default_temperature

unfoldable pub resolve : ℕ → Policy → Option Float → Option String → Outcome ResolvedSampling
unfolding check_temperature check_effort resolve_effort resolve_temperature
resolve one p temperature effort = do
  _ ← check_temperature one temperature
  _ ← check_effort effort
  e ← resolve_effort p effort
  t ← resolve_temperature one p e.value temperature
  returned (record { temperature = t; effort = e })

unfoldable pub resolve_sampling :
    ℕ → Given → Option Float → Option String → Outcome ResolvedSampling
unfolding check_valid model_validate policy resolve
resolve_sampling one given temperature effort = do
  _ ← check_valid (model_validate one (policy given).caps)
  resolve one (policy given) temperature effort
