-- ===== src/Sampling/Capabilities.antt =====
-- `ModelCapabilities` of services/model_capabilities.py with its validator, and `ModelInfo` of
-- services/provider_types.py.
pub mod Validity
use motoro.Prelude.{
  ℕ, String, eq_text, Bool, true, false, not, ◌==◌, ◌&&◌, ◌||◌, Option, none, some, List, [], ◌∷◌,
  any, all, has, if◌then◌else◌, Dict, get,
}
use motoro.Sampling.Values.{Float, between, JsonValue, null, is_padded}

pub record ModelCapabilities : Type 0 where
  pub supports_temperature : Option Bool
  pub supports_effort : Option Bool
  pub default_temperature : Option Float
  pub effort_levels : Option (List String)
  pub effort_levels_complete : Bool
  pub unsupported_effort_levels : Option (List String)
  pub default_effort : Option String
  pub temperature_effort_levels : Option (List String)

-- What validation refuses, one case for each message.
pub data Invalid : Type 0 where
  temperature_out_of_range padded_levels repeated_levels padded_default unlisted_default : Invalid
  unsupported_metadata overlapping_levels default_unsupported no_levels : Invalid
  temperature_contradicts combination_contradicts combination_unlisted : Invalid

-- The first of two checks that finds something; `None` lets the next one run.
infixr 20 ◌or_else◌
abbrev pub ◌or_else◌ : Option Invalid → Option Invalid → Option Invalid
none or_else q = q
(some e) or_else q = some e

abbrev pub refuse : Bool → Invalid → Option Invalid
refuse true e = some e
refuse false e = none

-- x is True, x is False
abbrev pub is_true : Option Bool → Bool
is_true none = false
is_true (some b) = b

abbrev pub is_false : Option Bool → Bool
is_false none = false
is_false (some b) = not b

-- levels or []
abbrev pub levels_or_empty : Option (List String) → List String
levels_or_empty none = []
levels_or_empty (some levels) = levels

-- levels is not None and effort not in levels
abbrev pub unlisted : Option (List String) → String → Bool
unlisted none effort = false
unlisted (some levels) effort = not (has levels effort)

-- len(set(levels)) != len(levels)
unfoldable pub repeats : List String → Bool
repeats [] = false
repeats (level ∷ levels) = has levels level || repeats levels

unfoldable pub check_levels : Option (List String) → Option Invalid
unfolding repeats is_padded
check_levels none = none
check_levels (some levels) =
    refuse (any (λ level. is_padded level) levels) padded_levels
    or_else (refuse (repeats levels) repeated_levels)

unfoldable pub check_default : ModelCapabilities → Option String → Option Invalid
unfolding is_padded
check_default caps none = none
check_default caps (some effort) =
    refuse (is_padded effort) padded_default
    or_else (refuse (caps.effort_levels_complete && unlisted caps.effort_levels effort)
        unlisted_default)

unfoldable pub some_text : Option String → Bool
some_text none = false
some_text (some s) = true

unfoldable pub nonempty : List String → Bool
nonempty [] = false
nonempty (x ∷ xs) = true

unfoldable pub check_unsupported_effort : ModelCapabilities → Option Invalid
unfolding some_text nonempty
check_unsupported_effort caps =
    refuse
      (is_false caps.supports_effort
        && (nonempty (levels_or_empty caps.effort_levels) || some_text caps.default_effort))
      unsupported_metadata

unfoldable pub default_in : Option String → List String → Bool
default_in none levels = false
default_in (some effort) levels = has levels effort

unfoldable pub check_overlap : ModelCapabilities → Option Invalid
unfolding default_in
check_overlap caps =
    let unsupported = levels_or_empty caps.unsupported_effort_levels in
    refuse (any (has (levels_or_empty caps.effort_levels)) unsupported) overlapping_levels
    or_else (refuse (default_in caps.default_effort unsupported) default_unsupported)

unfoldable pub empty_list : Option (List String) → Bool
empty_list (some []) = true
empty_list _ = false

unfoldable pub some_float : Option Float → Bool
some_float none = false
some_float (some x) = true

unfoldable pub check_support : ModelCapabilities → Option Invalid
unfolding empty_list some_float
check_support caps =
    refuse (is_true caps.supports_effort && empty_list caps.effort_levels) no_levels
    or_else (refuse (some_float caps.default_temperature && is_false caps.supports_temperature)
        temperature_contradicts)

unfoldable pub check_combination : ModelCapabilities → Option (List String) → Option Invalid
check_combination caps none = none
check_combination caps (some allowed) =
    refuse (is_false caps.supports_temperature || is_false caps.supports_effort)
      combination_contradicts
    or_else (refuse (caps.effort_levels_complete && any (unlisted caps.effort_levels) allowed)
        combination_unlisted)

-- Field(ge=0.0, le=2.0, allow_inf_nan=False)
unfoldable pub check_range : ℕ → Option Float → Option Invalid
unfolding between
check_range one none = none
check_range one (some x) = refuse (not (between one x)) temperature_out_of_range

-- What `ModelCapabilities.model_validate` raises, if anything.
unfoldable pub model_validate : ℕ → ModelCapabilities → Option Invalid
unfolding check_range check_levels check_default check_unsupported_effort check_overlap
    check_support check_combination
model_validate one caps =
    check_range one caps.default_temperature
    or_else check_levels caps.effort_levels
    or_else check_levels caps.temperature_effort_levels
    or_else check_levels caps.unsupported_effort_levels
    or_else check_default caps caps.default_effort
    or_else check_unsupported_effort caps
    or_else check_overlap caps
    or_else check_support caps
    or_else check_combination caps caps.temperature_effort_levels

pub data Provenance : Type 0 where
  provider catalog unknown : Provenance

abbrev pub from_provider : Provenance → Bool
from_provider provider = true
from_provider _ = false

pub record DefaultValue : Type 0 where
  pub value : JsonValue
  pub source : Provenance

pub record ModelDefaults : Type 0 where
  pub temperature : DefaultValue
  pub effort : DefaultValue
  pub additional : Dict String DefaultValue

-- The name and the label of a model play no part here.
pub record ModelInfo : Type 0 where
  pub capabilities : ModelCapabilities
  pub capability_sources : Dict String Provenance
  pub defaults : ModelDefaults

sourced : Option Provenance → Bool
sourced none = false
sourced (some p) = from_provider p

-- The value of a field that the provider is the source of, or else the field's default.
kept : {A : Type 0} → Dict String Provenance → String → A → A → A
unfolding sourced get
kept sources name value otherwise = if sourced (get sources name) then value else otherwise

unfoldable pub provider_facts : ModelInfo → ModelCapabilities
unfolding kept sourced get
provider_facts info =
    let caps = info.capabilities in
    let sources = info.capability_sources in
    record {
      supports_temperature = kept sources "supports_temperature" caps.supports_temperature none;
      supports_effort = kept sources "supports_effort" caps.supports_effort none;
      default_temperature = kept sources "default_temperature" caps.default_temperature none;
      effort_levels = kept sources "effort_levels" caps.effort_levels none;
      effort_levels_complete =
          kept sources "effort_levels_complete" caps.effort_levels_complete true;
      unsupported_effort_levels =
          kept sources "unsupported_effort_levels" caps.unsupported_effort_levels none;
      default_effort = kept sources "default_effort" caps.default_effort none;
      temperature_effort_levels =
          kept sources "temperature_effort_levels" caps.temperature_effort_levels none;
    }
