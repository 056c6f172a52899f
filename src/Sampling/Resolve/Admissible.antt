-- ===== src/Sampling/Resolve/Admissible.antt =====
-- What a resolved request carries fits what is known of the model.
use motoro.Prelude.{
  ℕ, ◌*◌, ◌≤◌, String, eq_text, true, false, Option, none, some, List, [], ◌∷◌, has, ◌≡◌, ◌⊎◌,
}
use motoro.Sampling.Values.{Float, plus, minus}
use motoro.Sampling.Capabilities.{ModelCapabilities, is_false, levels_or_empty}
use motoro.Sampling.Resolve.Ensures.{Ensures}
use motoro.Sampling.Resolve.{
  SamplingSource, explicit, OmissionReason, Control, ResolvedSampling, sent, left_out, Policy,
}

-- The effort is one that the model may take.
pub Supported : ModelCapabilities → Option String → Type 0
Supported caps none = Unit
Supported caps (some e) =
    (is_false caps.supports_effort ≡ false)
    × (has (levels_or_empty caps.unsupported_effort_levels) e ≡ false)
    × ((levels : List String)
        → caps.effort_levels_complete ≡ true
        → caps.effort_levels ≡ some levels
        → has levels e ≡ true)

-- The temperature may stand beside this effort.
pub Compatible : Option (List String) → Option String → Type 0
Compatible none effort = Unit
Compatible (some []) effort = ⊥
Compatible (some (level ∷ levels)) none = Unit
Compatible (some (level ∷ levels)) (some e) = has (level ∷ levels) e ≡ true

-- A number between 0.0 and 2.0.
pub InRange : ℕ → Float → Type 0
InRange one (plus n) = n ≤ 2 * one
InRange one (minus n) = n ≡ 0
InRange one _ = ⊥

pub Allowed : ℕ → ModelCapabilities → Option String → Option Float → Type 0
Allowed one caps effort none = Unit
Allowed one caps effort (some t) =
    InRange one t
    × (is_false caps.supports_temperature ≡ false)
    × Compatible caps.temperature_effort_levels effort

-- An explicit value is sent as it is; else a default is sent, with its source, or nothing.
pub Origin : {A : Type 0} → SamplingSource → Option A → Control A → Type 0
Origin source (some x) c = c ≡ sent x explicit
Origin {A = A} source none c =
    ((x : A) × (c ≡ sent x source)) ⊎ ((reason : OmissionReason) × (c ≡ left_out reason))

pub Admissible : ℕ → Policy → Option Float → Option String → ResolvedSampling → Type 0
Admissible one p temperature effort r =
    Supported p.caps r.effort.value
    × Allowed one p.caps r.effort.value r.temperature.value
    × Origin p.default_source effort r.effort
    × Origin p.default_source temperature r.temperature

EffortFits : Policy → Option String → Control String → Type 0
EffortFits p effort c = Supported p.caps c.value × Origin p.default_source effort c

TemperatureFits : ℕ → Policy → Option String → Option Float → Control Float → Type 0
TemperatureFits one p effort temperature c =
    Allowed one p.caps effort c.value × Origin p.default_source temperature c

-- What the check of an explicit temperature leaves.
Checked : ℕ → Option Float → Type 0
Checked one none = Unit
Checked one (some t) = InRange one t
