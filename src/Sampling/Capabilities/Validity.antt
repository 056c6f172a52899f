-- ===== src/Sampling/Capabilities/Validity.antt =====
-- What a validated `ModelCapabilities` satisfies.
use motoro.Prelude.{ℕ, Option, none, some, ◌≡◌, refl, arith}
use motoro.Sampling.Capabilities.{
  ModelCapabilities, Invalid, ◌or_else◌, model_validate, check_range, check_levels, check_default,
  check_unsupported_effort, check_overlap, check_support, check_combination,
}

or_else-none : (p q : Option Invalid) → (p or_else q) ≡ none → (p ≡ none) × (q ≡ none)
or_else-none none q h = (refl, h)
or_else-none (some e) q h = ground arith

-- What validation has made sure of.
unfoldable pub Valid : ℕ → ModelCapabilities → Type 0
Valid one caps =
    (check_range one caps.default_temperature ≡ none)
    × (check_default caps caps.default_effort ≡ none)
    × (check_unsupported_effort caps ≡ none)
    × (check_overlap caps ≡ none)
    × (check_support caps ≡ none)

pub Valid-model_validate :
    (one : ℕ) (caps : ModelCapabilities) → model_validate one caps ≡ none → Valid one caps
unfolding model_validate Valid
Valid-model_validate one caps h =
    let (r, h1) = or_else-none _ _ h in
    let (_, h2) = or_else-none (check_levels caps.effort_levels) _ h1 in
    let (_, h3) = or_else-none (check_levels caps.temperature_effort_levels) _ h2 in
    let (_, h4) = or_else-none (check_levels caps.unsupported_effort_levels) _ h3 in
    let (d, h5) = or_else-none _ _ h4 in
    let (u, h6) = or_else-none _ _ h5 in
    let (o, h7) = or_else-none _ _ h6 in
    (r, d, u, o, (or_else-none _ (check_combination caps caps.temperature_effort_levels) h7).0)
