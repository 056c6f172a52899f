-- ===== src/Sampling/Resolve/Total.antt =====
-- Without explicit values, capabilities that validate always resolve.
use motoro.Prelude.{ℕ, String, eq_text, true, false, Option, none, some, ◌≡◌, refl, arith, if-cases}
use motoro.Sampling.Values.{
  Float, plus, minus, nan, infinite, between, isfinite, json_text, json_number,
}
use motoro.Sampling.Capabilities.{
  ModelCapabilities, is_false, levels_or_empty, model_validate, check_range, check_default,
  check_unsupported_effort, check_overlap, default_in, some_text,
}
use motoro.Sampling.Capabilities.Validity.{Valid, Valid-model_validate}
use motoro.Sampling.Resolve.{
  Control, ResolvedSampling, sent, Outcome, returned, Policy, policy, bare_policy, bare,
  check_valid, check_temperature, check_effort, default_usable, is_incompatible, is_uncertain,
  default_control, resolve_effort, default_number, resolve_temperature, resolve, resolve_sampling,
}

-- A result is returned, and `P` holds of it.
Returns : {A : Type 0} → (A → Type 0) → Outcome A → Type 0
Returns {A = A} P o = (a : A) × (o ≡ returned a) × P a

default_control-value :
    (p : Policy) (d : Option String)
    → check_default p.caps d ≡ none
    → default_in d (levels_or_empty p.caps.unsupported_effort_levels) ≡ false
    → (default_control p (json_text d)).value ≡ d
unfolding default_control json_text check_default default_in default_usable
default_control-value p none c n = refl
default_control-value p (some e) c n = ground (arith, c, n)

no_default-unsupported :
    (caps : ModelCapabilities)
    → check_unsupported_effort caps ≡ none
    → is_false caps.supports_effort ≡ true
    → some_text caps.default_effort ≡ false
unfolding check_unsupported_effort
no_default-unsupported caps c s = ground (arith, c, s)

default_in-overlap :
    (caps : ModelCapabilities)
    → check_overlap caps ≡ none
    → default_in caps.default_effort (levels_or_empty caps.unsupported_effort_levels) ≡ false
unfolding check_overlap
default_in-overlap caps c = ground (arith, c)

none-some_text : (d : Option String) → some_text d ≡ false → none ≡ d
unfolding some_text
none-some_text none h = refl
none-some_text (some e) h = ground arith

resolve_effort-Returns :
    (one : ℕ) (caps : ModelCapabilities)
    → Valid one caps
    → Returns (λ c. c.value ≡ caps.default_effort) (resolve_effort (bare_policy caps) none)
unfolding resolve_effort bare_policy Valid Returns
resolve_effort-Returns one caps (_, d, u, o, _) =
    if-cases (Returns (λ c. c.value ≡ caps.default_effort)) (is_false caps.supports_effort) _ _
      (λ s. (_, refl, none-some_text _ (no_default-unsupported caps u s)))
      (λ s. (
        _,
        refl,
        default_control-value (bare_policy caps) caps.default_effort d (default_in-overlap caps o),
      ))

between-isfinite : (one : ℕ) (t : Float) → between one t ≡ true → isfinite t ≡ true
unfolding between isfinite
between-isfinite one nan h = h
between-isfinite one infinite h = h
between-isfinite one (plus n) h = refl
between-isfinite one (minus n) h = refl

default_number-Returns :
    (one : ℕ) (p : Policy) (t : Option Float)
    → check_range one t ≡ none
    → Returns (λ _. Unit) (default_number one p (json_number t))
unfolding default_number json_number check_range Returns
default_number-Returns one p none c = (_, refl, tt)
default_number-Returns one p (some t) c =
    let b : between one t ≡ true = ground (arith, c) in
    (sent t p.default_source, rw (b, between-isfinite one t b), tt)

resolve_temperature-Returns :
    (one : ℕ) (caps : ModelCapabilities) (effort : Option String)
    → Valid one caps
    → Returns (λ _. Unit) (resolve_temperature one (bare_policy caps) effort none)
unfolding resolve_temperature bare_policy Valid Returns
resolve_temperature-Returns one caps effort valid =
    let fine = Returns (λ (_ : Control Float). Unit {0}) in
    if-cases fine (is_false caps.supports_temperature) _ _ (λ _. (_, refl, tt))
      (λ _.
        if-cases fine (is_incompatible caps.temperature_effort_levels effort) _ _
          (λ _. (_, refl, tt))
          (λ _.
            if-cases fine (is_uncertain caps.temperature_effort_levels effort) _ _
              (λ _. (_, refl, tt))
              (λ _.
                default_number-Returns one (bare_policy caps) caps.default_temperature valid.0)))

-- Capabilities that validate resolve without an explicit value, and their default effort is the
-- effort that is sent.
pub resolve_sampling_total :
    (one : ℕ) (caps : ModelCapabilities)
    → model_validate one caps ≡ none
    → (r : ResolvedSampling) × (resolve_sampling one (bare caps) none none ≡ returned r)
      × (r.effort.value ≡ caps.default_effort)
unfolding resolve_sampling resolve policy check_valid check_temperature check_effort Returns
resolve_sampling_total one caps valid =
    let v = Valid-model_validate one caps valid in
    let (e, qe, ve) = resolve_effort-Returns one caps v in
    let (t, qt, _) = resolve_temperature-Returns one caps e.value v in
    (record { temperature = t; effort = e }, rw (valid, qe, qt), ve)
