-- ===== src/Sampling/Resolve/Stable.antt =====
-- Resolution for capabilities that the caller overrides: it settles, and without explicit values
-- it cannot fail.
use motoro.Prelude.{
  ℕ, String, true, false, not, ◌||◌, Option, none, some, ◌≡◌, refl, arith, if-cases, Bool-cases,
  inl, inr,
}
use motoro.Sampling.Values.{Float, between, isfinite, JsonValue, number, text, json_text, is_padded}
use motoro.Sampling.Capabilities.{
  ModelCapabilities, Invalid, is_false, model_validate, check_default,
}
use motoro.Sampling.Capabilities.Validity.{Valid, Valid-model_validate}
use motoro.Sampling.Resolve.Ensures.{Ensures, Ensures-returned, Ensures-bind, Ensures-itself}
use motoro.Sampling.Resolve.{
  explicit, Control, ResolvedSampling, sent, Outcome, returned, Policy, policy, bare_policy, bare,
  check_valid, ◌>>=◌, effort_refused, default_usable, default_control, resolve_effort,
  is_incompatible, is_uncertain, default_number, resolve_temperature, check_temperature,
  check_effort, resolve, resolve_sampling,
}

-- Resolving a control's value again gives that value.
EffortAgain : Policy → Control String → Type 0
EffortAgain p c =
    (check_effort c.value ≡ returned tt)
    × (c' : Control String) × (resolve_effort p c.value ≡ returned c')
    × (c'.value ≡ c.value)

TemperatureAgain : ℕ → Policy → Option String → Control Float → Type 0
TemperatureAgain one p effort c =
    (check_temperature one c.value ≡ returned tt)
    × (c' : Control Float) × (resolve_temperature one p effort c.value ≡ returned c')
    × (c'.value ≡ c.value)

-- A default effort that is a text is not padded.
pub Trim : JsonValue → Type 0
Trim (text e) = is_padded e ≡ false
Trim _ = Unit

effort_refused-default_usable :
    (caps : ModelCapabilities) (e : String)
    → is_false caps.supports_effort ≡ false
    → default_usable caps e ≡ true
    → effort_refused caps e ≡ false
unfolding effort_refused default_usable
effort_refused-default_usable caps e s u = ground arith

EffortAgain-explicit :
    (p : Policy) (e : String)
    → is_padded e ≡ false
    → effort_refused p.caps e ≡ false
    → EffortAgain p (sent e explicit)
unfolding EffortAgain check_effort resolve_effort
EffortAgain-explicit p e h r = (ground (arith, h), sent e explicit, ground (arith, r), refl)

EffortAgain-default :
    (p : Policy) (d : JsonValue)
    → is_false p.caps.supports_effort ≡ false
    → Trim d
    → resolve_effort p none ≡ returned (default_control p d)
    → EffortAgain p (default_control p d)
unfolding EffortAgain Trim default_control check_effort
EffortAgain-default p (text e) s h =
    if-cases (λ c. resolve_effort p none ≡ returned c → EffortAgain p c) (default_usable p.caps e) _
      _ (λ u _. EffortAgain-explicit p e h (effort_refused-default_usable p.caps e s u))
      (λ u q. (refl, _, q, refl))
EffortAgain-default p _ s h = λ q. (refl, _, q, refl)

unpadded : (e : String) → check_effort (some e) ≡ returned tt → is_padded e ≡ false
unfolding check_effort
unpadded e c = ground (arith, c)

resolve_effort-EffortAgain :
    (p : Policy) (effort : Option String)
    → Trim p.default_effort
    → check_effort effort ≡ returned tt
    → Ensures (EffortAgain p) (resolve_effort p effort)
unfolding resolve_effort check_effort EffortAgain
resolve_effort-EffortAgain p (some e) h c =
    if-cases (Ensures (EffortAgain p)) (effort_refused p.caps e) _ _ (λ _. tt)
      (λ r. EffortAgain-explicit p e (unpadded e c) r)
resolve_effort-EffortAgain p none h c =
    if-cases (λ o. resolve_effort p none ≡ o → Ensures (EffortAgain p) o)
      (is_false p.caps.supports_effort) _ _ (λ s q. (refl, _, q, refl))
      (λ s q. EffortAgain-default p p.default_effort s h q) refl

TemperatureAgain-explicit :
    (one : ℕ) (p : Policy) (effort : Option String) (t : Float)
    → check_temperature one (some t) ≡ returned tt
    → is_false p.caps.supports_temperature ≡ false
    → is_incompatible p.caps.temperature_effort_levels effort ≡ false
    → TemperatureAgain one p effort (sent t explicit)
unfolding TemperatureAgain resolve_temperature
TemperatureAgain-explicit one p effort t c s i = (c, sent t explicit, ground (arith, s, i), refl)

default_number-TemperatureAgain :
    (one : ℕ) (p : Policy) (effort : Option String) (d : JsonValue)
    → is_false p.caps.supports_temperature ≡ false
    → is_incompatible p.caps.temperature_effort_levels effort ≡ false
    → resolve_temperature one p effort none ≡ default_number one p d
    → Ensures (TemperatureAgain one p effort) (default_number one p d)
unfolding default_number TemperatureAgain check_temperature
default_number-TemperatureAgain one p effort (number t) s i =
    if-cases
      (λ o. resolve_temperature one p effort none ≡ o → Ensures (TemperatureAgain one p effort) o)
      (not (isfinite t) || not (between one t)) _ _ (λ _ _. tt)
      (λ r q. TemperatureAgain-explicit one p effort t (ground (arith, r)) s i)
default_number-TemperatureAgain one p effort _ s i = λ q. (refl, _, q, refl)

resolve_temperature-TemperatureAgain :
    (one : ℕ) (p : Policy) (effort : Option String) (temperature : Option Float)
    → check_temperature one temperature ≡ returned tt
    → Ensures (TemperatureAgain one p effort) (resolve_temperature one p effort temperature)
unfolding resolve_temperature TemperatureAgain check_temperature
resolve_temperature-TemperatureAgain one p effort (some t) c =
    let again = Ensures (TemperatureAgain one p effort) in
    if-cases again (is_false p.caps.supports_temperature) _ _ (λ _. tt)
      (λ s.
        if-cases again (is_incompatible p.caps.temperature_effort_levels effort) _ _ (λ _. tt)
          (λ i. TemperatureAgain-explicit one p effort t c s i))
resolve_temperature-TemperatureAgain one p effort none c =
    let again = λ (o : Outcome (Control Float)).
      resolve_temperature one p effort none ≡ o → Ensures (TemperatureAgain one p effort) o in
    if-cases again (is_false p.caps.supports_temperature) _ _ (λ _ q. (refl, _, q, refl))
      (λ s.
        if-cases again (is_incompatible p.caps.temperature_effort_levels effort) _ _
          (λ _ q. (refl, _, q, refl))
          (λ i.
            if-cases again (is_uncertain p.caps.temperature_effort_levels effort) _ _
              (λ _ q. (refl, _, q, refl))
              (λ _. default_number-TemperatureAgain one p effort p.default_temperature s i)))
      refl

-- Resolving the values of a result again gives those values.
pub Settled : ℕ → Policy → ResolvedSampling → Type 0
Settled one p r =
    (r' : ResolvedSampling) × (resolve one p r.temperature.value r.effort.value ≡ returned r')
    × (r'.temperature.value ≡ r.temperature.value)
    × (r'.effort.value ≡ r.effort.value)

Settled-again :
    (one : ℕ) (p : Policy) (e : Control String) (t : Control Float)
    → EffortAgain p e
    → TemperatureAgain one p e.value t
    → Settled one p (record { temperature = t; effort = e })
unfolding EffortAgain TemperatureAgain Settled resolve
Settled-again one p e t (ce, e', qe, ve) (ct, t', qt, vt) =
    (record { temperature = t'; effort = e' }, rw (ct, ce, qe, ve, qt), vt, ve)

resolve-Settled :
    (one : ℕ) (p : Policy) (temperature : Option Float) (effort : Option String)
    → Trim p.default_effort
    → Ensures (Settled one p) (resolve one p temperature effort)
unfolding resolve
resolve-Settled one p temperature effort h =
    let goal = Settled one p in
    Ensures-bind goal (λ (b : Unit {0}). check_temperature one temperature ≡ returned b)
      (check_temperature one temperature) _ (Ensures-itself (check_temperature one temperature))
      (λ _ c.
        Ensures-bind goal (λ (b : Unit {0}). check_effort effort ≡ returned b) (check_effort effort)
          _ (Ensures-itself (check_effort effort))
          (λ _ d.
            Ensures-bind goal (EffortAgain p) (resolve_effort p effort) _
              (resolve_effort-EffortAgain p effort h d)
              (λ e a.
                Ensures-bind goal (TemperatureAgain one p e.value)
                  (resolve_temperature one p e.value temperature) _
                  (resolve_temperature-TemperatureAgain one p e.value temperature c)
                  (λ t b. Settled-again one p e t a b))))

check_default-Trim :
    (caps : ModelCapabilities) (d : Option String)
    → check_default caps d ≡ none
    → Trim (json_text d)
unfolding check_default Trim json_text
check_default-Trim caps none h = tt
check_default-Trim caps (some e) h = elim (Bool-cases (is_padded e)) [
  | inl b ↦ ground (arith, b, h)
  | inr b ↦ b
]

-- A resolution that returns has passed validation.
passed :
    (o : Option Invalid) (k : Outcome ResolvedSampling) (r : ResolvedSampling)
    → (check_valid o >>= λ _. k) ≡ returned r
    → (o ≡ none) × (k ≡ returned r)
unfolding check_valid
passed none k r h = (refl, h)
passed (some e) k r h = ground arith

-- Where the caller gives the capabilities, resolving again with the values that a resolution has
-- returned returns the same values.
pub resolve_sampling-Settled :
    (one : ℕ) (caps : ModelCapabilities) (temperature : Option Float) (effort : Option String)
    (r : ResolvedSampling)
    → resolve_sampling one (bare caps) temperature effort ≡ returned r
    → (r' : ResolvedSampling) × (resolve_sampling one (bare caps) r.temperature.value r.effort.value
        ≡ returned r')
      × (r'.temperature.value ≡ r.temperature.value)
      × (r'.effort.value ≡ r.effort.value)
unfolding resolve_sampling policy bare_policy Settled check_valid Valid
resolve_sampling-Settled one caps temperature effort r h =
    let (valid, returns) = passed (model_validate one caps) _ r h in
    let trim =
      check_default-Trim caps caps.default_effort (Valid-model_validate one caps valid).1 in
    let (r', q, v, w) =
      Ensures-returned (Settled one (bare_policy caps)) _ r
        (resolve-Settled one (bare_policy caps) temperature effort trim) returns in
    (r', rw (valid, q), v, w)
