-- ===== src/Orchestrator/Hooks/Tolerance.antt =====
-- What one hook leaves alone, which failures are tolerated, and what the error counters count.
use mathlib.Core.Bool.{false≢true}
use motoro.Prelude.{
  ℕ, ◌+◌, ◌<◌, ◌≤◌, String, eq_text, eq_pair, Bool, true, false, ◌||◌, Option, none, some, List, [],
  ◌∷◌, has, get, get_or, put, remove, get_or-put, get_or-remove, In, ◌==◌, ◌≡◌, ◌≢◌, refl, sym, ap,
  fun_ext, ◌∙◌, ◌⊎◌, ◌↔◌, inl, inr, Bool-cases, if◌then◌else◌, arith,
}
use motoro.Patterns.Plugin.{
  execution, eq_category, category_iff, HookPoint, eq_point, point_iff, Plugin,
}
use motoro.Runtime.Context.{Meta}
use motoro.Orchestrator.Types.{
  abort, HookResult, nothing, timed_out, action, model, unexpected, failed, Setup,
  load_bearing_slugs, ErrorKey, Orch, context_of, set_meta, set_default_meta,
}
use motoro.Orchestrator.Hooks.{Verdict, stop}

-- Only the state of the runtime, the error counters and the count of heartbeats may differ.
abbrev pub Keeps : Orch → Orch → Type 0
Keeps o o' =
    record o' { run = record o.run { state = o'.run.state }; deactivated = o.deactivated } ≡ o'

pub Keeps-trans : (a b c : Orch) → Keeps a b → Keeps b c → Keeps a c
Keeps-trans a b c p q =
    ap
      (λ (o : Orch). record c {
        run = record o.run { state = c.run.state };
        deactivated = o.deactivated;
      })
      p
    ∙ q

-- A hook fails when it raises or runs out of time.
abbrev pub has_failed : HookResult → Bool
has_failed timed_out = true
has_failed (failed e) = true
has_failed (nothing) = false
has_failed (action a) = false
has_failed (model m) = false
has_failed (unexpected n) = false

-- The failures in a row, for each slug at one point, after one more result of a hook of `slug`.
abbrev pub tally : String → Bool → (String → ℕ) → String → ℕ
tally slug failure counts other =
    if slug == other then (if failure then counts other + 1 else 0) else counts other

-- The error counters of a point.
abbrev pub counts : HookPoint → Orch → String → ℕ
counts point o slug = get_or o.hook_errors (slug, point) 0

-- A failure of a hook of this slug is not tolerated at all.
abbrev pub IsStrict : Setup → String → Type 0
IsStrict setup slug =
    (setup.fail_on_hook_error ≡ true)
    ⊎ ((p : Plugin) × (In p setup.plugins × (p.category ≡ execution) × (p.slug ≡ slug)))

-- Why a hook of this slug may abort: it fails and that is not tolerated, or it is the third failure
-- in a row; it asks for it; or it gives a value of a wrong type and these are not tolerated.
abbrev pub AbortCause : Setup → String → HookResult → ℕ → Type 0
AbortCause setup slug timed_out n = IsStrict setup slug ⊎ (3 ≤ n + 1)
AbortCause setup slug (failed e) n = IsStrict setup slug ⊎ (3 ≤ n + 1)
AbortCause setup slug nothing n = ⊥
AbortCause setup slug (action a) n = a ≡ abort
AbortCause setup slug (model m) n = setup.fail_on_type_mismatch ≡ true
AbortCause setup slug (unexpected name) n = setup.fail_on_type_mismatch ≡ true

-- A result that is no cause to abort, as far as it can be told from the result: a failure that is
-- tolerated and not the third in a row, another action than an abort, or a value of another type
-- where these are tolerated.
abbrev pub Harmless : Setup → String → HookResult → ℕ → Type 0
Harmless setup slug timed_out n = (n + 1 < 3) × (¬ IsStrict setup slug)
Harmless setup slug (failed e) n = (n + 1 < 3) × (¬ IsStrict setup slug)
Harmless setup slug nothing n = Unit
Harmless setup slug (action a) n = a ≢ abort
Harmless setup slug (model m) n = Unit
Harmless setup slug (unexpected name) n = setup.fail_on_type_mismatch ≡ false

-- After a hook with this result that does not abort: the counters have followed.
abbrev pub Tallied : Setup → HookPoint → String → HookResult → Orch → Orch → Type 0
Tallied setup point slug result o o' =
    (counts point o' ≡ tally slug (has_failed result) (counts point o))
    × Harmless setup slug result (counts point o slug)

-- After a hook of `slug` with this result, from `o`.
abbrev pub Sound : Setup → HookPoint → String → HookResult → Orch → Verdict × Orch → Type 0
Sound setup point slug result o (v, o') =
    Keeps o o'
    × (((v ≡ stop abort) × AbortCause setup slug result (counts point o slug))
        ⊎ Tallied setup point slug result o o')

key_iff :
    (point : HookPoint) (slug other : String)
    → ◌==◌ {K = ErrorKey} (slug, point) (other, point) ≡ (slug == other)
key_iff point slug other = ground (arith, (point_iff point point).1 refl)

pub counts-put :
    (point : HookPoint) (slug : String) (o : Orch)
    → let n = get_or o.hook_errors (slug, point) 0 + 1 in
      counts point (record o { hook_errors = put o.hook_errors (slug, point) n })
      ≡ tally slug true (counts point o)
counts-put point slug o = fun_ext (λ other.
    get_or-put o.hook_errors (slug, point) (other, point) _ 0
    ∙ rw (key_iff point slug other) (elim (Bool-cases (slug == other)) [
      | inl e ↦ rw (e, (eq_text.equal_iff slug other).0 e) refl
      | inr e ↦ rw e refl
    ]))

pub counts-remove :
    (point : HookPoint) (slug : String) (o : Orch)
    → counts point (record o { hook_errors = remove o.hook_errors (slug, point) })
      ≡ tally slug false (counts point o)
counts-remove point slug o = fun_ext (λ other.
    get_or-remove o.hook_errors (slug, point) (other, point) 0 ∙ rw (key_iff point slug other) refl)

has-load_bearing_slugs :
    (ps : List Plugin) (slug : String)
    → (has (load_bearing_slugs ps) slug ≡ true)
      ↔ ((p : Plugin) × (In p ps × (p.category ≡ execution) × (p.slug ≡ slug)))
unfolding load_bearing_slugs
has-load_bearing_slugs [] slug = (λ h. ground (arith, h), λ (p, (m, c, e)). absurd m)
has-load_bearing_slugs (q ∷ ps) slug = elim (Bool-cases (q.category == execution)) [
  | inl c ↦ (
    λ h. elim (Bool-cases (q.slug == slug)) [
      | inl e ↦ (
        q,
        (inl refl, (category_iff q.category execution).0 c, (eq_text.equal_iff q.slug slug).0 e),
      )
      | inr e ↦
          let (p, (m, d, f)) = (has-load_bearing_slugs ps slug).0 (ground (arith, c, e, h)) in
          (p, (inr m, d, f))
    ],
    λ (p, (m, d, f)). elim m [
      | inl e ↦ ground (arith, c, (eq_text.equal_iff q.slug slug).1 (ap (λ x. x.slug) e ∙ f))
      | inr r ↦ ground (arith, c, (has-load_bearing_slugs ps slug).1 (p, (r, d, f)))
    ],
  )
  | inr c ↦ (
    λ h.
        let (p, (m, d, f)) = (has-load_bearing_slugs ps slug).0 (ground (arith, c, h)) in
        (p, (inr m, d, f)),
    λ (p, (m, d, f)). elim m [
      | inl e ↦
          absurd (
            false≢true (sym c ∙ (category_iff q.category execution).1 (ap (λ x. x.category) e ∙ d)))
      | inr r ↦ ground (arith, c, (has-load_bearing_slugs ps slug).1 (p, (r, d, f)))
    ],
  )
]

pub IsStrict-iff :
    (setup : Setup) (slug : String)
    → ((setup.fail_on_hook_error || has (load_bearing_slugs setup.plugins) slug) ≡ true)
      ↔ IsStrict setup slug
IsStrict-iff setup slug =
    let bearing = has-load_bearing_slugs setup.plugins slug in
    (
      λ h. elim (Bool-cases setup.fail_on_hook_error) [
        | inl e ↦ inl e
        | inr e ↦ inr (bearing.0 (ground (arith, e, h)))
      ],
      λ s. elim s [ inl e ↦ ground (arith, e) | inr p ↦ ground (arith, bearing.1 p) ],
    )

defaulted :
    (key : String) (m : Meta) (o : Orch) (found : Option Meta)
    → Keeps o (elim found [ none ↦ set_meta key m o | some old ↦ o ])
defaulted key m o none = refl
defaulted key m o (some old) = refl

pub set_default_meta-Keeps :
    (key : String) (m : Meta) (o : Orch) → Keeps o (set_default_meta key m o)
unfolding set_default_meta
set_default_meta-Keeps key m o = defaulted key m o (get (context_of o).metadata key)
