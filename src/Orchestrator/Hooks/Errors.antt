-- ===== src/Orchestrator/Hooks/Errors.antt =====
-- When a run of hooks aborts, and what it counts.
use mathlib.Core.Bool.{false≢true}
use motoro.Prelude.{
  ℕ, ◌+◌, ◌<◌, ◌≤◌, leb, leb→le, String, eq_text, eq_pair, true, false, ◌||◌, Option, none, some,
  List, [], ◌∷◌, Dict, has, get_or, put, ◌≡◌, refl, sym, ap, subst, ◌∙◌, ◌⊎◌, inl, inr, if-cases,
  arith,
}
use motoro.Patterns.Plugin.{eq_category, HookPoint, eq_point, Callable}
use motoro.Runtime.Types.{Phase, Output}
use motoro.Orchestrator.Types.{
  HookAction, skip_phase, retry_phase, pause, abort, HookResult, nothing, timed_out, action, model,
  unexpected, failed, Trouble, timed_out_once, timed_out_repeatedly, failed_once, failed_repeatedly,
  wrong_type, Setup, hooks_at, load_bearing_slugs, ErrorKey, Orch, context_of, set_state,
}
use motoro.Orchestrator.Hooks.{
  Verdict, go_on, stop, max_consecutive_hook_errors, abort_with, hook_trouble, modify_output, fits,
  hook_model, reset_errors, after_hook, run_hook, then_hooks, run_each, run_hooks,
}
use motoro.Orchestrator.Hooks.Tolerance.{
  Keeps, Keeps-trans, has_failed, tally, counts, IsStrict, AbortCause, Harmless, Sound, counts-put,
  counts-remove, IsStrict-iff, set_default_meta-Keeps,
}

module _ (setup : Setup) (point : HookPoint) (slug : String) where
  abort_with-Sound :
      (result : HookResult) (t : Trouble) (o o' : Orch)
      → AbortCause setup slug result (counts point o slug)
      → Keeps o o'
      → Sound setup point slug result o (abort_with setup point slug t o')
  unfolding abort_with
  abort_with-Sound result t o o' cause k = (
    ap
        (λ (x : Orch). record x {
          run = record x.run { state = (abort_with setup point slug t o').1.run.state };
        })
        k,
    inl (refl, cause),
  )

  hook_trouble-Sound :
      (result : HookResult) (out : Option Output) (once : Trouble) (again : ℕ → Trouble) (o : Orch)
      → has_failed result ≡ true
      → (IsStrict setup slug ⊎ (3 ≤ counts point o slug + 1)
          → AbortCause setup slug result (counts point o slug))
      → ((counts point o slug + 1 < 3) × (¬ IsStrict setup slug)
          → Harmless setup slug result (counts point o slug))
      → Sound setup point slug result o (hook_trouble setup point slug out once again o)
  unfolding hook_trouble max_consecutive_hook_errors
  hook_trouble-Sound result out once again o failure cause harmless =
      let count = get_or o.hook_errors (slug, point) 0 + 1 in
      let counted = record o { hook_errors = put o.hook_errors (slug, point) count } in
      if-cases (Sound setup point slug result o)
        (setup.fail_on_hook_error || has (load_bearing_slugs setup.plugins) slug) _ _
        (λ s. (
          set_default_meta-Keeps "abort_error" _ o,
          inl (refl, cause (inl ((IsStrict-iff setup slug).0 s))),
        ))
        (λ s.
          if-cases (Sound setup point slug result o) (leb 3 count) _ _
            (λ l.
              abort_with-Sound result (again count) o counted (cause (inr (leb→le 3 count l))) refl)
            (λ l. (
              refl,
              inr (
                rw failure (counts-put point slug o),
                harmless (
                  ground (arith, l),
                  λ strict. false≢true (sym s ∙ (IsStrict-iff setup slug).1 strict),
                ),
              ),
            )))

  -- A hook that succeeds and does not abort.
  reset-Sound :
      (result : HookResult) (v : Verdict) (o o' : Orch)
      → has_failed result ≡ false
      → Harmless setup slug result (counts point o slug)
      → Keeps (reset_errors setup point slug o) o'
      → o'.hook_errors ≡ (reset_errors setup point slug o).hook_errors
      → Sound setup point slug result o (v, o')
  unfolding reset_errors
  reset-Sound result v o o' success harmless k same = (
    k,
    inr (
      rw success (
          ap {B = String → ℕ} (λ (d : Dict ErrorKey ℕ) (s : String). get_or d (s, point) 0) same
          ∙ counts-remove point slug o),
      harmless,
    ),
  )

  abort_reset-Sound :
      (result : HookResult) (t : Trouble) (o : Orch)
      → AbortCause setup slug result (counts point o slug)
      → Sound setup point slug result o
          (abort_with setup point slug t (reset_errors setup point slug o))
  unfolding reset_errors
  abort_reset-Sound result t o cause = abort_with-Sound result t o _ cause refl

  modify_output-Sound :
      (current : Option Phase) (m : Output) (o : Orch)
      → Sound setup point slug
          (model m)
          o
          (modify_output setup point slug current m (reset_errors setup point slug o))
  unfolding modify_output
  modify_output-Sound none m o = reset-Sound (model m) _ o _ refl tt refl refl
  modify_output-Sound (some phase) m o = reset-Sound (model m) _ o _ refl tt refl refl

  hook_model-Sound :
      (out : Option Output) (m : Output) (o : Orch)
      → Sound setup point slug
          (model m)
          o
          (hook_model setup point slug out m (reset_errors setup point slug o))
  unfolding hook_model
  hook_model-Sound out m o =
      let o' = reset_errors setup point slug o in
      if-cases (Sound setup point slug (model m) o)
        (fits setup point slug (context_of o').current_phase m) _ _
        (λ f. modify_output-Sound (context_of o').current_phase m o)
        (λ f.
          if-cases (Sound setup point slug (model m) o) setup.fail_on_type_mismatch _ _
            (λ t. abort_reset-Sound (model m) _ o t)
            (λ t. reset-Sound (model m) (go_on out) o o' refl tt refl refl))

  after_hook-Sound :
      (out : Option Output) (result : HookResult) (o : Orch)
      → Sound setup point slug result o (after_hook setup point slug out result o)
  unfolding after_hook
  after_hook-Sound out timed_out o =
      hook_trouble-Sound timed_out out timed_out_once timed_out_repeatedly o refl (λ c. c) (λ c. c)
  after_hook-Sound out (failed e) o =
      hook_trouble-Sound (failed e) out (failed_once e) (λ n. failed_repeatedly n e) o refl (λ c. c)
        (λ c. c)
  after_hook-Sound out nothing o = reset-Sound nothing (go_on out) o _ refl tt refl refl
  after_hook-Sound out (action abort) o = unfold reset_errors in (refl, inl (refl, refl))
  after_hook-Sound out (action skip_phase) o =
      reset-Sound (action skip_phase) (stop skip_phase) o _ refl (λ e. ground (arith, e)) refl refl
  after_hook-Sound out (action retry_phase) o =
      reset-Sound (action retry_phase) (stop retry_phase) o _ refl (λ e. ground (arith, e)) refl
        refl
  after_hook-Sound out (action pause) o =
      reset-Sound (action pause) (stop pause) o _ refl (λ e. ground (arith, e)) refl refl
  after_hook-Sound out (model m) o = hook_model-Sound out m o
  after_hook-Sound out (unexpected n) o =
      if-cases (Sound setup point slug (unexpected n) o) setup.fail_on_type_mismatch _ _
        (λ t. abort_reset-Sound (unexpected n) (wrong_type n) o t)
        (λ t. reset-Sound (unexpected n) (go_on out) o _ refl t refl refl)

  run_hook-Sound :
      (cb : Callable) (out : Option Output) (o : Orch)
      → Sound setup point slug
          (setup.call cb out o.run.state).0
          o
          (run_hook setup point slug cb out o)
  unfolding run_hook
  run_hook-Sound cb out o =
      let called = setup.call cb out o.run.state in
      after_hook-Sound out called.0 (set_state called.1 o)

abbrev pub trace_after :
    (Option Output → Orch → List (String × HookResult))
    → Verdict × Orch
    → List (String × HookResult)
trace_after rest (go_on out, o) = rest out o
trace_after rest (stop a, o) = []

-- The hooks that are called, by their slugs, and what each of them gives.
abbrev pub trace :
    Setup → HookPoint → List (String × Callable) → Option Output → Orch → List (String × HookResult)
trace setup point [] out o = []
trace setup point ((slug, cb) ∷ hooks) out o =
    (slug, (setup.call cb out o.run.state).0)
    ∷ trace_after (trace setup point hooks) (run_hook setup point slug cb out o)

-- All of these results are harmless, and the failures in a row at the end are these.
abbrev pub Counted : Setup → (String → ℕ) → List (String × HookResult) → (String → ℕ) → Type 0
Counted setup before [] after = after ≡ before
Counted setup before ((slug, result) ∷ called) after =
    Harmless setup slug result (before slug)
    × Counted setup (tally slug (has_failed result) before) called after

-- The last of these results is a cause to abort.
abbrev pub AbortedBy : Setup → (String → ℕ) → List (String × HookResult) → Type 0
AbortedBy setup before [] = ⊥
AbortedBy setup before ((slug, result) ∷ []) = AbortCause setup slug result (before slug)
AbortedBy setup before ((slug, result) ∷ next ∷ called) =
    AbortedBy setup (tally slug (has_failed result) before) (next ∷ called)

AbortedBy-later :
    (setup : Setup) (before : String → ℕ) (slug : String) (result : HookResult)
    (called : List (String × HookResult))
    → AbortedBy setup (tally slug (has_failed result) before) called
    → AbortedBy setup before ((slug, result) ∷ called)
AbortedBy-later setup before slug result [] c = absurd c
AbortedBy-later setup before slug result (next ∷ called) c = c

-- After all the hooks of a point.
abbrev Sounds :
    Setup → HookPoint → List (String × HookResult) → Orch → Option HookAction × Orch → Type 0
Sounds setup point called o (a, o') =
    Keeps o o'
    × (((a ≡ some abort) × AbortedBy setup (counts point o) called)
        ⊎ Counted setup (counts point o) called (counts point o'))

then_hooks-Sounds :
    (setup : Setup) (point : HookPoint) (slug : String) (result : HookResult)
    (rest : Option Output → Orch → Option HookAction × Orch)
    (later : Option Output → Orch → List (String × HookResult)) (o : Orch) (r : Verdict × Orch)
    → ((out : Option Output) (o' : Orch) → Sounds setup point (later out o') o' (rest out o'))
    → Sound setup point slug result o r
    → Sounds setup point ((slug, result) ∷ trace_after later r) o (then_hooks rest r)
unfolding then_hooks
then_hooks-Sounds setup point slug result rest later o (go_on out, o') k (f, inl (e, c)) =
    ground (arith, e)
then_hooks-Sounds setup point slug result rest later o (go_on out, o') k (f, inr (t, tolerated)) =
    let (g, c) = k out o' in
    (
      Keeps-trans o o' (rest out o').1 f g,
      elim c [
        | inl (e, by) ↦ inl (
          e,
          AbortedBy-later setup (counts point o) slug result (later out o')
              (subst (λ n. AbortedBy setup n (later out o')) t by),
        )
        | inr counted ↦ inr (
          tolerated,
          subst (λ n. Counted setup n (later out o') (counts point (rest out o').1)) t counted,
        )
      ],
    )
then_hooks-Sounds setup point slug result rest later o (stop a, o') k (f, inl (e, c)) =
    (f, inl (ground (arith, e), c))
then_hooks-Sounds setup point slug result rest later o (stop a, o') k (f, inr (t, tolerated)) =
    (f, inr (tolerated, t))

run_each-Sounds :
    (setup : Setup) (point : HookPoint) (hooks : List (String × Callable)) (out : Option Output)
    (o : Orch)
    → Sounds setup point (trace setup point hooks out o) o (run_each setup point hooks out o)
unfolding run_each
run_each-Sounds setup point [] out o = (refl, inr refl)
run_each-Sounds setup point ((slug, cb) ∷ hooks) out o =
    then_hooks-Sounds setup point slug (setup.call cb out o.run.state).0
      (run_each setup point hooks) (trace setup point hooks) o _ (run_each-Sounds setup point hooks)
      (run_hook-Sound setup point slug cb out o)

pub run_hooks-Keeps :
    (setup : Setup) (point : HookPoint) (out : Option Output) (o : Orch)
    → Keeps o (run_hooks setup point out o).1
unfolding run_hooks
run_hooks-Keeps setup point out o = (run_each-Sounds setup point (hooks_at setup point) out o).0
