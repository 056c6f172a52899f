-- ===== src/Runtime/Loop/Numbering.antt =====
-- The rows that a run adds are numbered in a row, and all of them are among its steps, but for one
-- that a failing commit may cost.
use motoro.Prelude.{
  ℕ, suc, ◌+◌, ◌-◌, String, Option, none, some, List, [], ◌∷◌, ◌++◌, length, length-append, ◌≡◌,
  ◌⊎◌, inl, inr, refl, arith, ap, sym, ◌∙◌,
}
use motoro.Runtime.Types.{Outcome, returned, raised, Phase, RunStatus, failed, PhaseResult}
use motoro.Runtime.Context.{RunContext}
use motoro.Runtime.Phase.{Env, RunStep, RuntimeState}
use motoro.Runtime.Phase.Row.{Added, Added-execute_phase}
use motoro.Runtime.Loop.{
  Run, Flow, after_phase, after_execute, after_limits, after_check, run_phase, set_iteration,
  start_run, run_iterations, catch, run_loop, start_phase_idx,
}
use motoro.Runtime.Loop.Frame.{Frame, Frame-after_phase}
use motoro.Runtime.Loop.Induction.{Ensures, Ensures-run_iterations}

-- The sequence numbers n, n + 1, … in order.
abbrev pub NumberedFrom : ℕ → List RunStep → Type 0
NumberedFrom n [] = Unit
NumberedFrom n (row ∷ rows) = (row.sequence ≡ n) × NumberedFrom (suc n) rows

NumberedFrom-append :
    (n : ℕ) (rows : List RunStep) (row : RunStep)
    → NumberedFrom n rows
    → row.sequence ≡ n + length rows
    → NumberedFrom n (rows ++ row ∷ [])
NumberedFrom-append n [] row h e = (omega arith, tt)
NumberedFrom-append n (r ∷ rows) row h e =
    (h.0, NumberedFrom-append (suc n) rows row h.1 (omega arith))

-- Nothing is lost so far.
record InStep (s : RuntimeState) : Type 0 where
  numbered : NumberedFrom 0 s.rows
  counter : s.step_sequence ≡ length s.rows
  all_kept : s.steps ≡ s.rows

-- All rows are among the steps, or all but the last.
abbrev pub KeptButLast : List RunStep → List RunStep → Type 0
KeptButLast rows steps = (steps ≡ rows) ⊎ ((row : RunStep) × (rows ≡ steps ++ row ∷ []))

record Cut (s : RuntimeState) : Type 0 where
  numbered : NumberedFrom 0 s.rows
  kept : KeptButLast s.rows s.steps

Cut-InStep : (s : RuntimeState) → InStep s → Cut s
Cut-InStep s h = record { numbered = h.numbered; kept = inl h.all_kept }

abbrev Good : Flow → Run → Type 0
Good f v = InStep v.state

abbrev Raised : String → Run → Type 0
Raised e v = Cut v.state

InStep-Frame : {s s' : RuntimeState} → Frame s s' → InStep s → InStep s'
InStep-Frame f h = record {
  numbered = rw f.rows_kept h.numbered;
  counter = rw (f.rows_kept, f.counter_kept) h.counter;
  all_kept = rw (f.rows_kept, f.steps_kept) h.all_kept;
}

Ensures-InStep : (r : Outcome Flow × Run) → InStep r.1.state → Ensures Good Raised r
Ensures-InStep (returned f, v) h = h
Ensures-InStep (raised e, v) h = Cut-InStep v.state h

-- The rows after the execution of a phase are numbered in a row.
NumberedFrom-Added :
    {phase : Phase} {s : RuntimeState} {r : Outcome PhaseResult × RuntimeState}
    → InStep s
    → Added phase s r
    → NumberedFrom 0 r.1.rows
NumberedFrom-Added {s} h a =
    rw a.rows_added
      (NumberedFrom-append 0 s.rows a.row h.numbered (a.sequence_next ∙ h.counter ∙ omega arith))

after_execute_ok :
    (env : Env) (phase : Phase) (r : Outcome PhaseResult × RuntimeState) (v : Run)
    → InStep v.state
    → Added phase v.state r
    → Ensures Good Raised (after_execute env phase r v)
unfolding after_execute
after_execute_ok env phase (raised e, s) v h a = record {
  numbered = NumberedFrom-Added h a;
  kept = elim a.tracked [
    | inl all ↦ inl (all ∙ ap (λ t. t ++ a.row ∷ []) h.all_kept ∙ sym a.rows_added)
    | inr lost ↦ inr (a.row, a.rows_added ∙ ap (λ t. t ++ a.row ∷ []) (sym (lost ∙ h.all_kept)))
  ];
}
after_execute_ok env phase (returned result, s) v h a =
    Ensures-InStep (after_phase env phase result.output (record v { state = s })) (
      InStep-Frame (Frame-after_phase env phase result.output (record v { state = s })) (record {
        numbered = NumberedFrom-Added h a;
        counter =
            rw (a.rows_added, length-append v.state.rows (a.row ∷ []))
              (a.counter_next ∙ omega (arith, h.counter));
        all_kept = a.tracked ∙ ap (λ t. t ++ a.row ∷ []) h.all_kept ∙ sym a.rows_added;
      }))

after_limits_ok :
    (env : Env) (phase : Phase) (o : Option (List String)) (v : Run)
    → InStep v.state
    → Ensures Good Raised (after_limits env phase o v)
unfolding after_limits
after_limits_ok env phase (some names) v h = h
after_limits_ok env phase none v h =
    after_execute_ok env phase _ v h (Added-execute_phase env phase v.state)

after_check_ok :
    (env : Env) (phase : Phase) (o : Option RunStatus) (v : Run)
    → InStep v.state
    → Ensures Good Raised (after_check env phase o v)
unfolding after_check
after_check_ok env phase (some status) v h = h
after_check_ok env phase none v h = after_limits_ok env phase _ v h

run_phase_ok :
    (env : Env) (phase : Phase) (v : Run)
    → InStep v.state
    → Ensures Good Raised (run_phase env phase v)
unfolding run_phase
run_phase_ok env phase v h =
    after_check_ok env phase _ (record v { state = record v.state { checks = v.state.checks + 1 } })
      (record { numbered = h.numbered; counter = h.counter; all_kept = h.all_kept })

-- What a caller sees of the steps of a run.
abbrev pub Accounted : Run → Type 0
Accounted v =
    NumberedFrom 0 v.state.rows
    × ((v.state.steps ≡ v.state.rows)
        ⊎ ((row : RunStep) × (v.state.rows ≡ v.state.steps ++ row ∷ []) × (v.status ≡ failed)))

catch_ok : (r : Outcome Flow × Run) → Ensures Good Raised r → Accounted (catch r)
unfolding catch
catch_ok (returned f, v) h = (h.numbered, inl h.all_kept)
catch_ok (raised e, v) h =
    (h.numbered, elim h.kept [ inl all ↦ inl all | inr (row, lost) ↦ inr (row, lost, refl) ])

-- The steps that a run adds to the session have the sequence numbers 0, 1, 2, … in order, without a
-- gap. All of them are in the result, or all but the last, and then the run failed.
pub run_loop-Accounted :
    (env : Env) (c : RunContext) (resume_phase : Option String)
    → Accounted (run_loop env c resume_phase)
unfolding run_loop
run_loop-Accounted env c resume_phase =
    catch_ok
      (run_iterations env (c.max_iterations - c.iteration) c.iteration
        (start_phase_idx resume_phase) (start_run c))
      (Ensures-run_iterations env Good Raised (run_phase_ok env)
        (λ i v h.
          unfold set_iteration in
          record { numbered = h.numbered; counter = h.counter; all_kept = h.all_kept })
        (λ v h. h) (c.max_iterations - c.iteration) c.iteration (start_phase_idx resume_phase)
        (start_run c)
        (unfold start_run in record { numbered = tt; counter = refl; all_kept = refl }))
