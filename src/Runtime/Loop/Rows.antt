-- ===== src/Runtime/Loop/Rows.antt =====
-- Which phases a run executes, and in which order.
use motoro.Prelude.{
  ℕ, zero, suc, ◌+◌, ◌-◌, String, Option, none, some, List, [], ◌∷◌, ◌++◌, map, drop, ◌≡◌, refl, ap,
  sym, subst, ◌∙◌, eq_text, ◌==◌, if◌then◌else◌, Bool-cases, inl, inr,
}
use mathlib.Core.Path.{ap₂}
use mathlib.Core.List.{append-nil, append_assoc, map-append}
use motoro.Runtime.Types.{
  Outcome, returned, raised, Phase, sense, reason, plan, act, RunStatus, PhaseResult,
}
use motoro.Runtime.Context.{RunContext}
use motoro.Runtime.Phase.{Env, RunStep, RuntimeState}
use motoro.Runtime.Phase.Row.{Added, Added-execute_phase, KeepsIteration, iteration-execute_phase}
use motoro.Runtime.Loop.{
  Run, Flow, next, stop, phase_sequence, after_phase, after_execute, after_limits, after_check,
  run_phase, go_on, run_phases, set_iteration, start_run, run_iterations, catch, run_loop,
  start_phase_idx, index_of,
}
use motoro.Runtime.Loop.Frame.{Frame-after_phase}

-- The iteration and the phase of a row.
abbrev pub place : RunStep → ℕ × Phase
place row = (row.iteration, row.phase)

-- `left` iterations from iteration i: these phases, and then all four in each.
abbrev pub schedule : ℕ → ℕ → List Phase → List (ℕ × Phase)
schedule zero i phases = []
schedule (suc left) i phases =
    map (λ p. (i, p)) phases ++ schedule left (suc i) (sense ∷ reason ∷ plan ∷ act ∷ [])

-- The phases of the first iteration: from the one of this name on, or all of them where no phase
-- has the name.
abbrev pub phases_from : Option String → List Phase
phases_from none = sense ∷ reason ∷ plan ∷ act ∷ []
phases_from (some name) =
    if "sense" == name
    then sense ∷ reason ∷ plan ∷ act ∷ []
    else if "reason" == name
    then reason ∷ plan ∷ act ∷ []
    else if "plan" == name
    then plan ∷ act ∷ []
    else if "act" == name
    then act ∷ []
    else sense ∷ reason ∷ plan ∷ act ∷ []

drop-start_phase_idx :
    (resume_phase : Option String)
    → drop (start_phase_idx resume_phase) phase_sequence ≡ phases_from resume_phase
unfolding start_phase_idx index_of
drop-start_phase_idx none = refl
drop-start_phase_idx (some name) = elim (Bool-cases ("sense" == name)) [
  | inl e ↦ rw e refl
  | inr s ↦ elim (Bool-cases ("reason" == name)) [
    | inl e ↦ rw (s, e) refl
    | inr r ↦ elim (Bool-cases ("plan" == name)) [
      | inl e ↦ rw (s, r, e) refl
      | inr p ↦ elim (Bool-cases ("act" == name)) [
        | inl e ↦ rw (s, r, p, e) refl
        | inr a ↦ rw (s, r, p, a) refl
      ]
    ]
  ]
]

-- The rows after `before` are a beginning of the plan; all of it and `C`, where the loop goes on.
abbrev Walked : (Run → Type 0) → List (ℕ × Phase) → List RunStep → Outcome Flow × Run → Type 0
Walked C todo before (returned next, v) =
    C v × ((new : List RunStep) × (v.state.rows ≡ before ++ new) × (map place new ≡ todo))
Walked C todo before (_, v) =
    (new : List RunStep) × (rest : List (ℕ × Phase)) × (v.state.rows ≡ before ++ new)
    × (map place new ++ rest ≡ todo)

-- Rows that are there already count as the beginning of the plan.
Walked-after :
    (D : Run → Type 0) (later : List (ℕ × Phase)) (before new : List RunStep)
    (r : Outcome Flow × Run)
    → Walked D later (before ++ new) r
    → Walked D (map place new ++ later) before r
Walked-after D later before new (returned next, v) (d, (more, e, p)) = (
  d,
  (
    new ++ more,
    e ∙ append_assoc before new more,
    map-append place new more ∙ ap (λ t. map place new ++ t) p,
  ),
)
Walked-after D later before new (returned stop, v) (more, rest, e, p) = (
  new ++ more,
  rest,
  e ∙ append_assoc before new more,
  ap (λ t. t ++ rest) (map-append place new more)
      ∙ append_assoc (map place new) (map place more) rest
      ∙ ap (λ t. map place new ++ t) p,
)
Walked-after D later before new (raised x, v) (more, rest, e, p) = (
  new ++ more,
  rest,
  e ∙ append_assoc before new more,
  ap (λ t. t ++ rest) (map-append place new more)
      ∙ append_assoc (map place new) (map place more) rest
      ∙ ap (λ t. map place new ++ t) p,
)

Walked-go_on :
    (C D : Run → Type 0) (todo later : List (ℕ × Phase)) (before : List RunStep)
    (k : Run → Outcome Flow × Run) (r : Outcome Flow × Run)
    → ((v : Run) → C v → Walked D later v.state.rows (k v))
    → Walked C todo before r
    → Walked D (todo ++ later) before (go_on k r)
unfolding go_on
Walked-go_on C D todo later before k (returned next, v) h (c, (new, e, p)) =
    subst (λ t. Walked D (t ++ later) before (k v)) p
      (Walked-after D later before new (k v) (subst (λ t. Walked D later t (k v)) e (h v c)))
Walked-go_on C D todo later before k (returned stop, v) h (new, rest, e, p) =
    (new, rest ++ later, e, sym (append_assoc (map place new) rest later) ∙ ap (λ t. t ++ later) p)
Walked-go_on C D todo later before k (raised x, v) h (new, rest, e, p) =
    (new, rest ++ later, e, sym (append_assoc (map place new) rest later) ∙ ap (λ t. t ++ later) p)

abbrev At : ℕ → Run → Type 0
At i v = v.state.context.iteration ≡ i

Walked-of_row :
    (i : ℕ) (before : List RunStep) (row : RunStep) (phase : Phase) (r : Outcome Flow × Run)
    → r.1.state.rows ≡ before ++ row ∷ []
    → place row ≡ (i, phase)
    → At i r.1
    → Walked (At i) ((i, phase) ∷ []) before r
Walked-of_row i before row phase (returned next, v) e p at = (at, (row ∷ [], e, ap (λ t. t ∷ []) p))
Walked-of_row i before row phase (returned stop, v) e p at = (row ∷ [], [], e, ap (λ t. t ∷ []) p)
Walked-of_row i before row phase (raised x, v) e p at = (row ∷ [], [], e, ap (λ t. t ∷ []) p)

module _ (env : Env) (k : KeepsIteration env) (i : ℕ) where
  place-Added :
      {phase : Phase} {s : RuntimeState} {r : Outcome PhaseResult × RuntimeState}
      (a : Added phase s r)
      → r.1.context.iteration ≡ i
      → place a.row ≡ (i, phase)
  place-Added a e = ap₂ (λ x y. (x, y)) (a.iteration_same ∙ e) a.phase_same

  after_execute_rows :
      (phase : Phase) (r : Outcome PhaseResult × RuntimeState) (v : Run)
      → Added phase v.state r
      → r.1.context.iteration ≡ i
      → Walked (At i) ((i, phase) ∷ []) v.state.rows (after_execute env phase r v)
  unfolding after_execute
  after_execute_rows phase (raised e, s) v a at =
      (a.row ∷ [], [], a.rows_added, ap (λ t. t ∷ []) (place-Added a at))
  after_execute_rows phase (returned result, s) v a at =
      let f = Frame-after_phase env phase result.output (record v { state = s }) in
      Walked-of_row i v.state.rows a.row phase
        (after_phase env phase result.output (record v { state = s })) (f.rows_kept ∙ a.rows_added)
        (place-Added a at) (f.iteration_kept ∙ at)

  after_limits_rows :
      (phase : Phase) (o : Option (List String)) (v : Run)
      → At i v
      → Walked (At i) ((i, phase) ∷ []) v.state.rows (after_limits env phase o v)
  unfolding after_limits
  after_limits_rows phase (some names) v at =
      ([], (i, phase) ∷ [], sym (append-nil v.state.rows), refl)
  after_limits_rows phase none v at =
      after_execute_rows phase _ v (Added-execute_phase env phase v.state)
        (iteration-execute_phase env phase v.state k ∙ at)

  after_check_rows :
      (phase : Phase) (o : Option RunStatus) (v : Run)
      → At i v
      → Walked (At i) ((i, phase) ∷ []) v.state.rows (after_check env phase o v)
  unfolding after_check
  after_check_rows phase (some status) v at =
      ([], (i, phase) ∷ [], sym (append-nil v.state.rows), refl)
  after_check_rows phase none v at = after_limits_rows phase _ v at

  run_phase_rows :
      (phase : Phase) (v : Run)
      → At i v
      → Walked (At i) ((i, phase) ∷ []) v.state.rows (run_phase env phase v)
  unfolding run_phase
  run_phase_rows phase v at =
      after_check_rows phase _ (record v { state = record v.state { checks = v.state.checks + 1 } })
        at

  run_phases_rows :
      (ps : List Phase) (v : Run)
      → At i v
      → Walked (At i) (map (λ p. (i, p)) ps) v.state.rows (run_phases env ps v)
  unfolding run_phases
  run_phases_rows [] v at = (at, ([], sym (append-nil v.state.rows), refl))
  run_phases_rows (p ∷ ps) v at =
      Walked-go_on (At i) (At i) ((i, p) ∷ []) (map (λ p. (i, p)) ps) v.state.rows
        (run_phases env ps) (run_phase env p v) (run_phases_rows ps) (run_phase_rows p v at)

module _ (env : Env) (k : KeepsIteration env) where
  run_iterations_rows :
      (left i first : ℕ) (v : Run)
      → Walked
          (λ _. Unit {0})
          (schedule left i (drop first phase_sequence))
          v.state.rows
          (run_iterations env left i first v)
  unfolding run_iterations
  run_iterations_rows zero i first v = (tt, ([], sym (append-nil v.state.rows), refl))
  run_iterations_rows (suc left) i first v =
      Walked-go_on (At i) (λ _. Unit {0}) (map (λ p. (i, p)) (drop first phase_sequence))
        (schedule left (suc i) (drop 0 phase_sequence)) v.state.rows
        (run_iterations env left (suc i) 0)
        (run_phases env (drop first phase_sequence) (set_iteration i v))
        (λ w _. run_iterations_rows left (suc i) 0 w)
        (unfold set_iteration in
          run_phases_rows env k i (drop first phase_sequence) (set_iteration i v) refl)

-- The rows are a beginning of the plan.
abbrev pub Follows : List (ℕ × Phase) → List RunStep → Type 0
Follows todo rows = (rest : List (ℕ × Phase)) × (map place rows ++ rest ≡ todo)

Follows-catch :
    (todo : List (ℕ × Phase)) (r : Outcome Flow × Run)
    → Walked (λ _. Unit {0}) todo [] r
    → Follows todo (catch r).state.rows
unfolding catch
Follows-catch todo (returned next, v) (u, (new, e, p)) = ([], rw e (append-nil _ ∙ p))
Follows-catch todo (returned stop, v) (new, rest, e, p) = (rest, rw e p)
Follows-catch todo (raised x, v) (new, rest, e, p) = (rest, rw e p)

-- Where the phases leave `context.iteration` alone, the steps that a run adds are a beginning of
-- the schedule: in the first iteration the phases sense, reason, plan, act from the one to resume
-- at on, all of them where no phase has that name, and then all four in each iteration up to the
-- maximum, none skipped and none repeated.
pub run_loop-Follows :
    (env : Env) (c : RunContext) (resume_phase : Option String)
    → KeepsIteration env
    → Follows
        (schedule (c.max_iterations - c.iteration) c.iteration (phases_from resume_phase))
        (run_loop env c resume_phase).state.rows
unfolding run_loop
run_loop-Follows env c resume_phase k =
    Follows-catch _
      (run_iterations env (c.max_iterations - c.iteration) c.iteration
        (start_phase_idx resume_phase) (start_run c))
      (subst
        (λ ps.
          Walked (λ _. Unit {0}) (schedule (c.max_iterations - c.iteration) c.iteration ps) []
            (run_iterations env (c.max_iterations - c.iteration) c.iteration
              (start_phase_idx resume_phase) (start_run c)))
        (drop-start_phase_idx resume_phase)
        (unfold start_run in
          run_iterations_rows env k (c.max_iterations - c.iteration) c.iteration
            (start_phase_idx resume_phase) (start_run c)))
