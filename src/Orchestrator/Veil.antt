-- ===== src/Orchestrator/Veil.antt =====
-- What the runtime and the orchestrator's loop have in common: steps on states behind a veil.
use motoro.Prelude.{
  ℕ, String, eq_text, Option, none, some, Dict, get, get_or, put, get_or-put, Bool-cases,
  Option-cases, inl, inr, ◌≡◌, refl, ap, subst, length,
}
use motoro.Runtime.Types.{
  Outcome, returned, raised, Phase, sense, reason, plan, act, eq_phase, RunStatus, completed,
  failed, cancelled, paused, pending, running, awaiting_human, Output, plan_output, act_output,
  other_output, PhaseResult, ActOutput, LlmCallRecord,
}
use motoro.Runtime.Context.{RunContext, add_llm_usage, record_phase_output}
use motoro.Runtime.Phase.{
  Env, RuntimeState, settle, finish_phase, after_commit, fail_phase, RunStep, track_usage, add_row,
  phase_input, prev_phase,
}
use motoro.Runtime.Loop as Plain
use motoro.Runtime.Loop.{
  Run, exception, Flow, next, stop, after_execute, after_check, after_limits, snapshot_if,
  after_phase, after_plan, after_act, after_memory, respond, phase_sequence, set_iteration,
  start_run, start_phase_idx, AgentRunResult, result_of,
}
use motoro.Orchestrator.Metadata.{without_own}
use motoro.Orchestrator.Types.{Orch, context_of}
use motoro.Orchestrator.Loop.{Step, before_act, injected_actions, go_on}

-- What the runtime does not know of: the current phase and the failures of the heartbeat.
abbrev pub veil : RunContext → RunContext
veil c = record c { current_phase = none; heartbeat_failures = 0 }

abbrev pub veil_state : RuntimeState → RuntimeState
veil_state s = record s { context = veil s.context }

abbrev pub veil_snapshot : Option RunContext → Option RunContext
veil_snapshot none = none
veil_snapshot (some c) = some (veil c)

abbrev pub veil_run : Run → Run
veil_run v = record v {
  state = veil_state v.state;
  context_snapshot = veil_snapshot v.context_snapshot;
}

-- The phases neither read nor write what the runtime does not know of, and leave the override of
-- the output alone.
pub record Unaware (env : Env) : Type 0 where
  pub blind :
      (p : Phase) (c : RunContext)
      → env.execute p (veil c) ≡ ((env.execute p c).0, veil (env.execute p c).1)
  pub keeps_override :
      (p : Phase) (c : RunContext)
      → get (env.execute p c).1.metadata "final_output_override"
        ≡ get c.metadata "final_output_override"

abbrev pub veil_result : AgentRunResult → AgentRunResult
veil_result r = record r {
  context_snapshot = veil_snapshot r.context_snapshot;
  run_metadata = without_own r.run_metadata;
}

-- No hook has declared an answer.
abbrev pub NoOverride : RunContext → Type 0
NoOverride c = get c.metadata "final_output_override" ≡ none

pub after_commit_veil :
    (e : Option String) (result : PhaseResult) (step : RunStep) (s : RuntimeState)
    → after_commit e result step (veil_state s)
      ≡ ((after_commit e result step s).0, veil_state (after_commit e result step s).1)
unfolding after_commit
after_commit_veil none result step s = refl
after_commit_veil (some e) result step s = refl

pub track_usage-veil :
    (r : Option LlmCallRecord) (c : RunContext) → track_usage r (veil c) ≡ veil (track_usage r c)
unfolding track_usage add_llm_usage
track_usage-veil none c = refl
track_usage-veil (some r) c = refl

pub phase_input-veil :
    (p : Option Phase) (c : RunContext) → phase_input p (veil c) ≡ phase_input p c
unfolding phase_input
phase_input-veil none c = refl
phase_input-veil (some p) c = refl

module _ (env : Env) where
  pub settle-veil :
      (phase : Phase) (r : Outcome PhaseResult) (c : RunContext) (s : RuntimeState)
      → settle env phase (r, veil c) (veil_state s)
        ≡ ((settle env phase (r, c) s).0, veil_state (settle env phase (r, c) s).1)
  unfolding settle fail_phase finish_phase add_row record_phase_output
  settle-veil phase (raised e) c s = rw (phase_input-veil (prev_phase phase) c)
  settle-veil phase (returned result) c s =
      rw
        (
          track_usage-veil result.llm_call c,
          phase_input-veil (prev_phase phase) (
              record_phase_output env.summarize phase result.output
                (track_usage result.llm_call c)),
        )
        (after_commit_veil (env.commit s.commits) result _ _)

  pub after_act_veil :
      (memory : Option (ℕ → String → Option String)) (a : ActOutput) (v : Run)
      → after_act memory a (veil_run v)
        ≡ ((after_act memory a v).0, veil_run (after_act memory a v).1)
  unfolding after_act after_memory respond
  after_act_veil none a v = refl
  after_act_veil (some write) a v =
      elim (Option-cases (write (length v.remembered) a.final_response)) [
        | inl e ↦ rw e
        | inr (x, e) ↦ rw e
      ]

  pub after_phase_veil :
      (phase : Phase) (m : Output) (v : Run)
      → after_phase env phase m (veil_run v)
        ≡ ((after_phase env phase m v).0, veil_run (after_phase env phase m v).1)
  unfolding after_phase after_plan
  after_phase_veil plan (plan_output p) v = elim (Bool-cases p.is_complete) [
    | inl e ↦ rw e
    | inr e ↦ rw e
  ]
  after_phase_veil plan (act_output a) v = refl
  after_phase_veil plan (other_output t) v = refl
  after_phase_veil act (act_output a) v = after_act_veil env.remember a v
  after_phase_veil act (plan_output p) v = refl
  after_phase_veil act (other_output t) v = refl
  after_phase_veil sense m v = refl
  after_phase_veil reason m v = refl

  pub after_act_metadata :
      (memory : Option (ℕ → String → Option String)) (a : ActOutput) (v : Run)
      → (after_act memory a v).1.state.context.metadata ≡ v.state.context.metadata
  unfolding after_act after_memory respond
  after_act_metadata none a v = refl
  after_act_metadata (some write) a v =
      elim (Option-cases (write (length v.remembered) a.final_response)) [
        | inl e ↦ rw e
        | inr (x, e) ↦ rw e
      ]

  pub after_phase_metadata :
      (phase : Phase) (m : Output) (v : Run)
      → (after_phase env phase m v).1.state.context.metadata ≡ v.state.context.metadata
  unfolding after_phase after_plan
  after_phase_metadata plan (plan_output p) v = elim (Bool-cases p.is_complete) [
    | inl e ↦ rw e
    | inr e ↦ rw e
  ]
  after_phase_metadata plan (act_output a) v = refl
  after_phase_metadata plan (other_output t) v = refl
  after_phase_metadata act (act_output a) v = after_act_metadata env.remember a v
  after_phase_metadata act (plan_output p) v = refl
  after_phase_metadata act (other_output t) v = refl
  after_phase_metadata sense m v = refl
  after_phase_metadata reason m v = refl

-- What `_execute_phase` leaves: no override, and the output of a phase that returns.
unfoldable pub Settled : Phase → Outcome PhaseResult × RuntimeState → Type 0
Settled phase (raised e, s) = NoOverride s.context
Settled phase (returned result, s) =
    NoOverride s.context × (get_or s.context.phase_outputs phase result.output ≡ result.output)

pub after_commit-Settled :
    (e : Option String) (phase : Phase) (result : PhaseResult) (step : RunStep) (s : RuntimeState)
    → NoOverride s.context
    → get_or s.context.phase_outputs phase result.output ≡ result.output
    → Settled phase (after_commit e result step s)
unfolding after_commit Settled
after_commit-Settled none phase result step s n g = (n, g)
after_commit-Settled (some e) phase result step s n g = n

pub track_usage-NoOverride :
    (r : Option LlmCallRecord) (c : RunContext) → NoOverride c → NoOverride (track_usage r c)
unfolding track_usage add_llm_usage
track_usage-NoOverride none c n = n
track_usage-NoOverride (some r) c n = n

pub get_or-put_same :
    (d : Dict Phase Output) (phase : Phase) (m n : Output) → get_or (put d phase m) phase n ≡ m
get_or-put_same d phase m n =
    rw (get_or-put d phase phase m n, (eq_phase.equal_iff phase phase).1 refl)

pub settle-Settled :
    (env : Env) (phase : Phase) (r : Outcome PhaseResult) (c : RunContext) (s : RuntimeState)
    → NoOverride c
    → Settled phase (settle env phase (r, c) s)
unfolding settle fail_phase finish_phase add_row record_phase_output Settled
settle-Settled env phase (raised e) c s n = n
settle-Settled env phase (returned result) c s n =
    after_commit-Settled (env.commit s.commits) phase result _ _
      (track_usage-NoOverride result.llm_call c n)
      (get_or-put_same _ phase result.output result.output)

-- One step of the orchestrator is one of the runtime, behind the veil.
unfoldable pub Same : Step → Outcome Flow × Run → Type 0
Same (f, o) r = ((f, veil_run o.run) ≡ r) × NoOverride (context_of o)

pub snapshot_veil :
    (status : RunStatus) (c : RunContext) (old : Option RunContext)
    → snapshot_if status (veil c) (veil_snapshot old) ≡ veil_snapshot (snapshot_if status c old)
unfolding snapshot_if
snapshot_veil paused c old = refl
snapshot_veil pending c old = refl
snapshot_veil running c old = refl
snapshot_veil completed c old = refl
snapshot_veil failed c old = refl
snapshot_veil cancelled c old = refl
snapshot_veil awaiting_human c old = refl

pub go_on-Same :
    (rest : Orch → Step) (rest' : Run → Outcome Flow × Run) (step : Step) (r : Outcome Flow × Run)
    → ((o : Orch) → NoOverride (context_of o) → Same (rest o) (rest' (veil_run o.run)))
    → Same step r
    → Same (go_on rest step) (Plain.go_on rest' r)
unfolding go_on Plain.go_on Same
go_on-Same rest rest' (returned next, o) r k (e, n) =
    subst (λ x. Same (rest o) (Plain.go_on rest' x)) e (k o n)
go_on-Same rest rest' (returned stop, o) r k (e, n) = (ap (Plain.go_on rest') e, n)
go_on-Same rest rest' (raised x, o) r k (e, n) = (ap (Plain.go_on rest') e, n)

pub before_act_standard :
    (phase : Phase) (m : Output) (o : Orch) → before_act phase_sequence phase m o ≡ o
unfolding before_act injected_actions
before_act_standard act (act_output a) o = refl
before_act_standard act (plan_output p) o = refl
before_act_standard act (other_output t) o = refl
before_act_standard sense m o = refl
before_act_standard reason m o = refl
before_act_standard plan m o = refl
