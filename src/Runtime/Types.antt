-- ===== src/Runtime/Types.antt =====
-- schemas/llm.py, engine/phase.py, models/run.py: what the phases exchange with the runtime.
use motoro.Prelude.{
  ℕ, zero, suc, String, Bool, true, Option, List, PyEq, ◌==◌, eq_number, ◌≡◌, ◌↔◌, refl, sym, ap,
  ◌∙◌,
}

-- A call that returns or raises; an exception is its text "Type: message".
pub data Outcome {ℓ} (A : Type ℓ) : Type ℓ where
  returned : A → Outcome A
  raised : String → Outcome A

pub data Phase : Type 0 where
  sense reason plan act : Phase

abbrev pub phase_index : Phase → ℕ
phase_index sense = 0
phase_index reason = 1
phase_index plan = 2
phase_index act = 3

phase_of : ℕ → Phase
phase_of zero = sense
phase_of (suc zero) = reason
phase_of (suc (suc zero)) = plan
phase_of (suc (suc (suc _))) = act

phase_of-index : (p : Phase) → phase_of (phase_index p) ≡ p
unfolding phase_of
phase_of-index sense = refl
phase_of-index _ = refl

pub phase_iff : (a b : Phase) → ((phase_index a == phase_index b) ≡ true) ↔ (a ≡ b)
phase_iff a b = (
  λ h. sym (phase_of-index a) ∙ ap phase_of ((eq_number.equal_iff _ _).0 h) ∙ phase_of-index b,
  λ h. (eq_number.equal_iff _ _).1 (ap phase_index h),
)

instance abbrev pub eq_phase : PyEq Phase
eq_phase = record { equals = λ a b. phase_index a == phase_index b; equal_iff = phase_iff }

pub data RunStatus : Type 0 where
  pending running completed failed cancelled paused awaiting_human : RunStatus

-- The arguments of a call, as JSON text.
abbrev pub Json : Type 0
Json = String

pub record PlanStep : Type 0 where
  pub action : String
  pub description : String
  pub tool_name : Option String
  pub tool_args : Option Json
  pub expected_outcome : String

pub record PlanOutput : Type 0 where
  pub steps : List PlanStep
  pub is_complete : Bool
  pub completion_reason : Option String

pub record ToolCallRecord : Type 0 where
  pub server : String
  pub tool : String
  pub arguments : Json
  pub result : String
  pub success : Bool

pub record StepResult : Type 0 where
  pub step_index : ℕ
  pub action : String
  pub result : String
  pub success : Bool
  pub tool_call : Option ToolCallRecord

pub record ActOutput : Type 0 where
  pub results : List StepResult
  pub final_response : String
  pub should_continue : Bool

-- The model that a phase returns, told apart as `isinstance` does; of any other model the runtime
-- takes the text alone.
pub data Output : Type 0 where
  plan_output : PlanOutput → Output
  act_output : ActOutput → Output
  other_output : String → Output

-- Costs are decimals: here whole numbers of a small enough unit.
pub record LlmCallRecord : Type 0 where
  pub prompt_tokens : ℕ
  pub completion_tokens : ℕ
  pub cost_estimate : ℕ

pub record PhaseResult : Type 0 where
  pub output : Output
  pub llm_call : Option LlmCallRecord
