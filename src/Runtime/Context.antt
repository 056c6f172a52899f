-- ===== src/Runtime/Context.antt =====
-- engine/context.py: the working memory of one run.
pub mod History
use motoro.Prelude.{
  ℕ, ◌+◌, ◌-◌, ltb, String, Option, none, some, List, [], ◌∷◌, ◌++◌, Dict, put, length, drop,
  if◌then◌else◌,
}
use motoro.Runtime.Types.{Phase, eq_phase, Output, LlmCallRecord}
use motoro.Runtime.Plan.{ToolDescriptor, Peer}

-- An entry of `conversation_history`.
pub record HistoryEntry : Type 0 where
  pub phase : Phase
  pub iteration : ℕ
  pub output_summary : String

-- A value in `metadata`: None, a text, a number or a Boolean (its text), a list of names and its
-- text, a dict (its JSON text and its text), or a value of another type (its text).
pub data Meta : Type 0 where
  null : Meta
  text scalar other : String → Meta
  names : List String → String → Meta
  object : String → String → Meta

-- The fields that the loops read or write. `retry_count` is metadata["_retry_count"],
-- `heartbeat_failures` is metadata["_heartbeat_failures"], 0 where it is missing, and `metadata`
-- holds the other keys.
pub record RunContext : Type 0 where
  pub phase_outputs : Dict Phase Output
  pub conversation_history : List HistoryEntry
  pub available_tools : List ToolDescriptor
  pub available_agents : List Peer
  pub total_prompt_tokens : ℕ
  pub total_completion_tokens : ℕ
  pub total_cost : ℕ
  pub iteration : ℕ
  pub max_iterations : ℕ
  pub max_history : ℕ
  pub retry_count : Option ℕ
  pub heartbeat_failures : ℕ
  pub metadata : Dict String Meta
  pub current_phase : Option Phase

unfoldable pub add_llm_usage : ℕ → ℕ → ℕ → RunContext → RunContext
add_llm_usage prompt_tokens completion_tokens cost c = record c {
  total_prompt_tokens = c.total_prompt_tokens + prompt_tokens;
  total_completion_tokens = c.total_completion_tokens + completion_tokens;
  total_cost = c.total_cost + cost;
}

-- The oldest entries go first.
evict : ℕ → List HistoryEntry → List HistoryEntry
evict max_history history =
    if ltb max_history (length history)
    then drop (length history - max_history) history
    else history

-- `summarize` stands for `_summarize_output`, the text of the entry.
unfoldable pub record_phase_output : (Output → String) → Phase → Output → RunContext → RunContext
unfolding evict
record_phase_output summarize phase output c =
    let entry : HistoryEntry = record {
      phase = phase;
      iteration = c.iteration;
      output_summary = summarize output;
    } in
    record c {
      phase_outputs = put c.phase_outputs phase output;
      conversation_history = evict c.max_history (c.conversation_history ++ entry ∷ []);
    }

unfoldable pub update_phase_output : Phase → Output → RunContext → RunContext
update_phase_output phase output c = record c { phase_outputs = put c.phase_outputs phase output }
