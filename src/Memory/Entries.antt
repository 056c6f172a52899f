-- ===== src/Memory/Entries.antt =====
-- The entries of the working memory, and the hash that holds them.
use motoro.Prelude.{
  ℕ, suc, ◌+◌, ◌/◌, max, String, eq_text, concat, Option, none, some, List, [], ◌∷◌, map, Dict,
}
use motoro.Prelude.Sorting.{sort, le_key}

pub data EntryType : Type 0 where
  conversation_turn tool_result intermediate_reasoning loop_variable summary : EntryType

-- The metadata of an entry: what the caller gave, as JSON text, or where a summary comes from.
pub data Details : Type 0 where
  given : String → Details
  provenance : (original_count : ℕ) (source_entry_ids : List String) → Details

-- A timestamp is a whole number of the clock's steps.
pub record Entry : Type 0 where
  pub id : String
  pub kind : EntryType
  pub content : String
  pub token_estimate : ℕ
  pub timestamp : ℕ
  pub metadata : Details

pub data MemoryStrategy : Type 0 where
  sliding_window summarization : MemoryStrategy

pub record MemoryConfig : Type 0 where
  pub strategy : MemoryStrategy
  pub window_size : ℕ
  pub token_budget : ℕ

-- The hash under `working_memory:{run_id}`: ids mapped to entries.
abbrev pub Store : Type 0
Store = Dict String Entry

unfoldable pub text_length : String → ℕ
text_length String.[] = 0
text_length (String.◌∷◌ c s) = suc (text_length s)

-- The encoder, where there is one, gives the number of tokens or raises.
unfoldable pub estimate_tokens : Option (String → Option ℕ) → String → ℕ
unfolding text_length
estimate_tokens none text = max 1 (text_length text / 4)
estimate_tokens (some encode) text = elim (encode text) [
  | none ↦ max 1 (text_length text / 4)
  | some n ↦ max 1 n
]

-- raw.values()
abbrev pub values : Store → List Entry
values store = map (λ p. p.1) store

-- Oldest first.
unfoldable pub get_entries : Store → List Entry
unfolding sort
get_entries store = sort (le_key (λ e. e.timestamp)) (values store)

abbrev pub sum : List ℕ → ℕ
sum [] = 0
sum (n ∷ ns) = n + sum ns

unfoldable pub total_tokens : List Entry → ℕ
total_tokens entries = sum (map (λ e. e.token_estimate) entries)

unfoldable pub count_tokens : Store → ℕ
unfolding get_entries total_tokens
count_tokens store = total_tokens (get_entries store)

abbrev pub kind_name : EntryType → String
kind_name conversation_turn = "conversation_turn"
kind_name tool_result = "tool_result"
kind_name intermediate_reasoning = "intermediate_reasoning"
kind_name loop_variable = "loop_variable"
kind_name summary = "summary"

entry_line : Entry → String
unfolding concat
entry_line e = concat "[" (concat (kind_name e.kind) (concat "] " e.content))

-- "\n".join(...)
join_lines : List Entry → String
unfolding entry_line
join_lines [] = ""
join_lines (e ∷ []) = entry_line e
join_lines (e ∷ f ∷ es) = concat (entry_line e) (concat "\n" (join_lines (f ∷ es)))

unfoldable pub get_context_string : Store → String
unfolding get_entries join_lines
get_context_string store = join_lines (get_entries store)
