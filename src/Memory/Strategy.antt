-- ===== src/Memory/Strategy.antt =====
-- The body of `_apply_strategy` between the acquisition and the release of the lock.
use motoro.Prelude.{
  ℕ, ◌-◌, ◌/◌, max, ltb, String, eq_text, Bool, true, false, ◌&&◌, Option, none, some, List, [],
  ◌∷◌, map, put, remove, take, length, if◌then◌else◌,
}
use motoro.Runtime.Types.{Outcome, returned, raised}
use motoro.Memory.Entries.{
  summary, Entry, provenance, sliding_window, summarization, MemoryStrategy, MemoryConfig, Store,
  estimate_tokens, get_entries, total_tokens,
}

-- What the strategy decides on the entries it has read.
pub data Eviction : Type 0 where
  nothing : Eviction
  discard : List Entry → Eviction
  compress : List Entry → Eviction

-- if to_compress
abbrev pub compress_some : List Entry → Eviction
compress_some [] = nothing
compress_some (e ∷ es) = compress (e ∷ es)

-- entries[: len(entries) - window_size]
abbrev pub overflow : ℕ → List Entry → List Entry
overflow window entries = take (length entries - window) entries

-- entries[:-keep], with keep = max(1, len(entries) // 2)
abbrev pub older_half : List Entry → List Entry
older_half entries = take (length entries - max 1 (length entries / 2)) entries

-- `can_summarize`: there are an LLM service and a model configuration.
unfoldable pub evict_by : MemoryStrategy → MemoryConfig → Bool → List Entry → Eviction
unfolding total_tokens
evict_by sliding_window config can_summarize entries =
    if ltb config.window_size (length entries)
    then discard (overflow config.window_size entries)
    else nothing
evict_by summarization config can_summarize entries =
    if ltb config.token_budget (total_tokens entries) && can_summarize
    then compress_some (older_half entries)
    else nothing

unfoldable pub evict : MemoryConfig → Bool → List Entry → Eviction
unfolding evict_by
evict config can_summarize entries = evict_by config.strategy config can_summarize entries

abbrev pub ids : List Entry → List String
ids entries = map (λ e. e.id) entries

-- One HDEL for each entry.
unfoldable pub delete_all : List String → Store → Store
unfolding remove
delete_all [] store = store
delete_all (i ∷ is) store = delete_all is (remove store i)

-- What a pass meets outside: the summarizer, if there is one, the encoder, and the id and the time
-- of the next entry.
pub record World : Type 0 where
  pub summarize : Option (List Entry → Outcome String)
  pub encode : Option (String → Option ℕ)
  pub new_id : String
  pub now : ℕ

unfoldable pub summary_entry : World → List Entry → String → Entry
unfolding estimate_tokens
summary_entry world old text = record {
  id = world.new_id;
  kind = summary;
  content = text;
  token_estimate = estimate_tokens world.encode text;
  timestamp = world.now;
  metadata = provenance (length old) (ids old);
}

-- The exception that the pass raises, if any, and the hash after it.
unfoldable pub replace_by : World → List Entry → Outcome String → Store → Option String × Store
unfolding summary_entry delete_all put
replace_by world old (raised e) store = (some e, store)
replace_by world old (returned text) store =
    let s = summary_entry world old text in (none, put (delete_all (ids old) store) s.id s)

abbrev pub has_summarizer : World → Bool
has_summarizer world = elim world.summarize [ none ↦ false | some f ↦ true ]

unfoldable pub compress_with :
    Option (List Entry → Outcome String) → World → List Entry → Store → Option String × Store
unfolding replace_by
compress_with none world old store = (none, store)
compress_with (some summarize) world old store = replace_by world old (summarize old) store

unfoldable pub perform : World → Eviction → Store → Option String × Store
unfolding delete_all compress_with
perform world nothing store = (none, store)
perform world (discard old) store = (none, delete_all (ids old) store)
perform world (compress old) store = compress_with world.summarize world old store

unfoldable pub run_strategy : MemoryConfig → World → Store → Option String × Store
unfolding perform evict get_entries
run_strategy config world store =
    perform world (evict config (has_summarizer world) (get_entries store)) store
