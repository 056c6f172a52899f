-- ===== src/Runtime/Context/History.antt =====
-- The window over the conversation history, and the outputs that it never takes away.
use motoro.Prelude.{
  ℕ, ◌+◌, ◌-◌, ltb, String, some, List, [], ◌∷◌, ◌++◌, get, get-put, length, length-append,
  length-drop, if◌then◌else◌, ◌==◌, ◌≡◌, refl, arith, Bool-cases, inl, inr, ltb→lt, ltb_false→le,
  min, take, take-append-drop, sym, ap, ◌∙◌,
}
use motoro.Runtime.Types.{Phase, eq_phase, Output}
use motoro.Runtime.Context.{HistoryEntry, RunContext, evict, record_phase_output}

length-evict :
    (cap : ℕ) (history : List HistoryEntry) → length (evict cap history) ≡ min cap (length history)
unfolding evict
length-evict cap history = elim (Bool-cases (ltb cap (length history))) [
  | inl e ↦ rw e (omega (arith, length-drop (length history - cap) history, ltb→lt _ _ e))
  | inr e ↦ rw e (omega (arith, ltb_false→le _ _ e))
]

evict_suffix :
    (cap : ℕ) (history : List HistoryEntry)
    → (older : List HistoryEntry) × (history ≡ older ++ evict cap history)
unfolding evict
evict_suffix cap history = elim (Bool-cases (ltb cap (length history))) [
  | inl e ↦ (take (length history - cap) history, rw e (sym (take-append-drop _ history)))
  | inr e ↦ ([], rw e)
]

-- An output is found under its phase whatever scrolls out of the history, the other phases keep
-- theirs, and the history holds the latest entries, at most max_history of them.
pub record_phase_output_lem :
    (summarize : Output → String) (phase : Phase) (output : Output) (c : RunContext)
    → let c' = record_phase_output summarize phase output c in
      ((q : Phase)
        → get c'.phase_outputs q ≡ (if phase == q then some output else get c.phase_outputs q))
      × (length c'.conversation_history ≡ min c.max_history (length c.conversation_history + 1))
      × ((older : List HistoryEntry) × (entry : HistoryEntry) × (entry.phase ≡ phase)
          × (entry.iteration ≡ c.iteration)
          × (c.conversation_history ++ entry ∷ [] ≡ older ++ c'.conversation_history))
unfolding record_phase_output
record_phase_output_lem summarize phase output c =
    let entry : HistoryEntry = record {
      phase = phase;
      iteration = c.iteration;
      output_summary = summarize output;
    } in
    let history : List HistoryEntry = c.conversation_history ++ entry ∷ [] in
    let (older, whole) = evict_suffix c.max_history history in
    (
      λ q. get-put c.phase_outputs phase q output,
      length-evict c.max_history history
          ∙ ap (min c.max_history) (length-append c.conversation_history (entry ∷ [])),
      (older, entry, refl, refl, whole),
    )
