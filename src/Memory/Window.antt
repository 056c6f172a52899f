-- ===== src/Memory/Window.antt =====
-- What a pass of the sliding window leaves in the working memory.
use motoro.Prelude.{
  ℕ, ◌-◌, ◌≤◌, ltb, String, eq_text, Bool, List, drop, length, if-cases, ◌≡◌, refl, sym, arith,
  subst, Option, none, length-drop, ltb_false→le,
}
use motoro.Memory.Entries.{Entry, sliding_window, MemoryConfig, Store, get_entries}
use motoro.Memory.Strategy.{
  nothing, discard, overflow, evict_by, evict, World, has_summarizer, perform, run_strategy,
}
use motoro.Memory.Keyed.{Keyed, get_entries-delete_all}

-- After a pass of the sliding window over `store`.
abbrev pub Windowed : ℕ → Store → Option String × Store → Type 0
Windowed window store (e, store') =
    (e ≡ none)
    × Keyed store'
    × (get_entries store' ≡ drop (length (get_entries store) - window) (get_entries store))
    × (length (get_entries store') ≤ window)

windowed :
    (window n : ℕ) (entries : List Entry)
    → n ≡ length entries - window
    → length (drop n entries) ≤ window
windowed window n entries e = omega (arith, e, length-drop n entries)

kept : (n : ℕ) (entries : List Entry) → n ≡ 0 → entries ≡ drop n entries
kept n entries e = rw e refl

perform-Windowed :
    (config : MemoryConfig) (world : World) (can_summarize : Bool) (store : Store)
    → Keyed store
    → Windowed config.window_size store
        (perform world (evict_by sliding_window config can_summarize (get_entries store)) store)
unfolding perform evict_by
perform-Windowed config world can_summarize store h =
    let entries = get_entries store in
    let n = length entries - config.window_size in
    if-cases (λ v. Windowed config.window_size store (perform world v store))
      (ltb config.window_size (length entries)) (discard (overflow config.window_size entries))
      nothing
      (λ l.
        let (k, e) = get_entries-delete_all n store h in
        (
          refl,
          k,
          e,
          subst (λ es. length es ≤ config.window_size) (sym e)
              (windowed config.window_size n entries refl),
        ))
      (λ l.
        let few = ltb_false→le config.window_size (length entries) l in
        (refl, h, kept n entries (omega (arith, few)), few))

-- After a pass of the sliding window, which raises nothing, the working memory holds the latest
-- entries, as many as the window has places, or all of them if there are no more than that, in
-- their order in time.
pub run_strategy-Windowed :
    (config : MemoryConfig) (world : World) (store : Store)
    → config.strategy ≡ sliding_window
    → Keyed store
    → Windowed config.window_size store (run_strategy config world store)
unfolding run_strategy evict
run_strategy-Windowed config world store s h =
    subst
      (λ st.
        Windowed config.window_size store
          (perform world (evict_by st config (has_summarizer world) (get_entries store)) store))
      (sym s) (perform-Windowed config world (has_summarizer world) store h)
