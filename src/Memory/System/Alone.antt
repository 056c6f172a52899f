-- ===== src/Memory/System/Alone.antt =====
-- One call of `add_entry` by itself, against the pass of the strategy as a function.
use motoro.Prelude.{
  ℕ, zero, suc, eq_text, eq_number, Bool, true, ◌==◌, Option, none, some, List, [], ◌∷◌, put,
  if◌then◌else◌, ◌≡◌, refl, ap, ◌∙◌, subst, String,
}
use motoro.Memory.Entries.{Entry, MemoryConfig, Store, get_entries}
use motoro.Memory.Strategy.{
  Eviction, nothing, discard, compress, ids, World, evict, has_summarizer, delete_all, perform,
  compress_with, replace_by, summary_entry, run_strategy,
}
use motoro.Runtime.Types.{Outcome, returned, raised}
use motoro.Memory.System.{
  Point, writing, deleting, releasing, done, Lock, delete_next, after_read, after_summary,
  summarize_by, acquire, compare_lock, delete_step, advance, System, Event, move, occur, play,
}

abbrev Stage : Type 0
Stage = Point × Store × Lock

module _ (config : MemoryConfig) (world : World) (w : ℕ) where
  abbrev after : Stage → Stage
  after (p, store, lock) = advance config world w p store lock

  data Runs : Stage → Stage → Type 0 where
    here : {t : Stage} → Runs t t
    step : {t u : Stage} → Runs (after t) u → Runs t u

  release-Runs :
      (e : Option String) (store : Store) → Runs (releasing e, store, some w) (done e, store, none)
  unfolding advance compare_lock
  release-Runs e store = step (rw ((eq_number.equal_iff w w).1 refl) (step here))

  -- The summary, where there is one, is written last.
  abbrev add_last : Option Entry → Store → Store
  add_last none store = store
  add_last (some s) store = put store s.id s

  deleting-Runs :
      (is : List String) (added : Option Entry) (store : Store)
      → Runs
          (delete_next is added, store, some w)
          (done none, add_last added (delete_all is store), none)
  unfolding delete_next advance delete_step delete_all
  deleting-Runs [] none store = release-Runs none store
  deleting-Runs [] (some s) store = step (release-Runs none _)
  deleting-Runs (i ∷ is) none store = step (deleting-Runs is none _)
  deleting-Runs (i ∷ is) (some s) store = step (deleting-Runs is (some s) _)

  delete_next-some : (is : List String) (s : Entry) → delete_next is (some s) ≡ deleting is (some s)
  unfolding delete_next
  delete_next-some [] s = refl
  delete_next-some (i ∷ is) s = refl

  abbrev Ended : Store → Point → Option String × Store → Type 0
  Ended store p (e, store') = Runs (p, store, some w) (done e, store', none)

  summarized-Runs :
      (old : List Entry) (o : Outcome String) (store : Store)
      → Ended store (after_summary world old o) (replace_by world old o store)
  unfolding after_summary replace_by
  summarized-Runs old (raised e) store = release-Runs (some e) store
  summarized-Runs old (returned text) store =
      let s = summary_entry world old text in
      subst
        (λ p.
          Runs (p, store, some w) (done none, add_last (some s) (delete_all (ids old) store), none))
        (delete_next-some (ids old) s) (deleting-Runs (ids old) (some s) store)

  summarize-Runs :
      (f : Option (List Entry → Outcome String)) (old : List Entry) (store : Store)
      → Ended store (summarize_by f world old) (compress_with f world old store)
  unfolding summarize_by compress_with
  summarize-Runs none old store = release-Runs none store
  summarize-Runs (some f) old store = summarized-Runs old (f old) store

  read-Runs : (v : Eviction) (store : Store) → Ended store (after_read v) (perform world v store)
  unfolding after_read perform advance
  read-Runs nothing store = release-Runs none store
  read-Runs (discard old) store = deleting-Runs (ids old) none store
  read-Runs (compress old) store = step (summarize-Runs world.summarize old store)

  write-Runs :
      (e : Entry) (store : Store)
      → let (x, store') = run_strategy config world (put store e.id e) in
        Runs (writing e, store, none) (done x, store', none)
  unfolding advance run_strategy acquire
  write-Runs e store = step (
      step (
        step (
          read-Runs (evict config (has_summarizer world) (get_entries (put store e.id e)))
            (put store e.id e))))

abbrev pub repeat : ℕ → Event → List Event
repeat zero e = []
repeat (suc n) e = e ∷ repeat n e

module _ (config : MemoryConfig) (world : ℕ → World) (w : ℕ) where
  abbrev stage : System → Stage
  stage s = (s.point w, s.store, s.lock)

  occur-stage :
      (s : System) → stage (occur config world (move w) s) ≡ after config (world w) w (stage s)
  unfolding occur
  occur-stage s =
      ap (λ p. (p, (after config (world w) w (stage s)).1, (after config (world w) w (stage s)).2))
        (here_again (s.point w) (w == w) ((eq_number.equal_iff w w).1 refl))
    where
      here_again : {p : Point} (q : Point) (b : Bool) → b ≡ true → (if b then p else q) ≡ p
      here_again q b e = rw e refl

  replay :
      (t u : Stage) (s : System)
      → Runs config (world w) w t u
      → stage s ≡ t
      → (n : ℕ) × (stage (play config world (repeat n (move w)) s) ≡ u)
  unfolding play
  replay t u s here e = (0, e)
  replay t u s (step r) e =
      let (n, d) =
        replay _ u (occur config world (move w) s) r
          (occur-stage s ∙ ap (after config (world w) w) e) in
      (suc n, d)

-- A call that runs by itself on a free lock comes to its end with the entry added to the working
-- memory and the strategy run on it, as one pass would, with the exception of that pass, if it
-- raises one, and with the lock free again.
pub add_entry_alone :
    (config : MemoryConfig) (world : ℕ → World) (w : ℕ) (s : System) (e : Entry)
    → s.point w ≡ writing e
    → s.lock ≡ none
    → let (x, store) = run_strategy config (world w) (put s.store e.id e) in
      (n : ℕ) × (let s' = play config world (repeat n (move w)) s in
        (s'.point w ≡ done x) × (s'.store ≡ store) × (s'.lock ≡ none))
add_entry_alone config world w s e p l =
    let (n, d) =
      replay config world w _ _ s (write-Runs config (world w) w e s.store) (rw (p, l) refl) in
    (n, (ap (λ t. t.0) d, ap (λ t. t.1) d, ap (λ t. t.2) d))
