-- ===== src/Memory/Examples.antt =====
-- A window of two places, a summary, and two calls whose steps alternate.
use motoro.Prelude.{
  ℕ, zero, suc, ◌+◌, ◌-◌, ◌/◌, max, eq_text, eq_number, subst, true, Option, none, some, [], ◌∷◌,
  map, put, length, ◌≡◌, refl, arith, String, ◌==◌, if◌then◌else◌,
}
use motoro.Runtime.Types.{returned}
use motoro.Memory.Entries.{
  Entry, conversation_turn, given, sliding_window, summarization, MemoryConfig, Store, get_entries,
  total_tokens,
}
use motoro.Memory.Strategy.{World, run_strategy}
use motoro.Memory.Keyed.{Keyed}
use motoro.Memory.Window.{Windowed, run_strategy-Windowed}
use motoro.Memory.Summary.{Compressed, run_strategy-Compressed}
use motoro.Memory.System.{writing, unlocking, expire, locking, done, System, Event, move, play}
use motoro.Memory.System.Exclusion.{inside, Holds, play_exclusive}
use motoro.Memory.System.Progress.{later, Fair, add_entry_ends}
use motoro.Memory.System.Alone.{repeat, add_entry_alone}

abbrev entry : String → ℕ → Entry
entry name time = record {
  id = name;
  kind = conversation_turn;
  content = name;
  token_estimate = 10;
  timestamp = time;
  metadata = given "{}";
}

abbrev three : Store
three = ("a", entry "a" 7) ∷ ("b", entry "b" 3) ∷ ("c", entry "c" 5) ∷ []

abbrev window : MemoryConfig
window = record { strategy = sliding_window; window_size = 2; token_budget = 20 }

abbrev budget : MemoryConfig
budget = record { strategy = summarization; window_size = 2; token_budget = 20 }

abbrev world : World
world = record { summarize = some (λ old. returned "short"); encode = none; new_id = "s"; now = 9 }

three-Keyed : Keyed three
three-Keyed = (refl, refl, (refl, refl, (refl, refl, tt)))

run_strategy-Windowed_example : Windowed 2 three (run_strategy window world three)
run_strategy-Windowed_example = run_strategy-Windowed window world three refl three-Keyed

oldest_gone : map (λ e. e.id) (get_entries (run_strategy window world three).1) ≡ "c" ∷ "a" ∷ []
unfolding run_strategy get_entries
oldest_gone = refl

run_strategy-Compressed_example :
    let entries = get_entries three in
    let n = length entries - max 1 (length entries / 2) in
    Compressed world n three (returned "short") (run_strategy budget world three)
unfolding get_entries total_tokens
run_strategy-Compressed_example =
    run_strategy-Compressed budget world three (λ old. returned "short") refl refl three-Keyed refl
      (omega arith, (omega arith, (omega arith, tt))) (omega arith) (omega arith)

abbrev two_calls : System
two_calls = record {
  store = three;
  lock = none;
  point = λ w. writing (if w == 0 then entry "d" 8 else entry "e" 10);
}

nobody_inside : Holds two_calls
nobody_inside w = ground arith

play_exclusive_example :
    let s' = play window (λ w. world) (map move (0 ∷ 1 ∷ 0 ∷ 1 ∷ 0 ∷ [])) two_calls in
    Holds s' × ((v w : ℕ) → inside (s'.point v) ≡ true → inside (s'.point w) ≡ true → v ≡ w)
play_exclusive_example =
    play_exclusive window (λ w. world) (0 ∷ 1 ∷ 0 ∷ 1 ∷ 0 ∷ []) two_calls nobody_inside

-- Both in turn, for ever.
abbrev alternate : ℕ → Event
alternate zero = move 0
alternate (suc zero) = move 1
alternate (suc (suc n)) = alternate n

alternate-Fair : Fair window (λ w. world) 1 alternate
alternate-Fair zero = (1, refl)
alternate-Fair (suc zero) = (0, refl)
alternate-Fair (suc (suc n)) =
    let (m, e) = alternate-Fair n in
    let same : suc (suc (n + m)) ≡ suc (suc n) + m = omega arith in
    (m, subst (λ k. alternate k ≡ move 1) same e)

add_entry_ends_example :
    (n : ℕ) × ((e : Option String) × ((later window (λ w. world) alternate two_calls n).point 1
        ≡ done e))
add_entry_ends_example = add_entry_ends window (λ w. world) 1 alternate two_calls alternate-Fair

add_entry_alone_example :
    let (x, store) = run_strategy window world (put three "d" (entry "d" 8)) in
    (n : ℕ) × (let s' = play window (λ w. world) (repeat n (move 0)) two_calls in
      (s'.point 0 ≡ done x) × (s'.store ≡ store) × (s'.lock ≡ none))
add_entry_alone_example = add_entry_alone window (λ w. world) 0 two_calls (entry "d" 8) refl refl

-- The lock runs out between the GET and the DELETE of the call 0, so that this deletes the lock of
-- the call 1, and the call 2 comes in beside it.
abbrev releasing_late : System
releasing_late = record {
  store = three;
  lock = some 0;
  point = λ w. if w == 0 then unlocking none else locking 2;
}

abbrev two_inside : System
two_inside = play window (λ w. world) (expire ∷ move 1 ∷ move 0 ∷ move 2 ∷ []) releasing_late

both_inside : (inside (two_inside.point 1) ≡ true) × (inside (two_inside.point 2) ≡ true)
unfolding play
both_inside = (refl, refl)
