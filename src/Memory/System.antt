-- ===== src/Memory/System.antt =====
-- `add_entry` as the steps that it takes, one for each command to Redis and for the call of the
-- summarizer, and the interleavings of many calls of it on one hash and one lock.
pub mod Exclusion
pub mod Progress
pub mod Alone
use motoro.Prelude.{
  ℕ, zero, suc, String, eq_text, eq_number, Bool, true, false, ◌==◌, Option, none, some, List, [],
  ◌∷◌, put, remove, if◌then◌else◌,
}
use motoro.Runtime.Types.{Outcome, returned, raised}
use motoro.Memory.Entries.{Entry, MemoryConfig, Store, get_entries}
use motoro.Memory.Strategy.{
  Eviction, nothing, discard, compress, evict, ids, World, has_summarizer, summary_entry,
}

-- Where a call stands: what it does next. The number at `locking` counts the retries left, the text
-- at the end is the exception that the strategy has raised, if any.
pub data Point : Type 0 where
  writing : Entry → Point
  locking : ℕ → Point
  reading : Point
  summarizing : List Entry → Point
  deleting : List String → Option Entry → Point
  releasing unlocking done : Option String → Point

-- The holder of the lock, by its token.
abbrev pub Lock : Type 0
Lock = Option ℕ

abbrev pub lock_retries : ℕ
lock_retries = 2

-- The deletions that are left, and the summary to be written after them.
unfoldable pub delete_next : List String → Option Entry → Point
delete_next [] none = releasing none
delete_next is added = deleting is added

unfoldable pub after_read : Eviction → Point
unfolding delete_next
after_read nothing = releasing none
after_read (discard old) = delete_next (ids old) none
after_read (compress old) = summarizing old

unfoldable pub after_summary : World → List Entry → Outcome String → Point
unfolding summary_entry
after_summary world old (raised e) = releasing (some e)
after_summary world old (returned text) = deleting (ids old) (some (summary_entry world old text))

unfoldable pub summarize_by : Option (List Entry → Outcome String) → World → List Entry → Point
unfolding after_summary
summarize_by none world old = releasing none
summarize_by (some summarize) world old = after_summary world old (summarize old)

-- SET with NX: the lock is taken if there is none; otherwise a retry is used up.
unfoldable pub acquire : ℕ → ℕ → Lock → Point × Lock
acquire token left none = (reading, some token)
acquire token zero (some t) = (done none, some t)
acquire token (suc left) (some t) = (locking left, some t)

-- GET: the lock is deleted only if it is one's own.
unfoldable pub compare_lock : ℕ → Option String → Lock → Point
compare_lock token e none = done e
compare_lock token e (some t) = if t == token then unlocking e else done e

unfoldable pub delete_step : List String → Option Entry → Store → Point × Store
unfolding delete_next put remove
delete_step [] none store = (releasing none, store)
delete_step [] (some s) store = (releasing none, put store s.id s)
delete_step (i ∷ is) added store = (delete_next is added, remove store i)

-- One step of the call with this token.
unfoldable pub advance : MemoryConfig → World → ℕ → Point → Store → Lock → Point × Store × Lock
unfolding put acquire after_read evict get_entries summarize_by delete_step compare_lock
advance config world token (writing e) store lock = (locking lock_retries, put store e.id e, lock)
advance config world token (locking left) store lock =
    let (p, lock') = acquire token left lock in (p, store, lock')
advance config world token reading store lock =
    (after_read (evict config (has_summarizer world) (get_entries store)), store, lock)
advance config world token (summarizing old) store lock =
    (summarize_by world.summarize world old, store, lock)
advance config world token (deleting is added) store lock =
    let (p, store') = delete_step is added store in (p, store', lock)
advance config world token (releasing e) store lock = (compare_lock token e lock, store, lock)
advance config world token (unlocking e) store lock = (done e, store, none)
advance config world token (done e) store lock = (done e, store, lock)

pub record System : Type 0 where
  pub store : Store
  pub lock : Lock
  pub point : ℕ → Point

-- A call takes its next step, or the time to live of the lock is over.
pub data Event : Type 0 where
  move : ℕ → Event
  expire : Event

abbrev pub set_point : ℕ → Point → (ℕ → Point) → ℕ → Point
set_point w p point v = if w == v then p else point v

module _ (config : MemoryConfig) (world : ℕ → World) where
  unfoldable pub occur : Event → System → System
  unfolding advance
  occur (move w) s =
      let (p, store', lock') = advance config (world w) w (s.point w) s.store s.lock in
      record { store = store'; lock = lock'; point = set_point w p s.point }
  occur expire s = record s { lock = none }

  unfoldable pub play : List Event → System → System
  unfolding occur
  play [] s = s
  play (e ∷ es) s = play es (occur e s)
