-- ===== src/Memory/System/Progress.antt =====
-- Every call of `add_entry` comes to its end.
use motoro.Prelude.{
  ℕ, zero, suc, ◌+◌, eq_number, ◌==◌, Option, none, some, List, [], ◌∷◌, Bool-cases, if-cases, inl,
  inr, ◌≡◌, ◌⊎◌, refl, ap, ◌∙◌, arith, subst, String,
}
use motoro.Memory.Entries.{Entry, MemoryConfig, Store}
use motoro.Memory.Strategy.{Eviction, nothing, discard, compress, ids, World}
use motoro.Runtime.Types.{Outcome, returned, raised}
use motoro.Memory.System.{
  Point, writing, locking, reading, summarizing, deleting, releasing, unlocking, done, Lock,
  delete_next, after_read, after_summary, summarize_by, acquire, compare_lock, delete_step, advance,
  System, Event, move, expire, occur,
}

-- The call ends after finitely many of its steps, whatever the hash and the lock are at each.
data Ends (config : MemoryConfig) (world : World) (w : ℕ) : Point → Type 0 where
  ends_done : {e : Option String} → Ends config world w (done e)
  ends_step :
      {p : Point}
      → ((store : Store) (lock : Lock)
          → Ends config world w (advance config world w p store lock).0)
      → Ends config world w p

module _ (config : MemoryConfig) (world : World) (w : ℕ) where
  abbrev Finite : Point → Type 0
  Finite p = Ends config world w p

  unlocking-Finite : (e : Option String) → Finite (unlocking e)
  unfolding advance
  unlocking-Finite e = ends_step (λ store lock. ends_done)

  compare_lock-Finite : (e : Option String) (lock : Lock) → Finite (compare_lock w e lock)
  unfolding compare_lock
  compare_lock-Finite e none = ends_done
  compare_lock-Finite e (some t) =
      if-cases Finite (t == w) (unlocking e) (done e) (λ _. unlocking-Finite e) (λ _. ends_done)

  releasing-Finite : (e : Option String) → Finite (releasing e)
  unfolding advance
  releasing-Finite e = ends_step (λ store lock. compare_lock-Finite e lock)

  deleting-Finite : (is : List String) (added : Option Entry) → Finite (deleting is added)
  unfolding advance delete_step delete_next
  deleting-Finite [] none = ends_step (λ store lock. releasing-Finite none)
  deleting-Finite [] (some s) = ends_step (λ store lock. releasing-Finite none)
  deleting-Finite (i ∷ []) none = ends_step (λ store lock. releasing-Finite none)
  deleting-Finite (i ∷ []) (some s) = ends_step (λ store lock. deleting-Finite [] (some s))
  deleting-Finite (i ∷ j ∷ is) added = ends_step (λ store lock. deleting-Finite (j ∷ is) added)

  delete_next-Finite : (is : List String) (added : Option Entry) → Finite (delete_next is added)
  unfolding delete_next
  delete_next-Finite [] none = releasing-Finite none
  delete_next-Finite [] (some s) = deleting-Finite [] (some s)
  delete_next-Finite (i ∷ is) none = deleting-Finite (i ∷ is) none
  delete_next-Finite (i ∷ is) (some s) = deleting-Finite (i ∷ is) (some s)

  summarized-Finite : (old : List Entry) (o : Outcome String) → Finite (after_summary world old o)
  unfolding after_summary
  summarized-Finite old (raised e) = releasing-Finite (some e)
  summarized-Finite old (returned text) = deleting-Finite (ids old) (some _)

  summarize_by-Finite :
      (f : Option (List Entry → Outcome String)) (old : List Entry)
      → Finite (summarize_by f world old)
  unfolding summarize_by
  summarize_by-Finite none old = releasing-Finite none
  summarize_by-Finite (some f) old = summarized-Finite old (f old)

  after_read-Finite : (v : Eviction) → Finite (after_read v)
  unfolding after_read advance
  after_read-Finite nothing = releasing-Finite none
  after_read-Finite (discard old) = delete_next-Finite (ids old) none
  after_read-Finite (compress old) =
      ends_step (λ store lock. summarize_by-Finite world.summarize old)

  reading-Finite : Finite reading
  unfolding advance
  reading-Finite = ends_step (λ store lock. after_read-Finite _)

  locking-Finite : (left : ℕ) → Finite (locking left)
  unfolding advance acquire
  locking-Finite zero = ends_step first
    where
      first :
          (store : Store) (lock : Lock)
          → Finite (advance config world w (locking zero) store lock).0
      first store none = reading-Finite
      first store (some t) = ends_done
  locking-Finite (suc left) = ends_step (again (locking-Finite left))
    where
      again :
          Finite (locking left)
          → (store : Store) (lock : Lock)
          → Finite (advance config world w (locking (suc left)) store lock).0
      again h store none = reading-Finite
      again h store (some t) = h

  Finite-all : (p : Point) → Finite p
  unfolding advance
  Finite-all (writing e) = ends_step (λ store lock. locking-Finite _)
  Finite-all (locking left) = locking-Finite left
  Finite-all reading = reading-Finite
  Finite-all (summarizing old) = ends_step (λ store lock. summarize_by-Finite world.summarize old)
  Finite-all (deleting is added) = deleting-Finite is added
  Finite-all (releasing e) = releasing-Finite e
  Finite-all (unlocking e) = unlocking-Finite e
  Finite-all (done e) = ends_done

module _ (config : MemoryConfig) (world : ℕ → World) where
  -- After the first `n` events of an unending schedule.
  abbrev pub later : (ℕ → Event) → System → ℕ → System
  later f s zero = s
  later f s (suc n) = later (λ i. f (suc i)) (occur config world (f zero) s) n

  -- An event that is no step of the call leaves it where it is.
  unmoved :
      (w : ℕ) (event : Event) (s : System)
      → (event ≡ move w) ⊎ ((occur config world event s).point w ≡ s.point w)
  unfolding occur
  unmoved w (move v) s = elim (Bool-cases (v == w)) [
    | inl e ↦ inl (ap move ((eq_number.equal_iff v w).0 e))
    | inr e ↦ inr (rw e refl)
  ]
  unmoved w expire s = inr refl

  moved :
      (w : ℕ) (s : System)
      → (occur config world (move w) s).point w
        ≡ (advance config (world w) w (s.point w) s.store s.lock).0
  unfolding occur
  moved w s = rw ((eq_number.equal_iff w w).1 refl) refl

  abbrev pub Fair : ℕ → (ℕ → Event) → Type 0
  Fair w f = (n : ℕ) → (m : ℕ) × (f (n + m) ≡ move w)

  abbrev IsDone : ℕ → (ℕ → Event) → System → Type 0
  IsDone w f s = (n : ℕ) × ((e : Option String) × ((later f s n).point w ≡ done e))

  Fair-later : (w : ℕ) (f : ℕ → Event) → Fair w f → Fair w (λ i. f (suc i))
  Fair-later w f fair n =
      let (m, e) = fair (suc n) in (m, subst (λ k. f k ≡ move w) (omega arith) e)

  IsDone-later :
      (w : ℕ) (f : ℕ → Event) (s : System)
      → IsDone w (λ i. f (suc i)) (occur config world (f zero) s)
      → IsDone w f s
  IsDone-later w f s (n, d) = (suc n, d)

  -- To the next step of the call, `k` events ahead at most.
  wait :
      (w k : ℕ) (p : Point) (f : ℕ → Event) (s : System)
      → s.point w ≡ p
      → Fair w f
      → f k ≡ move w
      → ((g : ℕ → Event) (t : System) (store : Store) (lock : Lock)
          → Fair w g
          → t.point w ≡ (advance config (world w) w p store lock).0
          → IsDone w g t)
      → IsDone w f s
  wait w zero p f s at fair e go = IsDone-later w f s (
      go (λ i. f (suc i)) (occur config world (f zero) s) s.store s.lock (Fair-later w f fair)
        (ap (λ ev. (occur config world ev s).point w) e
          ∙ moved w s
          ∙ ap (λ q. (advance config (world w) w q s.store s.lock).0) at))
  wait w (suc k) p f s at fair e go = IsDone-later w f s (elim (unmoved w (f zero) s) [
    | inl m ↦
        go (λ i. f (suc i)) (occur config world (f zero) s) s.store s.lock (Fair-later w f fair)
          (ap (λ ev. (occur config world ev s).point w) m
            ∙ moved w s
            ∙ ap (λ q. (advance config (world w) w q s.store s.lock).0) at)
    | inr u ↦
        wait w k p (λ i. f (suc i)) (occur config world (f zero) s) (u ∙ at) (Fair-later w f fair) e
          go
  ])

  Ends-IsDone :
      (w : ℕ) {p : Point} (f : ℕ → Event) (s : System)
      → Ends config (world w) w p
      → s.point w ≡ p
      → Fair w f
      → IsDone w f s
  Ends-IsDone w f s (ends_done {e}) at fair = (0, (e, at))
  Ends-IsDone w {p} f s (ends_step h) at fair =
      let (k, e) = fair 0 in
      wait w k p f s at fair (subst (λ m. f m ≡ move w) (omega arith) e)
        (λ g t store lock fair' at'. Ends-IsDone w g t (h store lock) at' fair')

-- In every unending schedule in which a call gets its turn again and again, the call comes to its
-- end, wherever it stands, whatever the other calls do and whenever the lock runs out of its time.
pub add_entry_ends :
    (config : MemoryConfig) (world : ℕ → World) (w : ℕ) (f : ℕ → Event) (s : System)
    → Fair config world w f
    → (n : ℕ) × ((e : Option String) × ((later config world f s n).point w ≡ done e))
add_entry_ends config world w f s fair =
    Ends-IsDone config world w f s (Finite-all config (world w) w (s.point w)) refl fair
