-- ===== src/Memory/System/Exclusion.antt =====
-- Who is between the acquisition and the release of the lock.
use motoro.Prelude.{
  ℕ, zero, suc, eq_number, Bool, true, false, ◌==◌, Option, none, some, List, [], ◌∷◌, map,
  if-cases, ◌≡◌, ◌↔◌, refl, arith, subst, String,
}
use motoro.Memory.Entries.{Entry, MemoryConfig, Store}
use motoro.Memory.Strategy.{Eviction, nothing, discard, compress, ids, World}
use motoro.Runtime.Types.{Outcome, returned, raised}
use motoro.Memory.System.{
  Point, writing, locking, reading, summarizing, deleting, releasing, unlocking, done, Lock,
  delete_next, after_read, after_summary, summarize_by, acquire, compare_lock, delete_step, advance,
  System, move, occur, play,
}

-- Between the acquisition and the release.
abbrev pub inside : Point → Bool
inside (writing e) = false
inside (locking n) = false
inside (done e) = false
inside _ = true

-- The call with this token is inside exactly when the lock is its own.
abbrev Owns : ℕ → Point → Lock → Type 0
Owns w p lock = (inside p ≡ true) ↔ (lock ≡ some w)

abbrev pub Holds : System → Type 0
Holds s = (w : ℕ) → (inside (s.point w) ≡ true) ↔ (s.lock ≡ some w)

-- What a step does to the lock, by where the call stands before and after it.
abbrev Turns : ℕ → Bool → Lock → Bool → Lock → Type 0
Turns w true l true l' = l' ≡ l
Turns w true l false l' = l' ≡ none
Turns w false l true l' = (l ≡ none) × (l' ≡ some w)
Turns w false l false l' = l' ≡ l

module _ (config : MemoryConfig) (world : World) (w : ℕ) where
  delete_next-inside :
      (is : List String) (added : Option Entry) → inside (delete_next is added) ≡ true
  unfolding delete_next
  delete_next-inside [] none = refl
  delete_next-inside [] (some s) = refl
  delete_next-inside (i ∷ is) none = refl
  delete_next-inside (i ∷ is) (some s) = refl

  after_read-inside : (v : Eviction) → inside (after_read v) ≡ true
  unfolding after_read
  after_read-inside nothing = refl
  after_read-inside (discard old) = delete_next-inside (ids old) none
  after_read-inside (compress old) = refl

  summarize-inside :
      (f : Option (List Entry → Outcome String)) (old : List Entry)
      → inside (summarize_by f world old) ≡ true
  unfolding summarize_by
  summarize-inside none old = refl
  summarize-inside (some f) old = made (f old)
    where
      made : (o : Outcome String) → inside (after_summary world old o) ≡ true
      made (raised e) = refl
      made (returned text) = refl

  delete_step-inside :
      (is : List String) (added : Option Entry) (store : Store)
      → inside (delete_step is added store).0 ≡ true
  unfolding delete_step
  delete_step-inside [] none store = refl
  delete_step-inside [] (some s) store = refl
  delete_step-inside (i ∷ is) added store = delete_next-inside is added

  advance-Turns :
      (p : Point) (store : Store) (lock : Lock)
      → Owns w p lock
      → let (p', store', lock') = advance config world w p store lock in
        Turns w (inside p) lock (inside p') lock'
  unfolding advance acquire compare_lock
  advance-Turns (writing e) store lock o = refl
  advance-Turns (locking left) store none o = (refl, refl)
  advance-Turns (locking zero) store (some t) o = refl
  advance-Turns (locking (suc left)) store (some t) o = refl
  advance-Turns reading store lock o = rw (after_read-inside _) refl
  advance-Turns (summarizing old) store lock o = rw (summarize-inside world.summarize old) refl
  advance-Turns (deleting is added) store lock o = rw (delete_step-inside is added store) refl
  advance-Turns (releasing e) store lock o = rw (o.0 refl, (eq_number.equal_iff w w).1 refl) refl
  advance-Turns (unlocking e) store lock o = refl
  advance-Turns (done e) store lock o = refl

-- The call that has moved, and any other.
turned :
    (w : ℕ) (b b' : Bool) (l l' : Lock)
    → Turns w b l b' l'
    → (b ≡ true) ↔ (l ≡ some w)
    → (b' ≡ true) ↔ (l' ≡ some w)
turned w true true l l' t o = ground (arith, t, o)
turned w true false l l' t o = ground (arith, t, o)
turned w false true l l' t o = ground (arith, t, o)
turned w false false l l' t o = ground (arith, t, o)

bystander :
    (w v : ℕ) (b b' q : Bool) (l l' : Lock)
    → (w == v) ≡ false
    → Turns w b l b' l'
    → (b ≡ true) ↔ (l ≡ some w)
    → (q ≡ true) ↔ (l ≡ some v)
    → (q ≡ true) ↔ (l' ≡ some v)
bystander w v true true q l l' n t o h = rw t h
bystander w v true false q l l' n t o h = ground (arith, n, t, o.0 refl, h)
bystander w v false true q l l' n t o h = ground (arith, n, t, h)
bystander w v false false q l l' n t o h = rw t h

module _ (config : MemoryConfig) (world : ℕ → World) where
  occur-Holds : (w : ℕ) (s : System) → Holds s → Holds (occur config world (move w) s)
  unfolding occur
  occur-Holds w s h v =
      let (p, store, lock) = advance config (world w) w (s.point w) s.store s.lock in
      let turns = advance-Turns config (world w) w (s.point w) s.store s.lock (h w) in
      if-cases (λ (q : Point). (inside q ≡ true) ↔ (lock ≡ some v)) (w == v) p (s.point v)
        (λ e.
          subst (λ u. (inside p ≡ true) ↔ (lock ≡ some u)) ((eq_number.equal_iff w v).0 e)
            (turned w (inside (s.point w)) (inside p) s.lock lock turns (h w)))
        (λ e.
          bystander w v (inside (s.point w)) (inside p) (inside (s.point v)) s.lock lock e turns
            (h w) (h v))

  play-Holds : (ws : List ℕ) (s : System) → Holds s → Holds (play config world (map move ws) s)
  unfolding play
  play-Holds [] s h = h
  play-Holds (w ∷ ws) s h = play-Holds ws (occur config world (move w) s) (occur-Holds w s h)

-- While the lock does not run out of its time to live, the interleaved steps of any number of calls
-- keep the lock with the call that is between its acquisition and its release, and free where no
-- call is; so two calls are never there at once.
pub play_exclusive :
    (config : MemoryConfig) (world : ℕ → World) (ws : List ℕ) (s : System)
    → Holds s
    → let s' = play config world (map move ws) s in
      Holds s' × ((v w : ℕ) → inside (s'.point v) ≡ true → inside (s'.point w) ≡ true → v ≡ w)
play_exclusive config world ws s h =
    let held = play-Holds config world ws s h in
    (held, λ v w i j. ground (arith, (held v).0 i, (held w).0 j))
