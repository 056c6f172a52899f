-- ===== src/Patterns/Cycle/Topological.antt =====
-- A topological order of the dependencies leaves no room for a cycle.
use mathlib.Core.Bool.{false≢true}
use motoro.Prelude.{
  ℕ, suc, ◌≤◌, ◌<◌, String, eq_text, true, List, [], ◌∷◌, ◌++◌, Dict, has, length, Bool-cases, inl,
  inr, if◌then◌else◌, ◌≡◌, sym, ◌∙◌, subst, arith, All,
}
use motoro.Patterns.Unvisited.{later, has-cons}
use motoro.Patterns.Cycle.Walks.{Edge, WalkTo, ClosedWalk}

module _ (slugs : List String) (graph : Dict String (List String)) where
  -- Each slug that an entry depends on comes after the entry.
  abbrev pub Topological : List String → Type 0
  Topological [] = Unit
  Topological (n ∷ ns) =
      ((dep : String) → Edge graph n dep → has slugs dep ≡ true → has ns dep ≡ true)
      × Topological ns

  -- How far from the end of the order the last place of a node is.
  abbrev rank : List String → String → ℕ
  rank [] k = 0
  rank (n ∷ ns) k = let rest = rank ns k in if has ns k then rest else suc (length ns)

  rank-le : (ns : List String) (k : String) → rank ns k ≤ length ns
  rank-le [] k = omega arith
  rank-le (n ∷ ns) k = ground (arith, rank-le ns k)

  -- A dependency comes later.
  descends :
      (ns : List String) (k dep : String)
      → Topological ns
      → has ns k ≡ true
      → Edge graph k dep
      → has slugs dep ≡ true
      → (has ns dep ≡ true) × (rank ns dep < rank ns k)
  descends [] k dep t h d known = absurd (false≢true h)
  descends (n ∷ ns) k dep (f, t) h d known = elim (Bool-cases (has ns k)) [
    | inl deep ↦
        let (there, lt) = descends ns k dep t deep d known in
        (later n ns dep there, rw (deep, there) lt)
    | inr top ↦ elim (has-cons n ns k h) [
      | inl same ↦
          let there = f dep (subst (λ z. Edge graph z dep) (sym same) d) known in
          (later n ns dep there, rw (top, there) (omega (arith, rank-le ns dep)))
      | inr deep ↦ absurd (false≢true (sym top ∙ deep))
    ]
  ]

  walk_descends :
      (ns xs : List String) (x last : String)
      → Topological ns
      → has ns x ≡ true
      → All (λ s. has slugs s ≡ true) xs
      → WalkTo graph (x ∷ xs) last
      → rank ns last ≤ rank ns x
  walk_descends ns [] x last t h known e = ground (arith, e)
  walk_descends ns (y ∷ ys) x last t h known (d, w) =
      let (there, lt) = descends ns x y t h d known.0 in
      omega (arith, lt, walk_descends ns ys y last t there known.1 w)

  round_trip :
      (ns : List String) (s : String) (mid : List String)
      → Topological ns
      → has ns s ≡ true
      → All (λ k. has slugs k ≡ true) (mid ++ s ∷ [])
      → ¬ WalkTo graph (s ∷ (mid ++ s ∷ [])) s
  round_trip ns s [] t h known (d, _) =
      let (_, lt) = descends ns s s t h d known.0 in omega (arith, lt)
  round_trip ns s (y ∷ ys) t h known (d, w) =
      let (there, lt) = descends ns s y t h d known.0 in
      omega (arith, lt, walk_descends ns (ys ++ s ∷ []) y s t there known.1 w)

  pub no_walk :
      (ns cycle : List String)
      → Topological ns
      → ((k : String) → has slugs k ≡ true → has ns k ≡ true)
      → All (λ s. has slugs s ≡ true) cycle
      → ¬ ClosedWalk graph cycle
  no_walk ns cycle t all known (s, (mid, e, w)) =
      let inside = subst (All (λ k. has slugs k ≡ true)) e known in
      round_trip ns s mid t (all s inside.0) inside.1 (subst (λ c. WalkTo graph c s) e w)
