-- ===== src/Patterns/Cycle/Walks.antt =====
-- The path that is reported for an edge back to a node that is being visited.
use mathlib.Core.List.{reverse, reverse-cons, reverse-append, append-nil, append_assoc}
use motoro.Prelude.{
  ℕ, zero, suc, ◌≤◌, String, eq_text, true, ◌==◌, Option, none, some, List, [], ◌∷◌, ◌++◌, Dict,
  get_or, has, length, Bool-cases, inl, inr, ◌≡◌, refl, sym, ap, ◌∙◌, subst, arith, In,
}
use motoro.Patterns.Cycle.{climb, reconstruct}

-- A list with an entry.
abbrev pub Filled : List String → Type 0
Filled xs = (first : String) × ((rest : List String) × (xs ≡ first ∷ rest))

module _ (graph : Dict String (List String)) where
  -- `node` has the dependency `dep`.
  abbrev pub Edge : String → String → Type 0
  Edge node dep = has (get_or graph node []) dep ≡ true

  -- Each entry has the next one as a dependency, and `last` is the last one.
  abbrev pub WalkTo : List String → String → Type 0
  WalkTo [] last = ⊥
  WalkTo (x ∷ []) last = x ≡ last
  WalkTo (x ∷ y ∷ zs) last = Edge x y × WalkTo (y ∷ zs) last

  -- A walk that ends where it began, of one edge at least.
  abbrev pub ClosedWalk : List String → Type 0
  ClosedWalk cycle =
      (s : String) × ((mid : List String) × (cycle ≡ s ∷ (mid ++ s ∷ [])) × WalkTo cycle s)

  -- The same against the edges.
  abbrev pub UpTo : List String → String → Type 0
  UpTo [] last = ⊥
  UpTo (x ∷ []) last = x ≡ last
  UpTo (x ∷ y ∷ zs) last = Edge y x × UpTo (y ∷ zs) last

  UpTo-append : (xs : List String) (n m : String) → UpTo xs n → Edge m n → UpTo (xs ++ m ∷ []) m
  UpTo-append [] n m e d = elim e [ ]
  UpTo-append (x ∷ []) n m e d = (subst (λ z. Edge m z) (sym e) d, refl)
  UpTo-append (x ∷ y ∷ zs) n m (e, u) d = (e, UpTo-append (y ∷ zs) n m u d)

  WalkTo-append :
      (xs : List String) (n m : String) → WalkTo xs n → Edge n m → WalkTo (xs ++ m ∷ []) m
  WalkTo-append [] n m e d = elim e [ ]
  WalkTo-append (x ∷ []) n m e d = (subst (λ z. Edge z m) (sym e) d, refl)
  WalkTo-append (x ∷ y ∷ zs) n m (e, u) d = (e, WalkTo-append (y ∷ zs) n m u d)

  -- A node, its parent, and so on up to a node without a parent, each a dependency of the next.
  abbrev pub Chain : Dict String (Option String) → List String → Type 0
  Chain parent [] = ⊥
  Chain parent (n ∷ []) = get_or parent n none ≡ none
  Chain parent (n ∷ m ∷ ps) = (get_or parent n none ≡ some m) × Edge m n × Chain parent (m ∷ ps)

  -- From a list that ends at `n` the climb comes to an end, and where `dep` is among the ancestors
  -- it ends there.
  climb_lem :
      (fuel : ℕ) (parent : Dict String (Option String)) (n : String) (ps : List String)
      (dep : String) (cycle : List String)
      → length (n ∷ ps) ≤ fuel
      → Chain parent (n ∷ ps)
      → (c : List String) × ((climb fuel parent (get_or parent n none) dep cycle ≡ some c)
          × ((rest : List String) × (c ≡ cycle ++ rest))
          × (In dep ps → UpTo cycle n → UpTo (c ++ dep ∷ []) dep))
  unfolding climb
  climb_lem zero parent n ps dep cycle l h = absurd (omega (arith, l))
  climb_lem (suc fuel) parent n [] dep cycle l h =
      (cycle, (rw h refl, ([], sym (append-nil cycle)), λ i u. elim i [ ]))
  climb_lem (suc fuel) parent n (m ∷ ps) dep cycle l (e, d, h) = elim (Bool-cases (m == dep)) [
    | inl b ↦ (
      cycle,
      (
        rw (e, b) refl,
        ([], sym (append-nil cycle)),
        λ i u. UpTo-append cycle n dep u (subst (λ z. Edge z n) ((eq_text.equal_iff m dep).0 b) d),
      ),
    )
    | inr b ↦
        let (c, (r, (rest, f), up)) =
          climb_lem fuel parent m ps dep (cycle ++ m ∷ []) (omega (arith, l)) h in
        (
          c,
          (
            rw (e, b) r,
            (m ∷ rest, f ∙ append_assoc cycle (m ∷ []) rest),
            λ i u. elim i [
              | inl x ↦ absurd (ground (arith, b, x, eq_text.equal_iff m dep))
              | inr i' ↦ up i' (UpTo-append cycle n m u d)
            ],
          ),
        )
  ]

  WalkTo-reverse :
      (x : String) (xs : List String) (n : String) → UpTo (x ∷ xs) n → WalkTo (reverse (x ∷ xs)) x
  WalkTo-reverse x [] n u = refl
  WalkTo-reverse x (y ∷ xs) n (e, u) =
      subst (λ l. WalkTo l x) (sym (reverse-cons x (y ∷ xs)))
        (WalkTo-append (reverse (y ∷ xs)) y x (WalkTo-reverse y xs n u) e)

  -- The path that is reported, against the edges: dep, node, its ancestors, dep.
  ClosedWalk-reverse :
      (dep : String) (rest : List String)
      → UpTo (dep ∷ (rest ++ dep ∷ [])) dep
      → ClosedWalk (reverse (dep ∷ (rest ++ dep ∷ [])))
  ClosedWalk-reverse dep rest u = (
    dep,
    (
      reverse rest,
      reverse-cons dep (rest ++ dep ∷ [])
          ∙ ap (λ l. l ++ dep ∷ []) (reverse-append rest (dep ∷ [])),
      WalkTo-reverse dep (rest ++ dep ∷ []) dep u,
    ),
  )

  pub reconstruct_lem :
      (fuel : ℕ) (parent : Dict String (Option String)) (node : String) (ps : List String)
      (dep : String)
      → length (node ∷ ps) ≤ fuel
      → Chain parent (node ∷ ps)
      → Edge node dep
      → (c : List String) × ((reconstruct fuel parent node dep ≡ some c)
          × (In dep ps → ClosedWalk c)
          × Filled c)
  unfolding reconstruct
  reconstruct_lem fuel parent node ps dep l h d =
      let (c, (r, (rest, f), up)) = climb_lem fuel parent node ps dep (dep ∷ node ∷ []) l h in
      (
        reverse (c ++ dep ∷ []),
        (
          rw r refl,
          λ i.
              subst (λ z. ClosedWalk (reverse (z ++ dep ∷ []))) (sym f)
                (ClosedWalk-reverse dep (node ∷ rest)
                  (subst (λ z. UpTo (z ++ dep ∷ []) dep) f (up i (d, refl)))),
          (dep, (reverse c, reverse-append c (dep ∷ []))),
        ),
      )
