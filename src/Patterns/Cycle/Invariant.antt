-- ===== src/Patterns/Cycle/Invariant.antt =====
-- What the search keeps: the colours, the parents, and the nodes that are being visited.
use motoro.Prelude.{
  ℕ, suc, ◌+◌, ◌≤◌, String, eq_text, true, false, ◌==◌, Option, none, some, List, [], ◌∷◌, Dict,
  get_or, get_or-put, has, length, Bool-cases, inl, inr, ◌≡◌, ◌⊎◌, refl, sym, ap, ◌∙◌, subst, arith,
  In, All,
}
use motoro.Patterns.Cycle.{white, grey, black, Search, paint, adopt}
use motoro.Patterns.Cycle.Walks.{Edge, Chain, ClosedWalk, Filled}
use motoro.Patterns.Cycle.Colours.{
  is_white, is_grey, colour_of, parent_of, whites, whites-put, whites-put_le, Frame, apart,
  parent_of-adopt, colour_of-paint,
}

-- No node depends on itself.
abbrev pub NoSelf : Dict String (List String) → Type 0
NoSelf graph = (k : String) → has (get_or graph k []) k ≡ false

module _ (limit : ℕ) (graph : Dict String (List String)) where
  -- The search has come back: with a list that is a closed walk, or with all as it was but for visited nodes.
  abbrev pub Back : Search → Option (Search × Option (List String)) → Type 0
  Back st none = ⊥
  Back st (some (st', some cycle)) = (NoSelf graph → ClosedWalk graph cycle) × Filled cycle
  Back st (some (st', none)) =
      Frame st st'
      × (whites st'.colour ≤ whites st.colour)
      × ((k : String) → is_grey (colour_of st' k) ≡ true → is_grey (colour_of st k) ≡ true)

  -- Where no cycle is found, the node is visited.
  abbrev pub Arrived : String → Option (Search × Option (List String)) → Type 0
  Arrived node (some (st', none)) = is_white (colour_of st' node) ≡ false
  Arrived node _ = Unit

  -- While the first node of the path is visited: the path is the chain of the grey nodes, and there
  -- is fuel for each node that is left.
  pub record Ready (path : List String) (fuel : ℕ) (st : Search) : Type 0 where
    pub chain : Chain graph st.parent path
    pub seen : All (λ k. is_white (colour_of st k) ≡ false) path
    pub greys : (k : String) → is_grey (colour_of st k) ≡ true → In k path
    pub room : whites st.colour + length path ≤ limit
    pub enough : whites st.colour ≤ fuel

  -- Before a white node is visited.
  pub record Enter (node : String) (path : List String) (fuel : ℕ) (st : Search) : Type 0 where
    pub fresh : colour_of st node ≡ some white
    pub chain : Chain graph st.parent (node ∷ path)
    pub seen : All (λ k. is_white (colour_of st k) ≡ false) path
    pub greys : (k : String) → is_grey (colour_of st k) ≡ true → In k path
    pub room : whites st.colour + length path ≤ limit
    pub enough : whites st.colour ≤ fuel

  Chain-parents :
      (st st' : Search) (path : List String)
      → Chain graph st.parent path
      → All (λ k. parent_of st' k ≡ parent_of st k) path
      → Chain graph st'.parent path
  Chain-parents st st' [] h p = h
  Chain-parents st st' (n ∷ []) h p = p.0 ∙ h
  Chain-parents st st' (n ∷ m ∷ ps) (e, d, h) p = (p.0 ∙ e, d, Chain-parents st st' (m ∷ ps) h p.1)

  All-from :
      (P Q : String → Type 0) (path : List String)
      → ((k : String) → P k → Q k)
      → All P path
      → All Q path
  All-from P Q [] f h = tt
  All-from P Q (k ∷ ks) f h = (f k h.0, All-from P Q ks f h.1)

  pub Ready-Back :
      (path : List String) (fuel : ℕ) (st st' : Search)
      → Ready path fuel st
      → Back st (some (st', none))
      → Ready path fuel st'
  Ready-Back path fuel st st' r (f, w, g) = record {
    chain = Chain-parents st st' path r.chain (
        All-from (λ k. is_white (colour_of st k) ≡ false) (λ k. parent_of st' k ≡ parent_of st k)
          path (λ k n. grind (arith, f k, n)) r.seen);
    seen =
        All-from (λ k. is_white (colour_of st k) ≡ false) (λ k. is_white (colour_of st' k) ≡ false)
          path (λ k n. (f k).0 n) r.seen;
    greys = λ k e. r.greys k (g k e);
    room = omega (arith, r.room, w);
    enough = omega (arith, r.enough, w);
  }

  -- A white dependency of the node that is visited is entered with the node as its parent.
  pub Enter-adopt :
      (node dep : String) (ps : List String) (fuel : ℕ) (st : Search)
      → Ready (node ∷ ps) fuel st
      → Edge graph node dep
      → colour_of st dep ≡ some white
      → Enter dep (node ∷ ps) fuel (adopt dep node st)
  unfolding adopt
  Enter-adopt node dep ps fuel st r d e = record {
    fresh = e;
    chain = (
      rw (get_or-put st.parent dep dep (some node) none, (eq_text.equal_iff dep dep).1 refl) refl,
      d,
      Chain-parents st (adopt dep node st) (node ∷ ps) r.chain (
          All-from (λ k. is_white (colour_of st k) ≡ false)
            (λ k. parent_of (adopt dep node st) k ≡ parent_of st k) (node ∷ ps)
            (λ k n. parent_of-adopt node dep st k (apart st dep k e n)) r.seen),
    );
    seen = r.seen;
    greys = r.greys;
    room = r.room;
    enough = r.enough;
  }

  -- What holds of the adopted node's search holds of the one before.
  pub Back-adopt :
      (node dep : String) (st : Search) (r : Option (Search × Option (List String)))
      → colour_of st dep ≡ some white
      → Back (adopt dep node st) r
      → Arrived dep r
      → Back st r
  unfolding adopt
  Back-adopt node dep st none e b a = b
  Back-adopt node dep st (some (st', some cycle)) e b a = b
  Back-adopt node dep st (some (st', none)) e (f, w, g) a = (
    λ k. (
      (f k).0,
      elim (Bool-cases (dep == k)) [
        | inl b ↦
            let same = (eq_text.equal_iff dep k).0 b in
            inr (
              subst (λ z. is_white (colour_of st z) ≡ true) same (ground (arith, e)),
              subst (λ z. is_white (colour_of st' z) ≡ false) same a,
            )
        | inr b ↦ elim ((f k).1) [
          | inl p ↦ inl (p ∙ parent_of-adopt node dep st k b)
          | inr q ↦ inr q
        ]
      ],
    ),
    w,
    g,
  )

  -- A white node that is painted grey.
  pub Ready-paint :
      (node : String) (path : List String) (fuel : ℕ) (st : Search)
      → Enter node path (suc fuel) st
      → Ready (node ∷ path) fuel (paint node grey st)
  unfolding paint
  Ready-paint node path fuel st r = record {
    chain = r.chain;
    seen = (
      rw (colour_of-paint node grey st node, (eq_text.equal_iff node node).1 refl) refl,
      All-from (λ k. is_white (colour_of st k) ≡ false)
          (λ k. is_white (colour_of (paint node grey st) k) ≡ false) path
          (λ k n. ground (arith, n, colour_of-paint node grey st k)) r.seen,
    );
    greys = λ k e. painted k e;
    room = omega (arith, r.room, whites-put st.colour node grey refl r.fresh);
    enough = omega (arith, r.enough, whites-put st.colour node grey refl r.fresh);
  }
    where
      painted :
          (k : String) → is_grey (colour_of (paint node grey st) k) ≡ true → (node ≡ k) ⊎ In k path
      painted k e = elim (Bool-cases (node == k)) [
        | inl b ↦ inl ((eq_text.equal_iff node k).0 b)
        | inr b ↦ inr (r.greys k (ground (arith, e, b, colour_of-paint node grey st k)))
      ]

  -- The node is painted grey, its dependencies are searched, and it is painted black.
  pub Back-blacken :
      (node : String) (st st' : Search)
      → colour_of st node ≡ some white
      → Back (paint node grey st) (some (st', none))
      → Back st (some (paint node black st', none))
  unfolding paint
  Back-blacken node st st' e (f, w, g) = (
    λ k. elim (Bool-cases (node == k)) [
      | inl b ↦
          let same = (eq_text.equal_iff node k).0 b in
          let dark : is_white (colour_of (paint node black st') k) ≡ false =
            ground (arith, b, colour_of-paint node black st' k) in
          (
            λ n. dark,
            inr (subst (λ z. is_white (colour_of st z) ≡ true) same (ground (arith, e)), dark),
          )
      | inr b ↦
          let before : colour_of (paint node grey st) k ≡ colour_of st k =
            rw (colour_of-paint node grey st k, b) refl in
          let later : colour_of (paint node black st') k ≡ colour_of st' k =
            rw (colour_of-paint node black st' k, b) refl in
          (
            λ n. ap is_white later ∙ (f k).0 (ap is_white before ∙ n),
            elim ((f k).1) [
              | inl p ↦ inl p
              | inr (q, n) ↦ inr (sym (ap is_white before) ∙ q, ap is_white later ∙ n)
            ],
          )
    ],
    omega
        (arith, w, whites-put st.colour node grey refl e, whites-put_le st'.colour node black refl),
    λ k h. elim (Bool-cases (node == k)) [
      | inl b ↦ absurd (ground (arith, h, b, colour_of-paint node black st' k))
      | inr b ↦
          let before : colour_of (paint node grey st) k ≡ colour_of st k =
            rw (colour_of-paint node grey st k, b) refl in
          sym (ap is_grey before) ∙ g k (ground (arith, h, b, colour_of-paint node black st' k))
    ],
  )
