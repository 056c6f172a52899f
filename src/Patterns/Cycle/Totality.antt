-- ===== src/Patterns/Cycle/Totality.antt =====
-- The search for a cycle comes to an end, and what it reports is a cycle.
use motoro.Prelude.{
  ℕ, zero, suc, ◌+◌, ◌≤◌, String, eq_text, true, false, Option, none, some, List, [], ◌∷◌, Dict,
  get, get_or, put, get-put, get_or-put, has, length, Bool-cases, inl, inr, ◌≡◌, refl, subst, arith,
  All,
}
use motoro.Patterns.Dependencies.{◌>>=◌}
use motoro.Patterns.Cycle.{
  Colour, white, grey, black, Search, Found, paint, adopt, report, reconstruct, visit_edge, proceed,
  visit_edges, blacken, dfs, start_at, search_all, verdict, detect_cycle, init_colour, init_parent,
}
use motoro.Patterns.Cycle.Walks.{Edge, ClosedWalk, Filled, reconstruct_lem}
use motoro.Patterns.Cycle.Colours.{
  is_white, is_grey, colour_of, parent_of, whites, whites-put, whites-put_white, Frame-refl,
  Frame-trans, colour_of-paint,
}
use motoro.Patterns.Cycle.Invariant.{
  NoSelf, Back, Arrived, Ready, Enter, Ready-Back, Enter-adopt, Back-adopt, Ready-paint,
  Back-blacken,
}

module _ (limit : ℕ) (graph : Dict String (List String)) where
  Back-refl : (st : Search) → Back limit graph st (some (st, none))
  Back-refl st = (Frame-refl st, omega arith, λ k g. g)

  Back-trans :
      (a b : Search) (r : Option Found)
      → Back limit graph a (some (b, none))
      → Back limit graph b r
      → Back limit graph a r
  Back-trans a b none h r = r
  Back-trans a b (some (c, some cycle)) h r = r
  Back-trans a b (some (c, none)) (f, w, g) (f', w', g') =
      (Frame-trans a b c f f', omega (arith, w, w'), λ k h. g k (g' k h))

  -- What follows a search that has come back.
  then-Back :
      (st : Search) (r : Option Found) (k : Search → Option Found)
      → Back limit graph st r
      → ((st' : Search) → Back limit graph st (some (st', none)) → Back limit graph st (k st'))
      → Back limit graph st (r >>= proceed limit graph k)
  unfolding proceed
  then-Back st none k b f = elim b [ ]
  then-Back st (some (st', some cycle)) k b f = b
  then-Back st (some (st', none)) k b f = f st' b

  -- A dependency that is being visited: a path is reported.
  report-Back :
      (node dep : String) (ps : List String) (fuel : ℕ) (st : Search)
      → Ready limit graph (node ∷ ps) fuel st
      → Edge graph node dep
      → colour_of st dep ≡ some grey
      → Back limit graph st (report st (reconstruct limit st.parent node dep))
  unfolding report
  report-Back node dep ps fuel st r d e =
      let (c, (m, closed, filled)) =
        reconstruct_lem graph limit st.parent node ps dep (omega (arith, r.room)) r.chain d in
      rw m (
        (λ free. closed (elim (r.greys dep (ground (arith, e))) [
          | inl same ↦ absurd (ground (arith, d, free node, same))
          | inr i ↦ i
        ])),
        filled,
      )

  -- `recurse` searches from any white node.
  abbrev Searches : ℕ → (String → Search → Option Found) → Type 0
  Searches fuel recurse =
      (node : String) (path : List String) (st : Search)
      → Enter limit graph node path fuel st
      → Back limit graph st (recurse node st) × Arrived limit graph node (recurse node st)

  visit_edge-Back :
      (recurse : String → Search → Option Found) (fuel : ℕ) (node dep : String) (ps : List String)
      (c : Option Colour) (st : Search)
      → Searches fuel recurse
      → Ready limit graph (node ∷ ps) fuel st
      → Edge graph node dep
      → colour_of st dep ≡ c
      → Back limit graph st (visit_edge limit graph recurse node dep c st)
  unfolding visit_edge
  visit_edge-Back recurse fuel node dep ps none st go r d e = Back-refl st
  visit_edge-Back recurse fuel node dep ps (some grey) st go r d e =
      report-Back node dep ps fuel st r d e
  visit_edge-Back recurse fuel node dep ps (some black) st go r d e = Back-refl st
  visit_edge-Back recurse fuel node dep ps (some white) st go r d e =
      let (b, a) =
        go dep (node ∷ ps) (adopt dep node st)
          (Enter-adopt limit graph node dep ps fuel st r d e) in
      Back-adopt limit graph node dep st (recurse dep (adopt dep node st)) e b a

  visit_edges-Back :
      (recurse : String → Search → Option Found) (fuel : ℕ) (node : String) (ps deps : List String)
      (st : Search)
      → Searches fuel recurse
      → Ready limit graph (node ∷ ps) fuel st
      → All (λ d. Edge graph node d) deps
      → Back limit graph st (visit_edges limit graph recurse node deps st)
  unfolding visit_edges
  visit_edges-Back recurse fuel node ps [] st go r ds = Back-refl st
  visit_edges-Back recurse fuel node ps (dep ∷ deps) st go r ds =
      then-Back st (visit_edge limit graph recurse node dep (get st.colour dep) st)
        (visit_edges limit graph recurse node deps)
        (visit_edge-Back recurse fuel node dep ps (get st.colour dep) st go r ds.0 refl)
        (λ st' b. Back-trans st st' (visit_edges limit graph recurse node deps st') b (
          visit_edges-Back recurse fuel node ps deps st' go
            (Ready-Back limit graph (node ∷ ps) fuel st st' r b) ds.1))

  All-Edge :
      (node : String) (deps : List String)
      → ((d : String) → has deps d ≡ true → Edge graph node d)
      → All (λ d. Edge graph node d) deps
  All-Edge node [] f = tt
  All-Edge node (d ∷ ds) f = (
    f d (ground (arith, (eq_text.equal_iff d d).1 refl)),
    All-Edge node ds (λ x h. f x (ground (arith, h))),
  )

  dfs-Back : (fuel : ℕ) → Searches fuel (dfs limit graph fuel)
  unfolding dfs blacken
  dfs-Back zero node path st r =
      absurd (omega (arith, r.enough, whites-put st.colour node grey refl r.fresh))
  dfs-Back (suc fuel) node path st r =
      let deps = get_or graph node [] in
      let st1 = paint node grey st in
      visited (visit_edges limit graph (dfs limit graph fuel) node deps st1) (
        visit_edges-Back (dfs limit graph fuel) fuel node path deps st1 (dfs-Back fuel)
          (Ready-paint limit graph node path fuel st r) (All-Edge node deps (λ d h. h)))
    where
      visited :
          (r' : Option Found)
          → Back limit graph (paint node grey st) r'
          → Back limit graph st (r' >>= proceed limit graph (blacken limit graph node))
            × Arrived limit graph node (r' >>= proceed limit graph (blacken limit graph node))
      visited none b = elim b [ ]
      visited (some (st', some cycle)) b = (b, tt)
      visited (some (st', none)) b = (
        Back-blacken limit graph node st st' r.fresh b,
        rw (colour_of-paint node black st' node, (eq_text.equal_iff node node).1 refl) refl,
      )

  -- Between the searches from the slugs: nothing is being visited, and what is white has no parent.
  pub record Top (fuel : ℕ) (st : Search) : Type 0 where
    pub orphan : (k : String) → is_white (colour_of st k) ≡ true → parent_of st k ≡ none
    pub calm : (k : String) → is_grey (colour_of st k) ≡ false
    pub enough : whites st.colour ≤ fuel
    pub room : whites st.colour ≤ limit

  pub Top-Back :
      (fuel : ℕ) (st st' : Search)
      → Top fuel st
      → Back limit graph st (some (st', none))
      → Top fuel st'
  Top-Back fuel st st' t (f, w, g) = record {
    orphan = λ k h. grind (arith, h, f k, t.orphan k);
    calm = λ k. elim (Bool-cases (is_grey (colour_of st' k))) [
      | inl e ↦ absurd (ground (arith, g k e, t.calm k))
      | inr e ↦ e
    ];
    enough = omega (arith, w, t.enough);
    room = omega (arith, w, t.room);
  }

  pub start_at-Back :
      (fuel : ℕ) (s : String) (c : Option Colour) (st : Search)
      → Top fuel st
      → colour_of st s ≡ c
      → Back limit graph st (start_at limit graph (dfs limit graph fuel s) c st)
  unfolding start_at
  start_at-Back fuel s none st t e = Back-refl st
  start_at-Back fuel s (some grey) st t e = Back-refl st
  start_at-Back fuel s (some black) st t e = Back-refl st
  start_at-Back fuel s (some white) st t e =
      (dfs-Back fuel s [] st (record {
        fresh = e;
        chain = t.orphan s (ground (arith, e));
        seen = tt;
        greys = λ k h. absurd (ground (arith, h, t.calm k));
        room = omega (arith, t.room);
        enough = t.enough;
      })).0

  search_all-Back :
      (fuel : ℕ) (ss : List String) (st : Search)
      → Top fuel st
      → Back limit graph st (search_all limit graph fuel ss st)
  unfolding search_all
  search_all-Back fuel [] st t = Back-refl st
  search_all-Back fuel (s ∷ ss) st t =
      then-Back st (start_at limit graph (dfs limit graph fuel s) (get st.colour s) st)
        (search_all limit graph fuel ss) (start_at-Back fuel s (get st.colour s) st t refl)
        (λ st' b.
          Back-trans st st' (search_all limit graph fuel ss st') b
            (search_all-Back fuel ss st' (Top-Back fuel st st' t b)))

whites-init_colour :
    (ss : List String) (d : Dict String Colour) → whites (init_colour ss d) ≤ whites d + length ss
unfolding init_colour
whites-init_colour [] d = omega arith
whites-init_colour (s ∷ ss) d =
    omega (arith, whites-init_colour ss (put d s white), whites-put_white d s)

grey-init_colour :
    (ss : List String) (d : Dict String Colour) (k : String)
    → is_grey (get d k) ≡ false
    → is_grey (get (init_colour ss d) k) ≡ false
unfolding init_colour
grey-init_colour [] d k h = h
grey-init_colour (s ∷ ss) d k h =
    grey-init_colour ss (put d s white) k (ground (arith, h, get-put d s k white))

get_or-init_parent :
    (ss : List String) (d : Dict String (Option String)) (k : String)
    → get_or d k none ≡ none
    → get_or (init_parent ss d) k none ≡ none
unfolding init_parent
get_or-init_parent [] d k h = h
get_or-init_parent (s ∷ ss) d k h =
    get_or-init_parent ss (put d s none) k (ground (arith, h, get_or-put d s k none none))

-- The dicts at the start of the search.
abbrev pub initial : List String → Search
initial slugs = record { colour = init_colour slugs []; parent = init_parent slugs [] }

pub initial-Top :
    (graph : Dict String (List String)) (slugs : List String)
    → Top (suc (length slugs)) graph (suc (length slugs)) (initial slugs)
unfolding get get_or
initial-Top graph slugs = record {
  orphan = λ k h. get_or-init_parent slugs [] k refl;
  calm = λ k. grey-init_colour slugs [] k refl;
  enough = omega (arith, whites-init_colour slugs []);
  room = omega (arith, whites-init_colour slugs []);
}

-- What the search returns is a verdict, and a cycle of it has an entry and is a closed walk.
abbrev pub Sound : Dict String (List String) → Option (Option (List String)) → Type 0
Sound graph r =
    (v : Option (List String)) × ((r ≡ some v)
      × ((cycle : List String)
          → v ≡ some cycle
          → (NoSelf graph → ClosedWalk graph cycle) × Filled cycle))

verdict-Sound :
    (limit : ℕ) (graph : Dict String (List String)) (st : Search) (r : Option Found)
    → Back limit graph st r
    → Sound graph (verdict r)
unfolding verdict
verdict-Sound limit graph st none b = elim b [ ]
verdict-Sound limit graph st (some (st', none)) b =
    (none, (refl, λ c e. absurd (ground (arith, e))))
verdict-Sound limit graph st (some (st', some cycle)) b = (
  some cycle,
  (refl, λ c e. subst (λ z. (NoSelf graph → ClosedWalk graph z) × Filled z) (ground (arith, e)) b),
)

pub detect_cycle-Sound :
    (slugs : List String) (graph : Dict String (List String))
    → Sound graph (detect_cycle slugs graph)
unfolding detect_cycle
detect_cycle-Sound slugs graph =
    let fuel = suc (length slugs) in
    verdict-Sound fuel graph (initial slugs) (search_all fuel graph fuel slugs (initial slugs))
      (search_all-Back fuel graph fuel slugs (initial slugs) (initial-Top graph slugs))

-- The search for a cycle comes to an end on every graph, within the fuel that it is given: one more
-- than the slugs for the depth of its recursion, and as much for the climb along the parents.
pub detect_cycle_total :
    (slugs : List String) (graph : Dict String (List String))
    → (v : Option (List String)) × (detect_cycle slugs graph ≡ some v)
detect_cycle_total slugs graph = let (v, (e, _)) = detect_cycle-Sound slugs graph in (v, e)

-- Where no pattern depends on itself, a cycle that is reported is one: each of its entries has the
-- next one as a dependency, and it ends with the slug that it begins with.
pub detect_cycle-ClosedWalk :
    (slugs : List String) (graph : Dict String (List String)) (cycle : List String)
    → NoSelf graph
    → detect_cycle slugs graph ≡ some (some cycle)
    → ClosedWalk graph cycle
detect_cycle-ClosedWalk slugs graph cycle free e =
    let (v, (r, sound)) = detect_cycle-Sound slugs graph in
    (sound cycle (ground (arith, e, r))).0 free
