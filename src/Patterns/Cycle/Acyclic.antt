-- ===== src/Patterns/Cycle/Acyclic.antt =====
-- Where the search reports no cycle, the order in which the nodes were left shows that there is none.
use mathlib.Core.Bool.{false≢true}
use motoro.Prelude.{
  ℕ, zero, suc, String, eq_text, Bool, true, false, ◌==◌, ◌||◌, Option, none, some, List, [], ◌∷◌,
  Dict, get, get_or, put, get-put, has, length, Bool-cases, inl, inr, ◌≡◌, refl, sym, ◌∙◌, subst,
  arith, All,
}
use motoro.Patterns.Dependencies.{◌>>=◌}
use motoro.Patterns.Unvisited.{self, later, has-cons}
use motoro.Patterns.Cycle.{
  Colour, white, grey, black, Search, Found, paint, adopt, report, visit_edge, proceed, visit_edges,
  blacken, dfs, start_at, search_all, verdict, detect_cycle, init_colour,
}
use motoro.Patterns.Cycle.Walks.{Edge, ClosedWalk}
use motoro.Patterns.Cycle.Topological.{Topological, no_walk}
use motoro.Patterns.Cycle.Colours.{colour_of, colour_of-paint}
use motoro.Patterns.Cycle.Invariant.{Back}
use motoro.Patterns.Cycle.Totality.{Top, Top-Back, start_at-Back, initial, initial-Top}

abbrev is_black : Option Colour → Bool
is_black (some black) = true
is_black _ = false

abbrev is_some : Option Colour → Bool
is_some none = false
is_some (some c) = true

module _ (slugs : List String) (graph : Dict String (List String)) where
  record Inv (st : Search) : Type 0 where
    pub order : List String
    pub left : (k : String) → is_black (colour_of st k) ≡ true → has order k ≡ true
    pub topological : Topological slugs graph order
    pub present : (k : String) → has slugs k ≡ true → is_some (colour_of st k) ≡ true

  abbrev Mono : Search → Search → Type 0
  Mono st st' = (k : String) → is_black (colour_of st k) ≡ true → is_black (colour_of st' k) ≡ true

  -- A search that has come back without a cycle, to a state with `P`.
  abbrev After : (Search → Type 0) → Search → Option Found → Type 0
  After P st none = Unit
  After P st (some (st', some cycle)) = Unit
  After P st (some (st', none)) = Inv st' × Mono st st' × P st'

  After-then :
      (P Q : Search → Type 0) (limit : ℕ) (a b : Search) (r : Option Found)
      (k : Search → Option Found)
      → After P b r
      → ((c : Search) → r ≡ some (c, none) → Inv c → Mono b c → P c → After Q a (k c))
      → After Q a (r >>= proceed limit graph k)
  unfolding proceed
  After-then P Q limit a b none k h f = tt
  After-then P Q limit a b (some (c, some cycle)) k h f = tt
  After-then P Q limit a b (some (c, none)) k (i, m, p) f = f c refl i m p

  After-trans :
      (P Q : Search → Type 0) (a b : Search) (r : Option Found)
      → Mono a b
      → ((c : Search) → Mono b c → P c → Q c)
      → After P b r
      → After Q a r
  After-trans P Q a b none m f h = tt
  After-trans P Q a b (some (c, some cycle)) m f h = tt
  After-trans P Q a b (some (c, none)) m f (i, m', p) = (i, (λ k e. m' k (m k e)), f c m' p)

  -- A dependency that is a slug has been left.
  abbrev Left : String → Search → Type 0
  Left dep st = has slugs dep ≡ true → is_black (colour_of st dep) ≡ true

  abbrev Searches : (String → Search → Option Found) → Type 0
  Searches recurse =
      (node : String) (st : Search)
      → colour_of st node ≡ some white
      → Inv st
      → After (λ st'. is_black (colour_of st' node) ≡ true) st (recurse node st)

  report_ok :
      (P : Search → Type 0) (st : Search) (c : Option (List String)) → After P st (report st c)
  unfolding report
  report_ok P st none = tt
  report_ok P st (some c) = tt

  adopted : (node dep : String) (st : Search) → Inv st → Inv (adopt dep node st)
  unfolding adopt
  adopted node dep st i = record {
    order = i.order;
    left = i.left;
    topological = i.topological;
    present = i.present;
  }

  visit_edge_ok :
      (limit : ℕ) (recurse : String → Search → Option Found) (node dep : String) (c : Option Colour)
      (st : Search)
      → Searches recurse
      → colour_of st dep ≡ c
      → Inv st
      → After (Left dep) st (visit_edge limit graph recurse node dep c st)
  unfolding visit_edge adopt
  visit_edge_ok limit recurse node dep none st go e i =
      (i, (λ k h. h), λ known. absurd (ground (arith, e, i.present dep known)))
  visit_edge_ok limit recurse node dep (some grey) st go e i = report_ok (Left dep) st _
  visit_edge_ok limit recurse node dep (some black) st go e i =
      (i, (λ k h. h), λ known. ground (arith, e))
  visit_edge_ok limit recurse node dep (some white) st go e i =
      After-trans (λ st'. is_black (colour_of st' dep) ≡ true) (Left dep) st (adopt dep node st)
        (recurse dep (adopt dep node st)) (λ k h. h) (λ c m p known. p)
        (go dep (adopt dep node st) e (adopted node dep st i))

  visit_edges_ok :
      (limit : ℕ) (recurse : String → Search → Option Found) (node : String) (deps : List String)
      (st : Search)
      → Searches recurse
      → Inv st
      → After
          (λ st'. (dep : String) → has deps dep ≡ true → Left dep st')
          st
          (visit_edges limit graph recurse node deps st)
  unfolding visit_edges
  visit_edges_ok limit recurse node [] st go i = (i, (λ k h. h), λ dep h. absurd (false≢true h))
  visit_edges_ok limit recurse node (d ∷ ds) st go i =
      After-then (Left d) (λ st'. (dep : String) → has (d ∷ ds) dep ≡ true → Left dep st') limit st
        st (visit_edge limit graph recurse node d (get st.colour d) st)
        (visit_edges limit graph recurse node ds)
        (visit_edge_ok limit recurse node d (get st.colour d) st go refl i)
        (λ st' e i' m l.
          After-trans (λ c. (dep : String) → has ds dep ≡ true → Left dep c)
            (λ c. (dep : String) → has (d ∷ ds) dep ≡ true → Left dep c) st st'
            (visit_edges limit graph recurse node ds st') m
            (λ c m' h dep there known. elim (has-cons d ds dep there) [
              | inl same ↦
                  subst (λ z. is_black (colour_of c z) ≡ true) same
                    (m' d (l (subst (λ z. has slugs z ≡ true) (sym same) known)))
              | inr rest ↦ h dep rest known
            ])
            (visit_edges_ok limit recurse node ds st' go i'))

  painted :
      (node : String) (st : Search)
      → colour_of st node ≡ some white
      → Inv st
      → Inv (paint node grey st)
  painted node st e i = record {
    order = i.order;
    left = λ k h. i.left k (ground (arith, h, colour_of-paint node grey st k));
    topological = i.topological;
    present = λ k known. ground (arith, i.present k known, colour_of-paint node grey st k);
  }

  blackened :
      (node : String) (st : Search)
      → Inv st
      → ((dep : String) → Edge graph node dep → Left dep st)
      → Inv (paint node black st)
  blackened node st i l = record {
    order = node ∷ i.order;
    left = λ k h. elim (Bool-cases (node == k)) [
      | inl b ↦ ground (arith, b)
      | inr b ↦
          later node i.order k (i.left k (ground (arith, h, b, colour_of-paint node black st k)))
    ];
    topological = (λ dep d known. i.left dep (l dep d known), i.topological);
    present = λ k known. ground (arith, i.present k known, colour_of-paint node black st k);
  }

  Mono-visit :
      (node : String) (st st' : Search)
      → colour_of st node ≡ some white
      → Mono (paint node grey st) st'
      → Mono st (paint node black st')
  Mono-visit node st st' e m k h = elim (Bool-cases (node == k)) [
    | inl b ↦ ground (arith, b, colour_of-paint node black st' k)
    | inr b ↦
        let still : is_black (colour_of (paint node grey st) k) ≡ true =
          ground (arith, h, b, colour_of-paint node grey st k) in
        ground (arith, b, m k still, colour_of-paint node black st' k)
  ]

  dfs_ok : (limit fuel : ℕ) → Searches (dfs limit graph fuel)
  unfolding dfs blacken
  dfs_ok limit zero node st e i = tt
  dfs_ok limit (suc fuel) node st e i =
      let deps = get_or graph node [] in
      let st1 = paint node grey st in
      After-then (λ st'. (dep : String) → has deps dep ≡ true → Left dep st')
        (λ st'. is_black (colour_of st' node) ≡ true) limit st st1
        (visit_edges limit graph (dfs limit graph fuel) node deps st1) (blacken limit graph node)
        (visit_edges_ok limit (dfs limit graph fuel) node deps st1 (dfs_ok limit fuel)
          (painted node st e i))
        (λ st' _ i' m l. (
          blackened node st' i' l,
          Mono-visit node st st' e m,
          ground (arith, colour_of-paint node black st' node, (eq_text.equal_iff node node).1 refl),
        ))

  start_at_ok :
      (limit fuel : ℕ) (s : String) (c : Option Colour) (st : Search)
      → has slugs s ≡ true
      → Top limit graph fuel st
      → colour_of st s ≡ c
      → Inv st
      → After
          (λ st'. is_black (colour_of st' s) ≡ true)
          st
          (start_at limit graph (dfs limit graph fuel s) c st)
  unfolding start_at
  start_at_ok limit fuel s none st known t e i = absurd (ground (arith, e, i.present s known))
  start_at_ok limit fuel s (some grey) st known t e i = absurd (ground (arith, e, t.calm s))
  start_at_ok limit fuel s (some black) st known t e i = (i, (λ k h. h), ground (arith, e))
  start_at_ok limit fuel s (some white) st known t e i = dfs_ok limit fuel s st e i

  search_all_ok :
      (limit fuel : ℕ) (ss : List String) (st : Search)
      → ((k : String) → has ss k ≡ true → has slugs k ≡ true)
      → Top limit graph fuel st
      → Inv st
      → After
          (λ st'. (k : String) → has ss k ≡ true → is_black (colour_of st' k) ≡ true)
          st
          (search_all limit graph fuel ss st)
  unfolding search_all
  search_all_ok limit fuel [] st sub t i = (i, (λ k h. h), λ k h. absurd (false≢true h))
  search_all_ok limit fuel (s ∷ ss) st sub t i =
      let found = start_at limit graph (dfs limit graph fuel s) (get st.colour s) st in
      let back = start_at-Back limit graph fuel s (get st.colour s) st t refl in
      After-then (λ st'. is_black (colour_of st' s) ≡ true)
        (λ st'. (k : String) → has (s ∷ ss) k ≡ true → is_black (colour_of st' k) ≡ true) limit st
        st found (search_all limit graph fuel ss)
        (start_at_ok limit fuel s (get st.colour s) st (sub s (self s ss)) t refl i)
        (λ st' e i' m b.
          After-trans (λ c. (k : String) → has ss k ≡ true → is_black (colour_of c k) ≡ true)
            (λ c. (k : String) → has (s ∷ ss) k ≡ true → is_black (colour_of c k) ≡ true) st st'
            (search_all limit graph fuel ss st') m
            (λ c m' h k there. elim (has-cons s ss k there) [
              | inl same ↦ subst (λ z. is_black (colour_of c z) ≡ true) same (m' s b)
              | inr rest ↦ h k rest
            ])
            (search_all_ok limit fuel ss st' (λ k h. sub k (later s ss k h))
              (Top-Back limit graph fuel st st' t (subst (Back limit graph st) e back)) i'))

-- Every slug has a colour at the start, and none is black.
present-init_colour :
    (ss : List String) (d : Dict String Colour) (k : String)
    → (has ss k || is_some (get d k)) ≡ true
    → is_some (get (init_colour ss d) k) ≡ true
unfolding init_colour
present-init_colour [] d k h = h
present-init_colour (s ∷ ss) d k h =
    present-init_colour ss (put d s white) k (ground (arith, h, get-put d s k white))

black-init_colour :
    (ss : List String) (d : Dict String Colour) (k : String)
    → is_black (get d k) ≡ false
    → is_black (get (init_colour ss d) k) ≡ false
unfolding init_colour
black-init_colour [] d k h = h
black-init_colour (s ∷ ss) d k h =
    black-init_colour ss (put d s white) k (ground (arith, h, get-put d s k white))

initial-Inv :
    (slugs : List String) (graph : Dict String (List String)) → Inv slugs graph (initial slugs)
unfolding get
initial-Inv slugs graph = record {
  order = [];
  left = λ k h. absurd (false≢true (sym (black-init_colour slugs [] k refl) ∙ h));
  topological = tt;
  present = λ k known. present-init_colour slugs [] k (ground (arith, known));
}

acyclic :
    (slugs : List String) (graph : Dict String (List String)) (cycle : List String)
    (r : Option Found)
    → After slugs graph
        (λ st. (k : String) → has slugs k ≡ true → is_black (colour_of st k) ≡ true)
        (initial slugs)
        r
    → verdict r ≡ some none
    → All (λ s. has slugs s ≡ true) cycle
    → ¬ ClosedWalk graph cycle
unfolding verdict
acyclic slugs graph cycle none a e known w = absurd (ground (arith, e))
acyclic slugs graph cycle (some (st, some c)) a e known w = absurd (ground (arith, e))
acyclic slugs graph cycle (some (st, none)) (i, _, all) e known w =
    no_walk slugs graph i.order cycle i.topological (λ k h. i.left k (all k h)) known w

-- Where no cycle is reported, there is none among the slugs: no closed walk along the dependencies
-- goes through slugs only.
pub detect_cycle-none :
    (slugs : List String) (graph : Dict String (List String)) (cycle : List String)
    → detect_cycle slugs graph ≡ some none
    → All (λ s. has slugs s ≡ true) cycle
    → ¬ ClosedWalk graph cycle
unfolding detect_cycle
detect_cycle-none slugs graph cycle e known w =
    let fuel = suc (length slugs) in
    acyclic slugs graph cycle (search_all fuel graph fuel slugs (initial slugs))
      (search_all_ok slugs graph fuel fuel slugs (initial slugs) (λ k h. h)
        (initial-Top graph slugs) (initial-Inv slugs graph))
      e known w
