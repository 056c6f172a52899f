-- ===== src/Patterns/Resolution/Collection.antt =====
-- The walk that collects missing dependencies ends, and misses none of an active slug.
use mathlib.Core.Bool.{false≢true}
use motoro.Prelude.{
  ℕ, zero, suc, ◌≤◌, ◌<◌, String, eq_text, Bool, true, ◌||◌, Option, some, List, [], ◌∷◌, ◌++◌,
  Dict, get_or, has, has-append, length, Bool-cases, inl, inr, ◌≡◌, ◌⊎◌, refl, ap, subst, arith,
}
use motoro.Patterns.Unvisited.{
  unvisited, unvisited-le, unvisited-lt, unvisited-le-length, self, later, has-cons,
}
use motoro.Patterns.Dependencies.{same_category}
use motoro.Patterns.Resolution.{
  Collected, add, collect_dep, collect_deps, collect_transitive, collect_roots, all_deps,
  missing_of, collect_missing_dependencies,
}

deps-all_deps :
    (graph : Dict String (List String)) (slug dep : String)
    → has (get_or graph slug []) dep ≡ true
    → has (all_deps graph) dep ≡ true
unfolding get_or
deps-all_deps [] slug dep h = h
deps-all_deps ((s, deps) ∷ graph) slug dep h =
    ground (arith, h, has-append deps (all_deps graph) dep, deps-all_deps graph slug dep)

add_self : (dep : String) (m : List String) → has (add dep m) dep ≡ true
add_self dep m = elim (Bool-cases (has m dep)) [
  | inl e ↦ rw e e
  | inr e ↦ rw e (rw (has-append m (dep ∷ []) dep, e) (self dep []))
]

add-more : (dep : String) (m : List String) (k : String) → has m k ≡ true → has (add dep m) k ≡ true
add-more dep m k h = ground (arith, h, has-append m (dep ∷ []) k)

module _ (active : List String) (graph : Dict String (List String))
    (category_map : Dict String String) where
  abbrev universe : List String
  universe = active ++ all_deps graph

  -- The dependency is active, excused by its category, or collected.
  abbrev pub covered : List String → String → String → Bool
  covered missing slug dep =
      has active dep || (same_category category_map slug dep || has missing dep)

  abbrev pub Handled : List String → String → Type 0
  Handled missing slug =
      (dep : String) → has (get_or graph slug []) dep ≡ true → covered missing slug dep ≡ true

  Handled-more :
      (m m' : List String) (slug : String)
      → ((k : String) → has m k ≡ true → has m' k ≡ true)
      → Handled m slug
      → Handled m' slug
  Handled-more m m' slug f h dep d = ground (arith, h dep d, f dep)

  -- What one part of the walk does.
  record Grows (w w' : Collected) : Type 0 where
    pub more : (k : String) → has w.missing k ≡ true → has w'.missing k ≡ true
    pub stays : (k : String) → has w.visited k ≡ true → has w'.visited k ≡ true
    pub fewer : unvisited w'.visited universe ≤ unvisited w.visited universe
    pub handled :
        (k : String) → has w'.visited k ≡ true → (has w.visited k ≡ true) ⊎ Handled w'.missing k

  Grows-refl : (w : Collected) → Grows w w
  Grows-refl w = record {
    more = λ k h. h;
    stays = λ k h. h;
    fewer = omega arith;
    handled = λ k h. inl h;
  }

  Grows-trans : {u v w : Collected} → Grows u v → Grows v w → Grows u w
  Grows-trans {u} {v} {w} p q = record {
    more = λ k h. q.more k (p.more k h);
    stays = λ k h. q.stays k (p.stays k h);
    fewer = omega (arith, p.fewer, q.fewer);
    handled = λ k h. elim (q.handled k h) [
      | inl seen ↦ elim (p.handled k seen) [
        | inl before ↦ inl before
        | inr done ↦ inr (Handled-more v.missing w.missing k q.more done)
      ]
      | inr done ↦ inr done
    ];
  }

  -- The set of active slugs of a call: those of the first, and some that are collected.
  abbrev Within : List String → List String → Type 0
  Within act missing = (k : String) → has act k ≡ true → (has active k || has missing k) ≡ true

  Within-more :
      (act m m' : List String)
      → ((k : String) → has m k ≡ true → has m' k ≡ true)
      → Within act m
      → Within act m'
  Within-more act m m' f h k e = ground (arith, h k e, f k)

  abbrev Promise : ℕ → (List String → String → Collected → Option Collected) → Type 0
  Promise fuel recurse =
      (act : List String) (slug : String) (w : Collected)
      → has universe slug ≡ true
      → Within act w.missing
      → unvisited w.visited universe < fuel
      → (w' : Collected) × ((recurse act slug w ≡ some w')
          × Grows w w'
          × (has w'.visited slug ≡ true))

  module _ (fuel : ℕ) (recurse : List String → String → Collected → Option Collected)
      (promise : Promise fuel recurse) (act : List String) (slug : String) where
    collect_dep_lem :
        (dep : String) (w : Collected)
        → has (get_or graph slug []) dep ≡ true
        → Within act w.missing
        → unvisited w.visited universe < fuel
        → (w' : Collected) × ((collect_dep graph category_map recurse act slug dep w ≡ some w')
            × Grows w w'
            × (covered w'.missing slug dep ≡ true))
    unfolding collect_dep
    collect_dep_lem dep w d within small =
        let known : has universe dep ≡ true =
          ground (arith, has-append active (all_deps graph) dep, deps-all_deps graph slug dep d) in
        elim (Bool-cases (has act dep)) [
          | inl on ↦
              let (w', (e, g, _)) = promise act dep w known within small in
              (w', (rw on e, g, ground (arith, within dep on, g.more dep)))
          | inr off ↦ elim (Bool-cases (same_category category_map slug dep)) [
            | inl same ↦ (w, (rw (off, same) refl, Grows-refl w, ground (arith, same)))
            | inr other ↦
                let w1 : Collected = record w { missing = add dep w.missing } in
                let within1 : Within (act ++ w1.missing) w1.missing = λ k h.
                  ground
                    (arith, h, within k, has-append act w1.missing k, add-more dep w.missing k) in
                let (w', (e, g, _)) = promise (act ++ w1.missing) dep w1 known within1 small in
                let first : Grows w w1 = record {
                  more = add-more dep w.missing;
                  stays = λ k h. h;
                  fewer = omega arith;
                  handled = λ k h. inl h;
                } in
                (
                  w',
                  (
                    rw (off, other) e,
                    Grows-trans first g,
                    ground (arith, g.more dep (add_self dep w.missing)),
                  ),
                )
          ]
        ]

    collect_deps_lem :
        (deps : List String) (w : Collected)
        → ((dep : String) → has deps dep ≡ true → has (get_or graph slug []) dep ≡ true)
        → Within act w.missing
        → unvisited w.visited universe < fuel
        → (w' : Collected) × ((collect_deps graph category_map recurse act slug deps w ≡ some w')
            × Grows w w'
            × ((dep : String) → has deps dep ≡ true → covered w'.missing slug dep ≡ true))
    unfolding collect_deps
    collect_deps_lem [] w sub within small =
        (w, (refl, Grows-refl w, λ dep h. absurd (false≢true h)))
    collect_deps_lem (d ∷ ds) w sub within small =
        let (u, (e, x, c)) = collect_dep_lem d w (sub d (self d ds)) within small in
        let (v, (f, y, cs)) =
          collect_deps_lem ds u (λ dep h. sub dep (later d ds dep h))
            (Within-more act w.missing u.missing x.more within) (omega (arith, x.fewer, small)) in
        (
          v,
          (
            rw e f,
            Grows-trans x y,
            λ dep h. elim (has-cons d ds dep h) [
              | inl same ↦
                  subst (λ k. covered v.missing slug k ≡ true) same (ground (arith, c, y.more d))
              | inr there ↦ cs dep there
            ],
          ),
        )

  collect_transitive_lem : (fuel : ℕ) → Promise fuel (collect_transitive graph category_map fuel)
  unfolding collect_transitive
  collect_transitive_lem zero act slug w known within small = absurd (omega (arith, small))
  collect_transitive_lem (suc fuel) act slug w known within small =
      elim (Bool-cases (has w.visited slug)) [
        | inl seen ↦ (w, (rw seen refl, Grows-refl w, seen))
        | inr fresh ↦
            let entered : Collected = record w { visited = slug ∷ w.visited } in
            let (w', (e, g, c)) =
              collect_deps_lem fuel (collect_transitive graph category_map fuel)
                (collect_transitive_lem fuel) act slug (get_or graph slug []) entered (λ dep h. h)
                within (omega (arith, small, unvisited-lt w.visited universe slug known fresh)) in
            let grown : Grows w w' = record {
              more = g.more;
              stays = λ k h. g.stays k (later slug w.visited k h);
              fewer = omega (arith, g.fewer, unvisited-le w.visited universe slug);
              handled = λ k h. elim (g.handled k h) [
                | inl seen ↦ elim (has-cons slug w.visited k seen) [
                  | inl same ↦ inr (subst (Handled w'.missing) same c)
                  | inr before ↦ inl before
                ]
                | inr done ↦ inr done
              ];
            } in
            (w', (rw fresh e, grown, g.stays slug (self slug w.visited)))
      ]

  collect_roots_lem :
      (fuel : ℕ) (roots : List String) (w : Collected)
      → ((k : String) → has roots k ≡ true → has active k ≡ true)
      → unvisited w.visited universe < fuel
      → (w' : Collected) × ((collect_roots graph category_map fuel active roots w ≡ some w')
          × Grows w w'
          × ((k : String) → has roots k ≡ true → has w'.visited k ≡ true))
  unfolding collect_roots
  collect_roots_lem fuel [] w sub small = (w, (refl, Grows-refl w, λ k h. absurd (false≢true h)))
  collect_roots_lem fuel (r ∷ rs) w sub small =
      let known : has universe r ≡ true =
        ground (arith, has-append active (all_deps graph) r, sub r (self r rs)) in
      let (u, (e, x, seen)) =
        collect_transitive_lem fuel active r w known (λ k h. ground (arith, h)) small in
      let (v, (f, y, all)) =
        collect_roots_lem fuel rs u (λ k h. sub k (later r rs k h))
          (omega (arith, x.fewer, small)) in
      (
        v,
        (
          rw e f,
          Grows-trans x y,
          λ k h. elim (has-cons r rs k h) [
            | inl same ↦ subst (λ z. has v.visited z ≡ true) same (y.stays r seen)
            | inr there ↦ all k there
          ],
        ),
      )

  pub collect_lem :
      (missing : List String) × ((collect_missing_dependencies active graph category_map
          ≡ some missing)
        × ((slug : String) → has active slug ≡ true → Handled missing slug))
  unfolding collect_missing_dependencies
  collect_lem =
      let none_yet : Collected = record { missing = []; visited = [] } in
      let (w, (e, g, seen)) =
        collect_roots_lem (suc (length universe)) active none_yet (λ k h. h)
          (omega (arith, unvisited-le-length [] universe)) in
      (
        w.missing,
        (
          ap missing_of e,
          λ slug h. elim (g.handled slug (seen slug h)) [
            | inl before ↦ absurd (false≢true before)
            | inr done ↦ done
          ],
        ),
      )
