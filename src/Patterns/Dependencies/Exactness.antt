-- ===== src/Patterns/Dependencies/Exactness.antt =====
-- The walk always ends, and reports the dependencies that are missing, each of them and no other.
use mathlib.Core.List.{append-nil, append_assoc}
use mathlib.Core.Bool.{false≢true}
use motoro.Prelude.{
  Option, ℕ, zero, suc, ◌≤◌, ◌<◌, String, eq_text, true, false, some, List, [], ◌∷◌, ◌++◌, Dict,
  get_or, has, length, ◌≡◌, ◌↔◌, refl, sym, subst, ap, ◌∙◌, arith, All, In, In-append_left,
  In-append_right, All-append, All-In, Bool-cases, inl, inr,
}
use motoro.Patterns.Unvisited.{
  unvisited, unvisited-le, unvisited-lt, unvisited-le-length, self, later, has-cons,
}
use motoro.Patterns.Dependencies.{
  Missing, Walk, same_category, visit_dep, visit_deps, check_transitive, check_roots,
  missing_dependencies,
}

module _ (active : List String) (graph : Dict String (List String))
    (category_map : Dict String String) where
  -- An active slug has a dependency that is not active, and not excused by its category.
  abbrev pub IsMissing : Missing → Type 0
  IsMissing m =
      (has active m.slug ≡ true)
      × (has (get_or graph m.slug []) m.dep ≡ true)
      × (has active m.dep ≡ false)
      × (same_category category_map m.slug m.dep ≡ false)

  -- What one part of the walk does to the state.
  record Extends (w w' : Walk) : Type 0 where
    fewer : unvisited w'.visited active ≤ unvisited w.visited active
    added : List Missing
    appended : w'.errors ≡ w.errors ++ added
    genuine : All IsMissing added

  Extends-refl : (w : Walk) → Extends w w
  Extends-refl w = record {
    fewer = omega arith;
    added = [];
    appended = sym (append-nil _);
    genuine = tt;
  }

  Extends-trans : {u v w : Walk} → Extends u v → Extends v w → Extends u w
  Extends-trans {u} p q = record {
    fewer = omega arith;
    added = p.added ++ q.added;
    appended =
        q.appended ∙ ap (λ t. t ++ q.added) p.appended ∙ append_assoc u.errors p.added q.added;
    genuine = All-append IsMissing _ _ p.genuine q.genuine;
  }

  Lists : List Missing → String → String → Type 0
  Lists errors slug dep = In (record { slug = slug; dep = dep }) errors

  Lists-Extends :
      {w w' : Walk} (slug dep : String)
      → Extends w w'
      → Lists w.errors slug dep
      → Lists w'.errors slug dep
  unfolding Lists
  Lists-Extends slug dep e m = rw e.appended (In-append_left _ _ _ m)

  Lists-append :
      (xs ys : List Missing) (slug dep : String) → Lists xs slug dep → Lists (xs ++ ys) slug dep
  unfolding Lists
  Lists-append xs ys slug dep m = In-append_left _ xs ys m

  -- What a recursive call promises for a walk with at most `fuel` slugs to visit.
  abbrev Promise : ℕ → (String → Walk → Option Walk) → Type 0
  Promise fuel recurse =
      (slug : String) (w : Walk)
      → has active slug ≡ true
      → unvisited w.visited active < fuel
      → (w' : Walk) × (recurse slug w ≡ some w') × Extends w w'

  module _ (fuel : ℕ) (recurse : String → Walk → Option Walk) (promise : Promise fuel recurse)
      (slug : String) (is_active : has active slug ≡ true) where
    visit_dep_lem :
        (dep : String) (w : Walk)
        → has (get_or graph slug []) dep ≡ true
        → unvisited w.visited active < fuel
        → (w' : Walk) × (visit_dep active graph category_map recurse slug dep w ≡ some w')
          × Extends w w'
          × (has active dep ≡ false
              → same_category category_map slug dep ≡ false
              → Lists w'.errors slug dep)
    unfolding visit_dep Lists
    visit_dep_lem dep w edge small = elim (Bool-cases (has active dep)) [
      | inl on ↦
          let (w', e, x) = promise dep w on small in
          (w', rw on e, x, λ off. absurd (false≢true (sym off ∙ on)))
      | inr off ↦ elim (Bool-cases (same_category category_map slug dep)) [
        | inl same ↦
            (w, rw (off, same), Extends-refl w, λ _ other. absurd (false≢true (sym other ∙ same)))
        | inr other ↦ (
          record w { errors = w.errors ++ record { slug = slug; dep = dep } ∷ [] },
          rw (off, other),
          record {
            fewer = omega arith;
            added = record { slug = slug; dep = dep } ∷ [];
            appended = refl;
            genuine = ((is_active, edge, off, other), tt);
          },
          λ _ _. In-append_right _ w.errors _ (inl refl),
        )
      ]
    ]

    visit_deps_lem :
        (deps : List String) (w : Walk)
        → ((dep : String) → has deps dep ≡ true → has (get_or graph slug []) dep ≡ true)
        → unvisited w.visited active < fuel
        → (w' : Walk) × (visit_deps active graph category_map recurse slug deps w ≡ some w')
          × Extends w w'
          × ((dep : String)
              → has deps dep ≡ true
              → has active dep ≡ false
              → same_category category_map slug dep ≡ false
              → Lists w'.errors slug dep)
    unfolding visit_deps
    visit_deps_lem [] w sub small = (w, refl, Extends-refl w, λ dep h. absurd (false≢true h))
    visit_deps_lem (d ∷ ds) w sub small =
        let (u, e, x, l) = visit_dep_lem d w (sub d (self d ds)) small in
        let (v, f, y, m) =
          visit_deps_lem ds u (λ dep h. sub dep (later d ds dep h)) (omega (arith, x.fewer)) in
        (
          v,
          rw e f,
          Extends-trans x y,
          λ dep h off other. elim (has-cons d ds dep h) [
            | inl same ↦
                Lists-Extends slug dep y
                  (subst (λ t. Lists u.errors slug t) same (l (rw same off) (rw same other)))
            | inr there ↦ m dep there off other
          ],
        )

  -- Every missing dependency of a slug is listed.
  abbrev AllListed : List Missing → String → Type 0
  AllListed errors slug =
      (dep : String)
      → has (get_or graph slug []) dep ≡ true
      → has active dep ≡ false
      → same_category category_map slug dep ≡ false
      → Lists errors slug dep

  -- With more fuel than slugs to visit the walk ends, and lists what the slug itself lacks.
  check_transitive_lem :
      (fuel : ℕ) (slug : String) (w : Walk)
      → has active slug ≡ true
      → unvisited w.visited active < fuel
      → (w' : Walk) × (check_transitive active graph category_map fuel slug w ≡ some w')
        × Extends w w'
        × (has w.visited slug ≡ false → AllListed w'.errors slug)
  unfolding check_transitive
  check_transitive_lem zero slug w on small = absurd (omega arith)
  check_transitive_lem (suc fuel) slug w on small = elim (Bool-cases (has w.visited slug)) [
    | inl seen ↦ (w, rw seen, Extends-refl w, λ fresh. absurd (false≢true (sym fresh ∙ seen)))
    | inr fresh ↦
        let entered : Walk = record w { visited = slug ∷ w.visited } in
        let start : Extends w entered = record {
          fewer = unvisited-le w.visited active slug;
          added = [];
          appended = sym (append-nil _);
          genuine = tt;
        } in
        let (w', e, x, l) =
          visit_deps_lem fuel (check_transitive active graph category_map fuel)
            (λ s u a b. let (u', f, y, _) = check_transitive_lem fuel s u a b in (u', f, y)) slug on
            (get_or graph slug []) entered (λ dep h. h)
            (omega (arith, unvisited-lt w.visited active slug on fresh)) in
        (w', rw fresh e, Extends-trans start x, λ _. l)
  ]

  check_roots_lem :
      (roots : List String) (errors : List Missing)
      → ((slug : String) → has roots slug ≡ true → has active slug ≡ true)
      → (errors' added : List Missing) × (check_roots active graph category_map
            (suc (length active))
            roots
            errors
          ≡ some errors')
        × (errors' ≡ errors ++ added)
        × All IsMissing added
        × ((slug : String) → has roots slug ≡ true → AllListed errors' slug)
  unfolding check_roots
  check_roots_lem [] errors sub =
      (errors, [], refl, sym (append-nil _), tt, λ slug h. absurd (false≢true h))
  check_roots_lem (r ∷ rs) errors sub =
      let (w, e, x, l) =
        check_transitive_lem (suc (length active)) r (record { errors = errors; visited = [] })
          (sub r (self r rs)) (omega (arith, unvisited-le-length [] active)) in
      let (errors', added, f, g, genuine, m) =
        check_roots_lem rs w.errors (λ s h. sub s (later r rs s h)) in
      (
        errors',
        x.added ++ added,
        rw e f,
        g ∙ ap (λ t. t ++ added) x.appended ∙ append_assoc errors x.added added,
        All-append IsMissing _ _ x.genuine genuine,
        λ slug h dep edge off other. elim (has-cons r rs slug h) [
          | inl same ↦
              subst (λ t. Lists errors' t dep) same
                (rw g (
                  Lists-append w.errors added r dep
                    (l refl dep (rw same edge) off (rw same other))))
          | inr there ↦ m slug there dep edge off other
        ],
      )

  -- The walk ends, and it reports (slug, dep) exactly when slug is active and names dep among its
  -- dependencies, dep is not active, and the two are not known to be of one category.
  pub missing_dependencies_exact :
      (errors : List Missing) × (missing_dependencies active graph category_map ≡ some errors)
      × ((m : Missing) → In m errors ↔ IsMissing m)
  unfolding missing_dependencies Lists
  missing_dependencies_exact =
      let (errors, added, e, g, genuine, l) = check_roots_lem active [] (λ slug h. h) in
      (
        errors,
        e,
        λ m. (
          λ found. All-In IsMissing m errors (rw g genuine) found,
          λ (on, edge, off, other). l m.slug on m.dep edge off other,
        ),
      )
