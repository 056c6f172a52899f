-- ===== src/Patterns/Unvisited.antt =====
-- The nodes that a walk over a graph has not visited: the measure by which it ends.
use motoro.Prelude.{
  ℕ, suc, ◌≤◌, ◌<◌, String, eq_text, true, false, List, [], ◌∷◌, has, length, if◌then◌else◌, ◌≡◌,
  ◌⊎◌, ◌==◌, arith, Bool-cases, inl, inr, eq_iff,
}

-- How many entries of `xs` are not visited.
abbrev pub unvisited : List String → List String → ℕ
unvisited visited [] = 0
unvisited visited (x ∷ xs) =
    if has visited x then unvisited visited xs else suc (unvisited visited xs)

pub unvisited-le :
    (visited xs : List String) (s : String) → unvisited (s ∷ visited) xs ≤ unvisited visited xs
unvisited-le visited [] s = omega arith
unvisited-le visited (x ∷ xs) s = ground (arith, unvisited-le visited xs s)

pub unvisited-lt :
    (visited xs : List String) (s : String)
    → has xs s ≡ true
    → has visited s ≡ false
    → unvisited (s ∷ visited) xs < unvisited visited xs
unvisited-lt visited [] s h f = absurd (ground arith)
unvisited-lt visited (x ∷ xs) s h f =
    ground (arith, unvisited-lt visited xs s, unvisited-le visited xs s, eq_iff x s, eq_iff s x)

pub unvisited-le-length : (visited xs : List String) → unvisited visited xs ≤ length xs
unvisited-le-length visited [] = omega arith
unvisited-le-length visited (x ∷ xs) = ground (arith, unvisited-le-length visited xs)

pub self : (d : String) (ds : List String) → has (d ∷ ds) d ≡ true
self d ds = ground (arith, eq_iff d d)

pub later :
    (d : String) (ds : List String) (dep : String) → has ds dep ≡ true → has (d ∷ ds) dep ≡ true
later d ds dep h = ground arith

pub has-cons :
    (d : String) (ds : List String) (dep : String)
    → has (d ∷ ds) dep ≡ true
    → (d ≡ dep) ⊎ (has ds dep ≡ true)
has-cons d ds dep h = elim (Bool-cases (d == dep)) [
  | inl e ↦ inl ((eq_iff d dep).0 e)
  | inr e ↦ inr (rw e at h)
]
