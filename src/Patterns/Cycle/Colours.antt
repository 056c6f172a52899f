-- ===== src/Patterns/Cycle/Colours.antt =====
-- The colours and the parents of the search, and how it changes them.
use motoro.Prelude.{
  ℕ, ◌+◌, ◌≤◌, String, eq_text, Bool, true, false, ◌==◌, Option, none, some, [], ◌∷◌, Dict, get,
  get_or, put, get-put, get_or-put, Bool-cases, inl, inr, if◌then◌else◌, ◌≡◌, ◌⊎◌, refl, sym, subst,
  arith,
}
use motoro.Patterns.Cycle.{Colour, white, grey, Search, paint, adopt}

abbrev pub is_white : Option Colour → Bool
is_white (some white) = true
is_white _ = false

abbrev pub is_grey : Option Colour → Bool
is_grey (some grey) = true
is_grey _ = false

abbrev pub colour_of : Search → String → Option Colour
colour_of st k = get st.colour k

abbrev pub parent_of : Search → String → Option String
parent_of st k = get_or st.parent k none

abbrev one_if_white : Colour → ℕ
one_if_white white = 1
one_if_white _ = 0

abbrev pub whites : Dict String Colour → ℕ
whites [] = 0
whites ((k, c) ∷ d) = one_if_white c + whites d

-- Painting a white node takes one away; painting another adds none.
pub whites-put :
    (d : Dict String Colour) (k : String) (c : Colour)
    → one_if_white c ≡ 0
    → get d k ≡ some white
    → whites (put d k c) + 1 ≡ whites d
unfolding put get
whites-put [] k c z e = absurd (ground (arith, e))
whites-put ((j, w) ∷ d) k c z e = ground (arith, z, e, whites-put d k c z)

pub whites-put_le :
    (d : Dict String Colour) (k : String) (c : Colour)
    → one_if_white c ≡ 0
    → whites (put d k c) ≤ whites d
unfolding put
whites-put_le [] k c z = omega (arith, z)
whites-put_le ((j, w) ∷ d) k c z = ground (arith, z, whites-put_le d k c z)

pub whites-put_white : (d : Dict String Colour) (k : String) → whites (put d k white) ≤ whites d + 1
unfolding put
whites-put_white [] k = omega arith
whites-put_white ((j, c) ∷ d) k = ground (arith, whites-put_white d k)

-- A node stays visited, and its parent changes only where it is visited first.
abbrev pub Frame : Search → Search → Type 0
Frame st st' =
    (k : String)
    → (is_white (colour_of st k) ≡ false → is_white (colour_of st' k) ≡ false)
      × ((parent_of st' k ≡ parent_of st k)
          ⊎ ((is_white (colour_of st k) ≡ true) × (is_white (colour_of st' k) ≡ false)))

pub Frame-refl : (st : Search) → Frame st st
Frame-refl st k = (λ w. w, inl refl)

pub Frame-trans : (a b c : Search) → Frame a b → Frame b c → Frame a c
Frame-trans a b c f g k = (λ w. (g k).0 ((f k).0 w), grind (arith, f k, g k))

-- A white node is none of those that are visited.
pub apart :
    (st : Search) (dep k : String)
    → colour_of st dep ≡ some white
    → is_white (colour_of st k) ≡ false
    → (dep == k) ≡ false
apart st dep k e n = elim (Bool-cases (dep == k)) [
  | inl b ↦
      let same : is_white (colour_of st dep) ≡ false =
        subst (λ z. is_white (colour_of st z) ≡ false) (sym ((eq_text.equal_iff dep k).0 b)) n in
      absurd (ground (arith, same, e))
  | inr b ↦ b
]

pub parent_of-adopt :
    (node dep : String) (st : Search) (k : String)
    → (dep == k) ≡ false
    → parent_of (adopt dep node st) k ≡ parent_of st k
unfolding adopt
parent_of-adopt node dep st k b = rw (get_or-put st.parent dep k (some node) none, b) refl

pub colour_of-paint :
    (node : String) (c : Colour) (st : Search) (k : String)
    → colour_of (paint node c st) k ≡ (if node == k then some c else colour_of st k)
unfolding paint
colour_of-paint node c st k = get-put st.colour node k c
