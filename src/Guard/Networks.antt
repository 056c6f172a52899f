-- ===== src/Guard/Networks.antt =====
-- The blocked networks as ranges of addresses.
use motoro.Prelude.{
  ℕ, ◌-◌, ◌*◌, ◌^◌, ◌≤◌, Bool, true, ◌||◌, eq_number, some, List, [], ◌∷◌, any, ◌≡◌, ◌↔◌, ◌⊎◌, inl,
  inr, arith,
}
use motoro.Guard.{
  Network, Address, quad, blocked_ipv4_networks, blocked_ipv6_networks, contains, v4, v6,
  is_private_ip,
}

-- The number lies in one of the ranges, both ends included.
pub Within : ℕ → List (ℕ × ℕ) → Type 0
Within a [] = ⊥
Within a ((first, last) ∷ ranges) = ((first ≤ a) × (a ≤ last)) ⊎ Within a ranges

-- The network has exactly the addresses of the range.
Spans : ℕ → Network → ℕ × ℕ → Type 0
Spans width net (first, last) = (a : ℕ) → (contains width net a ≡ true) ↔ ((first ≤ a) × (a ≤ last))

or_true : (b c : Bool) → (b || c) ≡ true → (b ≡ true) ⊎ (c ≡ true)
or_true b c h = ground (arith, h)

or_left : (b c : Bool) → b ≡ true → (b || c) ≡ true
or_left b c h = ground (arith, h)

or_right : (b c : Bool) → c ≡ true → (b || c) ≡ true
or_right b c h = ground (arith, h)

AllSpan : ℕ → List Network → List (ℕ × ℕ) → Type 0
AllSpan width [] [] = Unit
AllSpan width (net ∷ nets) (range ∷ ranges) = Spans width net range × AllSpan width nets ranges
AllSpan width _ _ = ⊥

any-Within :
    (width : ℕ) (nets : List Network) (ranges : List (ℕ × ℕ))
    → AllSpan width nets ranges
    → (a : ℕ) → (any (λ net. contains width net a) nets ≡ true) ↔ Within a ranges
unfolding AllSpan Spans Within
any-Within width [] [] h a = (λ e. ground (arith, e), λ w. absurd w)
any-Within width (net ∷ nets) ((first, last) ∷ ranges) h a =
    let here = h.0 a in
    let rest = any-Within width nets ranges h.1 a in
    (
      λ e. elim (or_true (contains width net a) _ e) [
        | inl c ↦ inl (here.0 c)
        | inr c ↦ inr (rest.0 c)
      ],
      λ w. elim w [ inl r ↦ or_left _ _ (here.1 r) | inr r ↦ or_right _ _ (rest.1 r) ],
    )
any-Within width [] (r ∷ rs) h a = absurd h
any-Within width (n ∷ ns) [] h a = absurd h

abbrev pub ipv4_ranges : List (ℕ × ℕ)
ipv4_ranges =
    (quad 10 0 0 0, quad 10 255 255 255)
    ∷ (quad 172 16 0 0, quad 172 31 255 255)
    ∷ (quad 192 168 0 0, quad 192 168 255 255)
    ∷ (quad 169 254 0 0, quad 169 254 255 255)
    ∷ (quad 127 0 0 0, quad 127 255 255 255)
    ∷ (quad 0 0 0 0, quad 0 255 255 255)
    ∷ (quad 100 64 0 0, quad 100 127 255 255)
    ∷ (quad 192 0 0 0, quad 192 0 0 255)
    ∷ (quad 192 0 2 0, quad 192 0 2 255)
    ∷ (quad 198 18 0 0, quad 198 19 255 255)
    ∷ (quad 198 51 100 0, quad 198 51 100 255)
    ∷ (quad 203 0 113 0, quad 203 0 113 255)
    ∷ (quad 240 0 0 0, quad 255 255 255 255)
    ∷ (quad 255 255 255 255, quad 255 255 255 255)
    ∷ []

-- ::1, from fc00:: to the one before fe00::, from fe80:: to the one before fec0::, :: and
-- ::ffff:0.0.0.0 to ::ffff:255.255.255.255
abbrev pub ipv6_ranges : List (ℕ × ℕ)
ipv6_ranges =
    (1, 1)
    ∷ (64512 * 2 ^ 112, 65024 * 2 ^ 112 - 1)
    ∷ (65152 * 2 ^ 112, 65216 * 2 ^ 112 - 1)
    ∷ (0, 0)
    ∷ (65535 * 2 ^ 32, 65536 * 2 ^ 32 - 1)
    ∷ []

ipv4-AllSpan : AllSpan 32 blocked_ipv4_networks ipv4_ranges
unfolding AllSpan Spans contains
ipv4-AllSpan = (
  λ a. ground arith,
  (
    λ a. ground arith,
    (
      λ a. ground arith,
      (
        λ a. ground arith,
        (
          λ a. ground arith,
          (
            λ a. ground arith,
            (
              λ a. ground arith,
              (
                λ a. ground arith,
                (
                  λ a. ground arith,
                  (
                    λ a. ground arith,
                    (
                      λ a. ground arith,
                      (λ a. ground arith, (λ a. ground arith, (λ a. ground arith, tt))),
                    ),
                  ),
                ),
              ),
            ),
          ),
        ),
      ),
    ),
  ),
)

ipv6-AllSpan : AllSpan 128 blocked_ipv6_networks ipv6_ranges
unfolding AllSpan Spans contains
ipv6-AllSpan = (
  λ a. ground arith,
  (λ a. ground arith, (λ a. ground arith, (λ a. ground arith, (λ a. ground arith, tt)))),
)

-- The address lies in a range that must never be contacted.
pub Private : Address → Type 0
Private (v4 a) = Within a ipv4_ranges
Private (v6 a) = Within a ipv6_ranges

-- `is_private_ip` holds of an address exactly when it lies in one of the fourteen ranges of IPv4
-- addresses or the five ranges of IPv6 addresses that are to be blocked, the ends included.
pub is_private_ip-Private : (a : Address) → (is_private_ip (some a) ≡ true) ↔ Private a
unfolding is_private_ip Private
is_private_ip-Private (v4 a) = any-Within 32 blocked_ipv4_networks ipv4_ranges ipv4-AllSpan a
is_private_ip-Private (v6 a) = any-Within 128 blocked_ipv6_networks ipv6_ranges ipv6-AllSpan a
