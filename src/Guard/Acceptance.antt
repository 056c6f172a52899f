-- ===== src/Guard/Acceptance.antt =====
-- The URLs that pass validation.
use motoro.Prelude.{
  lower, String, eq_text, eq_iff, Bool, true, false, ◌==◌, ◌||◌, Option, none, some, List, [], ◌∷◌,
  has, strip, In, ◌≡◌, ◌≢◌, ◌⊎◌, inl, inr, refl, sym, subst, Bool-cases, arith,
}
use motoro.Guard.{
  Address, is_private_ip, Net, SsrfError, blocked_schemes, check_results, resolve_and_check,
  check_host, check_hostname, check_scheme, first_error, validate_outbound_url,
}
use motoro.Guard.Networks.{Private, is_private_ip-Private}

-- The text is not that of a private address.
pub Public : Net → String → Type 0
Public net ip = (a : Address) → net.ip_address ip ≡ some a → ¬ Private a

-- The host's name resolves, and to public addresses only.
pub Resolves : Net → String → Type 0
Resolves net hostname =
    (ips : List String) × (net.getaddrinfo hostname ≡ some ips)
    × ((ip : String) → In ip ips → Public net ip)

pub HostAllowed : Net → Bool → Bool → String → Type 0
HostAllowed net resolve_dns allow_private hostname =
    (hostname ≢ "")
    × (allow_private ≡ false → Public net hostname × (resolve_dns ≡ true → Resolves net hostname))

pub Acceptable : Net → String → Bool → Bool → Bool → Type 0
Acceptable net url require_https resolve_dns allow_private =
    let scheme = lower (net.urlparse url).scheme in
    ((scheme ≡ "https") ⊎ ((scheme ≡ "http") × (require_https ≡ false)))
    × (hostname : String) × ((net.urlparse url).hostname ≡ some hostname)
    × HostAllowed net resolve_dns allow_private hostname

Public-is_private_ip :
    (net : Net) (ip : String) → is_private_ip (net.ip_address ip) ≡ false → Public net ip
unfolding Public
Public-is_private_ip net ip h a q p =
    let private = (is_private_ip-Private a).1 p in ground (arith, h, q, private)

check_results-Public :
    (net : Net) (hostname : String) (ips : List String)
    → check_results net hostname ips ≡ none
    → (ip : String) → In ip ips
    → Public net ip
unfolding check_results
check_results-Public net hostname [] h ip m = absurd m
check_results-Public net hostname (i ∷ ips) h ip m =
    elim (Bool-cases (is_private_ip (net.ip_address i))) [
      | inl p ↦ ground (arith, p, h)
      | inr p ↦ elim m [
        | inl e ↦ subst (Public net) e (Public-is_private_ip net i p)
        | inr n ↦ check_results-Public net hostname ips (ground (arith, p, h)) ip n
      ]
    ]

Resolves-resolve_and_check :
    (net : Net) (hostname : String) (found : Option (List String))
    → net.getaddrinfo hostname ≡ found
    → resolve_and_check net hostname found ≡ none
    → Resolves net hostname
unfolding resolve_and_check Resolves
Resolves-resolve_and_check net hostname none e h = ground (arith, h)
Resolves-resolve_and_check net hostname (some ips) e h =
    (ips, e, check_results-Public net hostname ips h)

HostAllowed-check_host :
    (net : Net) (resolve_dns allow_private : Bool) (hostname : String)
    → hostname ≢ ""
    → check_host net resolve_dns allow_private hostname ≡ none
    → HostAllowed net resolve_dns allow_private hostname
unfolding check_host HostAllowed
HostAllowed-check_host net resolve_dns true hostname n h = (n, λ e. ground (arith, e))
HostAllowed-check_host net resolve_dns false hostname n h =
    elim (Bool-cases (is_private_ip (net.ip_address hostname))) [
      | inl p ↦ ground (arith, p, h)
      | inr p ↦ (
        n,
        λ _. (
          Public-is_private_ip net hostname p,
          λ d. Resolves-resolve_and_check net hostname _ refl (ground (arith, p, d, h)),
        ),
      )
    ]

HttpScheme : Bool → String → Type 0
HttpScheme require_https scheme = (scheme ≡ "https") ⊎ ((scheme ≡ "http") × (require_https ≡ false))

other_scheme :
    (require_https : Bool) (scheme : String)
    → ("https" == scheme) ≡ false
    → ("http" == scheme) ≡ false
    → check_scheme require_https scheme ≡ none
    → HttpScheme require_https scheme
unfolding check_scheme
other_scheme require_https scheme n m h = elim (Bool-cases (has blocked_schemes scheme)) [
  | inl b ↦ ground (arith, b, h)
  | inr b ↦ ground (arith, b, n, m, h)
]

plain_http :
    (require_https : Bool) → check_scheme require_https "http" ≡ none → require_https ≡ false
unfolding check_scheme
plain_http true h = ground (arith, h)
plain_http false h = refl

HttpScheme-check_scheme :
    (require_https : Bool) (scheme : String)
    → check_scheme require_https scheme ≡ none
    → HttpScheme require_https scheme
unfolding HttpScheme
HttpScheme-check_scheme require_https scheme h = elim (Bool-cases ("https" == scheme)) [
  | inl e ↦ inl (sym ((eq_iff "https" scheme).0 e))
  | inr n ↦ elim (Bool-cases ("http" == scheme)) [
    | inl e ↦
        let q = (eq_iff "http" scheme).0 e in
        inr (
          sym q,
          plain_http require_https (subst (λ s. check_scheme require_https s ≡ none) (sym q) h),
        )
    | inr m ↦ other_scheme require_https scheme n m h
  ]
]

HostAllowed-check_hostname :
    (net : Net) (resolve_dns allow_private : Bool) (found : Option String)
    → check_hostname net resolve_dns allow_private found ≡ none
    → (hostname : String) × (found ≡ some hostname)
      × HostAllowed net resolve_dns allow_private hostname
unfolding check_hostname
HostAllowed-check_hostname net resolve_dns allow_private none h = ground (arith, h)
HostAllowed-check_hostname net resolve_dns allow_private (some hostname) h =
    elim (Bool-cases (hostname == "")) [
      | inl e ↦ ground (arith, e, h)
      | inr e ↦ (
        hostname,
        refl,
        HostAllowed-check_host net resolve_dns allow_private hostname
            (λ q. ground (arith, e, (eq_iff hostname "").1 q)) (ground (arith, e, h)),
      )
    ]

first_error-none :
    (e later : Option SsrfError) → first_error e later ≡ none → (e ≡ none) × (later ≡ none)
first_error-none none later h = (refl, h)
first_error-none (some e) later h = ground (arith, h)

-- A URL that passes has the scheme https, or http where https is not required, and a host; unless
-- private networks are allowed, the host is no private address and, where names are resolved, it
-- resolves, to public addresses only.
pub validate_outbound_url-Acceptable :
    (net : Net) (url : String) (require_https resolve_dns allow_private : Bool)
    → validate_outbound_url net url require_https resolve_dns allow_private ≡ none
    → Acceptable net url require_https resolve_dns allow_private
unfolding validate_outbound_url Acceptable HttpScheme
validate_outbound_url-Acceptable net url require_https resolve_dns allow_private h =
    elim (Bool-cases (url == "" || strip url == "")) [
      | inl e ↦ ground (arith, e, h)
      | inr e ↦
          let (scheme, host) = first_error-none _ _ (rw e at h) in
          let (hostname, found, allowed) =
            HostAllowed-check_hostname net resolve_dns allow_private _ host in
          (HttpScheme-check_scheme require_https _ scheme, hostname, found, allowed)
    ]
