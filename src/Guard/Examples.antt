-- ===== src/Guard/Examples.antt =====
-- A small network on which URLs are validated.
use motoro.Prelude.{
  ◌+◌, ◌*◌, ◌^◌, eq_text, true, false, ◌==◌, none, some, [], ◌∷◌, ◌≡◌, ◌↔◌, refl, if◌then◌else◌,
}
use motoro.Guard.{
  v4, v6, quad, is_private_ip, Net, resolves_to_private, blocked_scheme, validate_outbound_url,
}
use motoro.Guard.Networks.{Private, is_private_ip-Private}
use motoro.Guard.Acceptance.{Acceptable, validate_outbound_url-Acceptable}

-- example.org has a public address, trap.org that of the metadata service.
abbrev small_net : Net
small_net = record {
  urlparse = λ url.
      if url == "FILE:///etc"
      then record { scheme = "FILE"; hostname = none }
      else if url == "http://trap.org"
      then record { scheme = "http"; hostname = some "trap.org" }
      else record { scheme = "https"; hostname = some "example.org" };
  ip_address = λ s.
      if s == "169.254.169.254"
      then some (v4 (quad 169 254 169 254))
      else if s == "93.184.216.34"
      then some (v4 (quad 93 184 216 34))
      else none;
  getaddrinfo =
      λ s. if s == "trap.org" then some ("169.254.169.254" ∷ []) else some ("93.184.216.34" ∷ []);
}

finds_trap :
    validate_outbound_url small_net "http://trap.org" false true false
    ≡ some (resolves_to_private "trap.org" "169.254.169.254")
unfolding validate_outbound_url
finds_trap = refl

refuses_files :
    validate_outbound_url small_net "FILE:///etc" false true false ≡ some (blocked_scheme "file")
unfolding validate_outbound_url
refuses_files = refl

passes_example : validate_outbound_url small_net "https://example.org" true true false ≡ none
unfolding validate_outbound_url
passes_example = refl

-- The loopback address, mapped into IPv6.
blocks_mapped : is_private_ip (some (v6 (65535 * 2 ^ 32 + quad 127 0 0 1))) ≡ true
unfolding is_private_ip
blocks_mapped = refl

is_private_ip-Private_example :
    (is_private_ip (some (v4 (quad 172 31 0 1))) ≡ true) ↔ Private (v4 (quad 172 31 0 1))
is_private_ip-Private_example = is_private_ip-Private (v4 (quad 172 31 0 1))

validate_outbound_url-Acceptable_example :
    Acceptable small_net "https://example.org" true true false
validate_outbound_url-Acceptable_example =
    validate_outbound_url-Acceptable small_net "https://example.org" true true false passes_example
