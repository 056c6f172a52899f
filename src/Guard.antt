-- ===== src/Guard.antt =====
-- security/ssrf_guard.py: which URLs outbound requests may go to.
pub mod Networks
pub mod Acceptance
mod Examples
use Prim.Native.Char.{Char, code}
use Prim.Native.String
use motoro.Prelude.{
  ℕ, ◌+◌, ◌-◌, ◌*◌, ◌/◌, ◌^◌, String, eq_text, eq_number, Bool, true, false, not, ◌==◌, ◌&&◌, ◌||◌,
  Option, none, some, List, [], ◌∷◌, any, has, strip, lower, if◌then◌else◌,
}

-- What `ipaddress.ip_address` makes of a text: the number of the address.
pub data Address : Type 0 where
  v4 v6 : ℕ → Address

-- A network has an address, all of whose bits behind the prefix are zero, and the prefix's length.
pub record Network : Type 0 where
  pub address : ℕ
  pub prefix : ℕ

abbrev pub subnet : ℕ → ℕ → Network
subnet address prefix = record { address = address; prefix = prefix }

-- The address a.b.c.d.
abbrev pub quad : ℕ → ℕ → ℕ → ℕ → ℕ
quad a b c d = a * 2 ^ 24 + b * 2 ^ 16 + c * 2 ^ 8 + d

abbrev pub blocked_ipv4_networks : List Network
blocked_ipv4_networks =
    subnet (quad 10 0 0 0) 8
    ∷ subnet (quad 172 16 0 0) 12
    ∷ subnet (quad 192 168 0 0) 16
    ∷ subnet (quad 169 254 0 0) 16
    ∷ subnet (quad 127 0 0 0) 8
    ∷ subnet (quad 0 0 0 0) 8
    ∷ subnet (quad 100 64 0 0) 10
    ∷ subnet (quad 192 0 0 0) 24
    ∷ subnet (quad 192 0 2 0) 24
    ∷ subnet (quad 198 18 0 0) 15
    ∷ subnet (quad 198 51 100 0) 24
    ∷ subnet (quad 203 0 113 0) 24
    ∷ subnet (quad 240 0 0 0) 4
    ∷ subnet (quad 255 255 255 255) 32
    ∷ []

-- ::1, fc00::, fe80::, :: and ::ffff:0:0; a group of an IPv6 address is 16 bits.
abbrev pub blocked_ipv6_networks : List Network
blocked_ipv6_networks =
    subnet 1 128
    ∷ subnet (64512 * 2 ^ 112) 7
    ∷ subnet (65152 * 2 ^ 112) 10
    ∷ subnet 0 128
    ∷ subnet (65535 * 2 ^ 32) 96
    ∷ []

-- addr in net: the leading bits agree.
unfoldable pub contains : ℕ → Network → ℕ → Bool
contains width net a = let hosts = 2 ^ (width - net.prefix) in a / hosts == net.address / hosts

unfoldable pub is_private_ip : Option Address → Bool
unfolding contains
is_private_ip none = false
is_private_ip (some (v4 a)) = any (λ net. contains 32 net a) blocked_ipv4_networks
is_private_ip (some (v6 a)) = any (λ net. contains 128 net a) blocked_ipv6_networks

-- `urlparse(url)`: no scheme is the empty text.
pub record ParsedUrl : Type 0 where
  pub scheme : String
  pub hostname : Option String

-- What lies outside: the parsers of urllib and ipaddress, and the resolver, which fails or gives
-- the texts of addresses.
pub record Net : Type 0 where
  pub urlparse : String → ParsedUrl
  pub ip_address : String → Option Address
  pub getaddrinfo : String → Option (List String)

abbrev pub blocked_schemes : List String
blocked_schemes =
    "file" ∷ "gopher" ∷ "dict" ∷ "ldap" ∷ "ldaps" ∷ "ftp" ∷ "sftp" ∷ "smb" ∷ "tftp" ∷ "jar"
    ∷ "netdoc" ∷ "mailto" ∷ "javascript" ∷ "data" ∷ []

-- The messages, as the data that they name.
pub data SsrfError : Type 0 where
  empty_url no_hostname : SsrfError
  blocked_scheme unknown_scheme not_https : String → SsrfError
  private_host unresolvable : String → SsrfError
  resolves_to_private : String → String → SsrfError

-- for ... in results
unfoldable pub check_results : Net → String → List String → Option SsrfError
unfolding is_private_ip
check_results net hostname [] = none
check_results net hostname (ip ∷ ips) =
    let rest = check_results net hostname ips in
    if is_private_ip (net.ip_address ip) then some (resolves_to_private hostname ip) else rest

unfoldable pub resolve_and_check : Net → String → Option (List String) → Option SsrfError
unfolding check_results
resolve_and_check net hostname none = some (unresolvable hostname)
resolve_and_check net hostname (some ips) = check_results net hostname ips

unfoldable pub check_host : Net → Bool → Bool → String → Option SsrfError
unfolding is_private_ip resolve_and_check
check_host net resolve_dns allow_private hostname =
    if allow_private
    then none
    else if is_private_ip (net.ip_address hostname)
    then some (private_host hostname)
    else if resolve_dns
    then resolve_and_check net hostname (net.getaddrinfo hostname)
    else none

unfoldable pub check_hostname : Net → Bool → Bool → Option String → Option SsrfError
unfolding check_host
check_hostname net resolve_dns allow_private none = some no_hostname
check_hostname net resolve_dns allow_private (some hostname) =
    if hostname == "" then some no_hostname else check_host net resolve_dns allow_private hostname

unfoldable pub check_scheme : Bool → String → Option SsrfError
check_scheme require_https scheme =
    if has blocked_schemes scheme
    then some (blocked_scheme scheme)
    else if not (has ("http" ∷ "https" ∷ []) scheme)
    then some (unknown_scheme scheme)
    else if require_https && not (scheme == "https")
    then some (not_https scheme)
    else none

-- The first error ends the validation.
abbrev pub first_error : Option SsrfError → Option SsrfError → Option SsrfError
first_error none later = later
first_error (some e) later = some e

-- The SSRFError that is raised, if any.
unfoldable pub validate_outbound_url : Net → String → Bool → Bool → Bool → Option SsrfError
unfolding strip lower check_scheme check_hostname
validate_outbound_url net url require_https resolve_dns allow_private =
    if url == "" || strip url == ""
    then some empty_url
    else let parsed = net.urlparse url in
      first_error (check_scheme require_https (lower parsed.scheme))
        (check_hostname net resolve_dns allow_private parsed.hostname)
