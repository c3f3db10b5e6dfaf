-- ===== src/SsrfGuard.antt =====
-- src/research/ssrf_guard.py: which hosts and addresses a page may be fetched from, and the first
-- part of `fetch_website_snapshot` of src/research/fetch.py, which pins the connection. The texts of
-- the errors are left out.
pub mod Pinned
mod Tests
use Prim.Native.Char.{Char, code}
use Prim.Native.String.{compare}
use Prim.Native.Nat.{Ordering}
use multi_agent_intel_pipeli.Prelude.{
  String, Bool, true, false, not, ◌&&◌, ◌||◌, List, [], ◌∷◌, Option, none, some, eqb, if◌then◌else◌,
  str_mem, strip, nonempty, nonempty_text, contains, or_default,
}

-- What `urlparse` reads off a URL.
pub record Url : Type 0 where
  pub scheme : String
  pub hostname : Option String

-- What the guard asks of Python and of the network. `is_global` is `ipaddress.ip_address(s).is_global`
-- and `none` for a text that is no address; `addresses` is what `getaddrinfo` answers at one time,
-- and `none` where it fails; `parse` is `urlparse`, and `none` where it raises.
pub record Network : Type 0 where
  pub lower : String → String
  pub is_global : String → Option Bool
  pub addresses : String → Option (List String)
  pub parse : String → Option Url

-- The codes of `SSRFBlockedError`.
pub data BlockCode : Type 0 where
  dns_resolution_failed blocked_private_host blocked_redirect_target : BlockCode
  unsupported_scheme invalid_url : BlockCode

-- The addresses of a host, or the error.
pub data Resolution : Type 0 where
  resolved : List String → Resolution
  refused : BlockCode → Resolution

abbrev is_bracket : Char → Bool
is_bracket c = eqb (code c) 91 || eqb (code c) 93

-- `s.strip("[]")`
drop_brackets : String → String
drop_brackets String.[] = String.[]
drop_brackets (String.◌∷◌ c s) = if is_bracket c then drop_brackets s else String.◌∷◌ c s

abbrev empty_text : String → Bool
empty_text String.[] = true
empty_text (String.◌∷◌ c s) = false

cut_brackets : String → String
cut_brackets String.[] = String.[]
cut_brackets (String.◌∷◌ c s) =
    let rest = cut_brackets s in
    if empty_text rest && is_bracket c then String.[] else String.◌∷◌ c rest

-- The addresses without the empty ones and without repetitions.
unfoldable pub distinct_from : List String → List String → List String
distinct_from seen [] = []
distinct_from seen (ip ∷ ips) =
    let rest = distinct_from seen ips in
    let fresh = ip ∷ distinct_from (ip ∷ seen) ips in
    if not (nonempty_text ip) || str_mem ip seen then rest else fresh

abbrev before : String → String → Bool
before s t = elim (compare s t) [ Ordering.gt ↦ false | _ ↦ true ]

unfoldable pub insert_sorted : String → List String → List String
insert_sorted s [] = s ∷ []
insert_sorted s (t ∷ ts) =
    let later = insert_sorted s ts in if before s t then s ∷ t ∷ ts else t ∷ later

-- `sorted(ips)`
unfoldable pub sort : List String → List String
sort [] = []
sort (s ∷ ss) = insert_sorted s (sort ss)

module _ (net : Network) where
  -- An address that is known not to be global; what is no address is passed over.
  unfoldable pub is_private : String → Bool
  is_private ip = elim (net.is_global ip) [ none ↦ false | some global ↦ not global ]

  any_private : List String → Bool
  unfolding is_private
  any_private [] = false
  any_private (ip ∷ ips) = is_private ip || any_private ips

  unfoldable pub check_addresses : List String → Resolution
  unfolding any_private
  check_addresses ips =
      if not (nonempty ips)
      then refused dns_resolution_failed
      else if any_private ips
      then refused blocked_private_host
      else resolved (sort ips)

  unfoldable pub resolve_by_dns : Option (List String) → Resolution
  resolve_by_dns none = refused dns_resolution_failed
  resolve_by_dns (some answers) = check_addresses (distinct_from [] answers)

  -- A host that is itself a global address is taken as it is. The error that is raised for another
  -- address is a `ValueError`, which is caught there, so that such a host is looked up like a name.
  unfoldable pub resolve_literal : String → Option Bool → Resolution
  resolve_literal hostname none = resolve_by_dns (net.addresses hostname)
  resolve_literal hostname (some global) =
      let looked_up = resolve_by_dns (net.addresses hostname) in
      if global then resolved (hostname ∷ []) else looked_up

  -- The host as it is looked up.
  unfoldable pub host_of : String → String
  unfolding drop_brackets cut_brackets
  host_of hostname = net.lower (cut_brackets (drop_brackets (strip hostname)))

  unfoldable pub resolve_host : String → Resolution
  resolve_host host =
      if nonempty_text host then resolve_literal host (net.is_global host) else refused invalid_url

  -- `resolve_and_validate_host`
  unfoldable pub resolve_and_validate_host : String → Resolution
  unfolding host_of resolve_host
  resolve_and_validate_host hostname = resolve_host (host_of hostname)

  -- The error of a host, of the first target or of a redirect.
  abbrev host_error : Bool → Resolution → Option BlockCode
  host_error redirect (resolved ips) = none
  host_error redirect (refused code) = some (if redirect then blocked_redirect_target else code)

  unfoldable pub check_url : Bool → Option Url → Option BlockCode
  check_url redirect none = some invalid_url
  check_url redirect (some url) =
      let hostname = net.lower (or_default "" url.hostname) in
      if not (str_mem (net.lower url.scheme) ("http" ∷ "https" ∷ []))
      then some unsupported_scheme
      else if nonempty_text hostname
      then host_error redirect (resolve_and_validate_host hostname)
      else some invalid_url

  -- `assert_safe_url`: the error that it raises, if any.
  unfoldable pub assert_safe_url : Bool → String → Option BlockCode
  assert_safe_url redirect url = check_url redirect (net.parse (strip url))

-- What `fetch_website_snapshot` does about a URL before it opens a connection.
pub data Opening : Type 0 where
  -- The URL has no scheme.
  no_scheme : Opening
  blocked : BlockCode → Opening
  -- The URL is not parsed, which raises.
  failed : Opening
  -- The connection is opened, to this address if there is one.
  connect : (pinned_ip : Option String) → Opening

abbrev first_ip : Resolution → Opening
first_ip (refused code) = blocked code
first_ip (resolved []) = connect none
first_ip (resolved (ip ∷ ips)) = connect (some ip)

-- The names are looked up once for the check and once more for the pin; the answers may differ.
module _ (checked pinned : Network) where
  unfoldable pub open_pinned : Option Url → Opening
  open_pinned none = failed
  open_pinned (some url) =
      let hostname = pinned.lower (or_default "" url.hostname) in
      if nonempty_text hostname
      then first_ip (resolve_and_validate_host pinned hostname)
      else connect none

  unfoldable pub open_if : Option BlockCode → String → Opening
  open_if (some code) url = blocked code
  open_if none url = open_pinned (pinned.parse url)

  -- The guard of `fetch_website_snapshot`.
  unfoldable pub open_website : String → Opening
  open_website url =
      let cleaned = strip url in
      if not (nonempty_text cleaned) || not (contains "://" cleaned)
      then no_scheme
      else open_if (assert_safe_url checked false cleaned) cleaned
