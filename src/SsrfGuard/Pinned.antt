-- ===== src/SsrfGuard/Pinned.antt =====
-- Where a connection may go that the guard lets through.
use mathlib.Core.Path.{subst}
use multi_agent_intel_pipeli.Prelude.{
  String, Bool, true, false, not, ◌||◌, List, [], ◌∷◌, Option, none, some, ◌≡◌, refl, sym, ap,
  arith, Bool-cases, inl, inr, str_mem, nonempty, nonempty_text, strip, contains, or_default,
  strip_twice,
}
use multi_agent_intel_pipeli.SsrfGuard.{
  Url, Network, BlockCode, Resolution, resolved, refused, is_private, any_private, insert_sorted,
  sort, check_addresses, resolve_by_dns, resolve_literal, resolve_host, resolve_and_validate_host,
  check_url, assert_safe_url, Opening, connect, first_ip, open_pinned, open_if, open_website,
}

-- The URL is of a scheme that the guard allows and names a host.
abbrev pub HasTarget : Network → Option Url → Type 0
HasTarget net none = ⊥
HasTarget net (some url) =
    (str_mem (net.lower url.scheme) ("http" ∷ "https" ∷ []) ≡ true)
    × (nonempty_text (net.lower (or_default "" url.hostname)) ≡ true)

-- What a fetch may do: refuse the URL, or open a connection for a URL with a target that is allowed,
-- to an address that the second lookup does not know to be private.
abbrev pub IsPinned : (checked pinned : Network) → Option Url → Opening → Type 0
IsPinned checked pinned url (connect none) = ⊥
IsPinned checked pinned url (connect (some ip)) =
    HasTarget checked url × (is_private pinned ip ≡ false)
IsPinned checked pinned url _ = Unit

module _ (net : Network) where
  -- No address of a list is known to be private.
  NoPrivate : List String → Type 0
  NoPrivate ips = any_private net ips ≡ false

  insert_sorted-private :
      (s : String) (ts : List String)
      → any_private net (insert_sorted s ts) ≡ (is_private net s || any_private net ts)
  unfolding any_private insert_sorted
  insert_sorted-private s [] = refl
  insert_sorted-private s (t ∷ ts) = ground (arith, insert_sorted-private s ts)

  sort-private : (ss : List String) → any_private net (sort ss) ≡ any_private net ss
  unfolding any_private sort
  sort-private [] = refl
  sort-private (s ∷ ss) = rw (insert_sorted-private, sort-private ss) refl

  insert_sorted-nonempty : (s : String) (ts : List String) → nonempty (insert_sorted s ts) ≡ true
  unfolding insert_sorted
  insert_sorted-nonempty s [] = refl
  insert_sorted-nonempty s (t ∷ ts) = ground arith

  sort-nonempty : (ss : List String) → nonempty (sort ss) ≡ nonempty ss
  unfolding sort
  sort-nonempty [] = refl
  sort-nonempty (s ∷ ss) = insert_sorted-nonempty s (sort ss)

  -- A host that resolves does so to at least one address, and to none that is known to be private.
  IsSafe : Resolution → Type 0
  IsSafe (refused code) = Unit
  IsSafe (resolved ips) = (nonempty ips ≡ true) × (any_private net ips ≡ false)

  check_addresses-IsSafe : (ips : List String) → IsSafe (check_addresses net ips)
  unfolding check_addresses IsSafe
  check_addresses-IsSafe ips = elim (Bool-cases (nonempty ips)) [
    | inr e ↦ rw e tt
    | inl e ↦ elim (Bool-cases (any_private net ips)) [
      | inl f ↦ rw (e, f) tt
      | inr f ↦ rw (e, f) (rw (sort-nonempty, e) refl, rw (sort-private, f) refl)
    ]
  ]

  resolve_by_dns-IsSafe : (answers : Option (List String)) → IsSafe (resolve_by_dns net answers)
  unfolding resolve_by_dns IsSafe
  resolve_by_dns-IsSafe none = tt
  resolve_by_dns-IsSafe (some answers) = check_addresses-IsSafe _

  resolve_literal-IsSafe :
      (host : String) (global : Option Bool)
      → net.is_global host ≡ global
      → IsSafe (resolve_literal net host global)
  unfolding resolve_literal IsSafe any_private
  resolve_literal-IsSafe host none h = resolve_by_dns-IsSafe (net.addresses host)
  resolve_literal-IsSafe host (some true) h = (refl, rw (is_private, h) refl)
  resolve_literal-IsSafe host (some false) h = resolve_by_dns-IsSafe (net.addresses host)

  resolve_host-IsSafe : (host : String) → IsSafe (resolve_host net host)
  unfolding resolve_host IsSafe
  resolve_host-IsSafe host = elim (Bool-cases (nonempty_text host)) [
    | inl e ↦ rw e (resolve_literal-IsSafe host (net.is_global host) refl)
    | inr e ↦ rw e tt
  ]

  resolve_and_validate_host-IsSafe :
      (hostname : String) → IsSafe (resolve_and_validate_host net hostname)
  unfolding resolve_and_validate_host
  resolve_and_validate_host-IsSafe hostname = resolve_host-IsSafe _

check_url-HasTarget :
    (net : Network) (redirect : Bool) (url : Option Url)
    → check_url net redirect url ≡ none
    → HasTarget net url
unfolding check_url
check_url-HasTarget net redirect none h = cc
check_url-HasTarget net redirect (some url) h = ground arith

first_ip-IsPinned :
    (checked pinned : Network) (url : Option Url) (r : Resolution)
    → HasTarget checked url
    → IsSafe pinned r
    → IsPinned checked pinned url (first_ip r)
unfolding IsSafe any_private
first_ip-IsPinned checked pinned url (refused code) t h = tt
first_ip-IsPinned checked pinned url (resolved []) t h = absurd (cc)
first_ip-IsPinned checked pinned url (resolved (ip ∷ ips)) t h = (t, ground (arith, h.1))

module _ (checked pinned : Network) (lower : pinned.lower ≡ checked.lower)
    (parse : pinned.parse ≡ checked.parse) where
  open_pinned-IsPinned :
      (url : Option Url)
      → HasTarget checked url
      → IsPinned checked pinned url (open_pinned checked pinned url)
  unfolding open_pinned
  open_pinned-IsPinned none h = absurd h
  open_pinned-IsPinned (some url) (scheme, host) =
      let named : nonempty_text (pinned.lower (or_default "" url.hostname)) ≡ true =
        rw lower host in
      rw named (
        first_ip-IsPinned checked pinned (some url) _ (scheme, host)
          (resolve_and_validate_host-IsSafe pinned _))

  open_if-IsPinned :
      (code : Option BlockCode) (url : String)
      → (code ≡ none → HasTarget checked (checked.parse url))
      → IsPinned checked pinned (checked.parse url) (open_if checked pinned code url)
  unfolding open_if
  open_if-IsPinned (some code) url h = tt
  open_if-IsPinned none url h =
      let same : pinned.parse url ≡ checked.parse url =
        ap (λ (p : String → Option Url). p url) parse in
      subst (λ u. IsPinned checked pinned u (open_pinned checked pinned (pinned.parse url))) same
        (open_pinned-IsPinned (pinned.parse url)
          (subst (λ u. HasTarget checked u) (sym same) (h refl)))

  -- Where the lookups for the check and for the pin read URLs alike, a fetch opens a connection only
  -- for a URL with the scheme http or https and a host, and only to an address that the second
  -- lookup does not know to be private, whatever the name server answers to either.
  pub open_website-IsPinned :
      (url : String)
      → IsPinned checked pinned (checked.parse (strip url)) (open_website checked pinned url)
  unfolding open_website assert_safe_url
  open_website-IsPinned url =
      elim (Bool-cases (not (nonempty_text (strip url)) || not (contains "://" (strip url)))) [
        | inl e ↦ rw e tt
        | inr e ↦ rw e (
            open_if-IsPinned (assert_safe_url checked false (strip url)) (strip url)
              (λ h. check_url-HasTarget checked false _ (rw (strip_twice url) at h)))
      ]
