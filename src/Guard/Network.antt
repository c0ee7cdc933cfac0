-- ===== src/Guard/Network.antt =====
-- What an allowed database target satisfies.
use cognitive_rag_system.Prelude.{
  Bool, true, false, ◌≡◌, ◌↔◌, ◌≢◌, refl, ap, Option, none, some, List, [], ◌∷◌, map, All, distinct,
  arith, Bool-cases, inl, inr, ◌⊎◌,
}
use cognitive_rag_system.Prelude.Sort.{sort_by, IsSorted, sort_by-IsSorted}
use cognitive_rag_system.Text.{Text, text_in, is_empty}
use cognitive_rag_system.Guard.Dialect.{Dialect, sqlite, canonical_dialect, dialect_value}
use cognitive_rag_system.Guard.Target.{
  IpAddress, TargetError, allowed, hard_blocked_hosts, is_forbidden, is_restricted, check_addresses,
  same_ip, verdict, text_le, check_resolved, target_host, permitted, validate_network_target,
  validate_canonical_target, validate_db_target,
}

-- An address that may be reached: it is none of the hard-blocked, link-local, unspecified or
-- multicast ones, and if it is restricted then the settings allow it.
abbrev pub IsReachable : (IpAddress → Bool) → IpAddress → Type 0
IsReachable permitted ip =
    (is_forbidden ip ≡ false) × ((is_restricted ip ≡ false) ⊎ (permitted ip ≡ true))

check_addresses-none :
    (permitted : IpAddress → Bool) (ips : List IpAddress)
    → check_addresses permitted ips ≡ none
    → All (IsReachable permitted) ips
unfolding check_addresses
check_addresses-none permitted [] h = tt
check_addresses-none permitted (ip ∷ ips) h = ground (arith, check_addresses-none permitted ips)

check_addresses_pass :
    (permitted : IpAddress → Bool) (ips : List IpAddress)
    → All (IsReachable permitted) ips
    → check_addresses permitted ips ≡ none
unfolding check_addresses
check_addresses_pass permitted [] h = refl
check_addresses_pass permitted (ip ∷ ips) h = ground (arith, check_addresses_pass permitted ips)

text_le_total : (s t : Text) → text_le s t ≡ false → text_le t s ≡ true
unfolding text_le
text_le_total [] t h = cc
text_le_total (c ∷ s) [] h = refl
text_le_total (c ∷ s) (d ∷ t) h = ground (arith, text_le_total s t)

text_le_trans : (s t u : Text) → text_le s t ≡ true → text_le t u ≡ true → text_le s u ≡ true
unfolding text_le
text_le_trans [] t u h k = refl
text_le_trans (c ∷ s) [] u h k = cc
text_le_trans (c ∷ s) (d ∷ t) [] h k = cc
text_le_trans (c ∷ s) (d ∷ t) (e ∷ u) h k = ground (arith, text_le_trans s t u)

-- The contract of the target check, for the host of the URL.
pub record IsOpenTo (permitted : Text → IpAddress → Bool)
    (getaddrinfo : Text → Option (List IpAddress)) (host : Text) (names : List Text) : Type 0 where
  pub named : is_empty host ≡ false
  pub not_metadata : text_in host hard_blocked_hosts ≡ false
  pub first : IpAddress
  pub others : List IpAddress
  pub resolved : getaddrinfo host ≡ some (first ∷ others)
  pub reachable : All (IsReachable (permitted host)) (distinct same_ip (first ∷ others))
  pub listed :
      sort_by text_le (map (λ (ip : IpAddress). ip.text) (distinct same_ip (first ∷ others)))
      ≡ names

verdict-allowed :
    (d : Dialect) (ips : List IpAddress) (e : Option TargetError) {name : Text} {names : List Text}
    → verdict d ips e ≡ allowed name names
    → (e ≡ none)
      × (sort_by text_le (map (λ (ip : IpAddress). ip.text) ips) ≡ names)
      × (dialect_value d ≡ name)
verdict-allowed d ips none h = (refl, cc, cc)
verdict-allowed d ips (some e) h = cc

module _ (hostname : Text → Option Text) (getaddrinfo : Text → Option (List IpAddress))
    (ip_network : Text → Option (IpAddress → Bool)) (private_hosts private_cidrs : Text) where
  abbrev pub may : Text → IpAddress → Bool
  may = permitted hostname getaddrinfo ip_network private_hosts private_cidrs

  check_resolved-allowed :
      (d : Dialect) (host : Text) (answer : Option (List IpAddress)) (name : Text)
      (names : List Text)
      → getaddrinfo host ≡ answer
      → is_empty host ≡ false
      → text_in host hard_blocked_hosts ≡ false
      → check_resolved d host (may host) answer ≡ allowed name names
      → IsOpenTo may getaddrinfo host names × (dialect_value d ≡ name)
  unfolding check_resolved
  check_resolved-allowed d host none name names e n m h = cc
  check_resolved-allowed d host (some []) name names e n m h = cc
  check_resolved-allowed d host (some (ip ∷ ips)) name names e n m h =
      let (pass, listed, canonical) = verdict-allowed d (distinct same_ip (ip ∷ ips)) _ h in
      (
        record {
          named = n;
          not_metadata = m;
          first = ip;
          others = ips;
          resolved = e;
          reachable = check_addresses-none (may host) _ pass;
          listed = listed;
        },
        canonical,
      )

  network-allowed :
      (d : Dialect) (url : Text) (names : List Text)
      → validate_network_target hostname getaddrinfo ip_network private_hosts private_cidrs d url
        ≡ allowed (dialect_value d) names
      → IsOpenTo may getaddrinfo (target_host (hostname url)) names
  unfolding validate_network_target
  network-allowed d url names h =
      let host = target_host (hostname url) in
      elim (Bool-cases (is_empty host)) [
        | inl blank ↦ cc (rw blank at h)
        | inr n ↦ elim (Bool-cases (text_in host hard_blocked_hosts)) [
          | inl metadata ↦ cc (rw (n, metadata) at h)
          | inr m ↦
              (check_resolved-allowed d host (getaddrinfo host) (dialect_value d) names refl n m
                (rw (n, m) at h)).0
        ]
      ]

  network_pass :
      (d : Dialect) (url : Text) (names : List Text)
      → IsOpenTo may getaddrinfo (target_host (hostname url)) names
      → validate_network_target hostname getaddrinfo ip_network private_hosts private_cidrs d url
        ≡ allowed (dialect_value d) names
  unfolding validate_network_target check_resolved
  network_pass d url names r =
      rw (r.named, r.not_metadata, r.resolved)
        (rw (check_addresses_pass (may (target_host (hostname url))) _ r.reachable)
          (ap (allowed (dialect_value d)) r.listed))

  validate_canonical_target-network :
      (d : Dialect) (url : Text)
      → d ≢ sqlite
      → validate_canonical_target hostname getaddrinfo ip_network private_hosts private_cidrs
          (some d)
          url
        ≡ validate_network_target hostname getaddrinfo ip_network private_hosts private_cidrs d url
  unfolding validate_canonical_target
  validate_canonical_target-network sqlite url h = absurd (h refl)
  validate_canonical_target-network _ url h = refl

  -- For a supported dialect other than SQLite, a target is allowed under the dialect's name
  -- exactly if its URL names a host that is no metadata host, the host resolves to at least one
  -- address, and every address it resolves to is reachable; the answer lists the distinct
  -- addresses in order. An answer of the resolver that is an error allows nothing.
  pub validate_db_target-allowed_iff :
      (d : Dialect) (dialect url : Text) (names : List Text)
      → canonical_dialect dialect ≡ some d
      → d ≢ sqlite
      → (validate_db_target hostname getaddrinfo ip_network private_hosts private_cidrs dialect url
          ≡ allowed (dialect_value d) names)
        ↔ IsOpenTo may getaddrinfo (target_host (hostname url)) names
  unfolding validate_db_target
  validate_db_target-allowed_iff d dialect url names known remote =
      rw (known, validate_canonical_target-network d url remote)
        (network-allowed d url names, network_pass d url names)

  -- The addresses of an allowed target are reported in order.
  allowed-IsSorted :
      (host : Text) (names : List Text)
      → IsOpenTo may getaddrinfo host names
      → IsSorted text_le names
  allowed-IsSorted host names r = rw (← r.listed) (
      sort_by-IsSorted text_le text_le_total text_le_trans
        (map (λ (ip : IpAddress). ip.text) (distinct same_ip (r.first ∷ r.others))))
