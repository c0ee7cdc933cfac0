-- ===== src/Guard/Target.antt =====
-- sql_guard.py, `validate_db_target`: which hosts a database connector may reach.
use cognitive_rag_system.Prelude.{
  ℕ, Bool, true, false, not, ◌&&◌, ◌||◌, Option, none, some, List, [], ◌∷◌, map, any, distinct, ltb,
  nat_eq, if◌then◌else◌,
}
use cognitive_rag_system.Prelude.Sort.{sort_by}
use cognitive_rag_system.Text.{Text, codes, lower, strip, rstrip_by, text_in, text_eq, is_empty}
use cognitive_rag_system.Guard.Dialect.{Dialect, sqlite, canonical_dialect, dialect_value}

-- An address of the standard library's `ipaddress`: its text and the attributes that are read.
pub record IpAddress : Type 0 where
  pub text : Text
  pub is_link_local : Bool
  pub is_unspecified : Bool
  pub is_multicast : Bool
  pub is_private : Bool
  pub is_loopback : Bool
  pub is_site_local : Bool

pub data TargetError : Type 0 where
  unsupported_dialect no_host : TargetError
  metadata_host : Text → TargetError
  unresolved no_addresses : Text → TargetError
  restricted_address private_address : IpAddress → TargetError

pub data Target : Type 0 where
  allowed : Text → List Text → Target
  refused : TargetError → Target

-- `_HARD_BLOCKED_IPS`, in the form that `str` gives them
unfoldable pub hard_blocked_ips : List Text
hard_blocked_ips =
    map codes ("169.254.169.254" ∷ "169.254.170.2" ∷ "100.100.100.200" ∷ "fd00:ec2::254" ∷ [])

unfoldable pub hard_blocked_hosts : List Text
hard_blocked_hosts = map codes ("metadata.google.internal" ∷ "metadata.azure.internal" ∷ [])

abbrev prepend : ℕ → List Text → List Text
prepend c [] = (c ∷ []) ∷ []
prepend c (item ∷ items) = (c ∷ item) ∷ items

-- `raw.split(",")`
unfoldable pub split_commas : Text → List Text
split_commas [] = [] ∷ []
split_commas (c ∷ s) = if nat_eq c b',' then [] ∷ split_commas s else prepend c (split_commas s)

unfoldable pub strip_dots : Text → Text
strip_dots s = rstrip_by (λ c. nat_eq c b'.') s

-- The set comprehension of `_csv_values`, over the items.
unfoldable pub csv_items : List Text → List Text
csv_items [] = []
csv_items (item ∷ items) =
    let kept = csv_items items in
    if is_empty (strip item) then kept else lower (strip_dots (strip item)) ∷ kept

unfoldable pub csv_values : Text → List Text
csv_values raw = csv_items (split_commas raw)

-- The entries of the CIDR list that parse as networks; the others are logged and skipped.
unfoldable pub allowed_networks :
    (ip_network : Text → Option (IpAddress → Bool)) → List Text → List (IpAddress → Bool)
allowed_networks ip_network [] = []
allowed_networks ip_network (item ∷ items) = elim (ip_network item) [
  | some network ↦ network ∷ allowed_networks ip_network items
  | none ↦ allowed_networks ip_network items
]

-- The two tests of one resolved address.
unfoldable pub is_forbidden : IpAddress → Bool
is_forbidden ip =
    text_in ip.text hard_blocked_ips || ip.is_link_local || ip.is_unspecified || ip.is_multicast

unfoldable pub is_restricted : IpAddress → Bool
is_restricted ip = ip.is_private || ip.is_loopback || ip.is_site_local

unfoldable pub explicitly_allowed : Text → List Text → List (IpAddress → Bool) → IpAddress → Bool
explicitly_allowed host hosts networks ip =
    text_in host hosts || any (λ (network : IpAddress → Bool). network ip) networks

-- The loop over the resolved addresses: the first one that fails, if any.
unfoldable pub check_addresses : (IpAddress → Bool) → List IpAddress → Option TargetError
check_addresses permitted [] = none
check_addresses permitted (ip ∷ ips) =
    if is_forbidden ip
    then some (restricted_address ip)
    else if is_restricted ip && not (permitted ip)
    then some (private_address ip)
    else check_addresses permitted ips

-- `sorted` on texts compares their code points.
unfoldable pub text_le : Text → Text → Bool
text_le [] t = true
text_le (c ∷ s) [] = false
text_le (c ∷ s) (d ∷ t) = ltb c d || nat_eq c d && text_le s t

-- `resolved` is a set: equal addresses count once.
abbrev pub same_ip : IpAddress → IpAddress → Bool
same_ip a b = text_eq a.text b.text

abbrev pub verdict : Dialect → List IpAddress → Option TargetError → Target
verdict canonical ips (some e) = refused e
verdict canonical ips none =
    allowed (dialect_value canonical) (sort_by text_le (map (λ (ip : IpAddress). ip.text) ips))

unfoldable pub check_resolved :
    Dialect → Text → (IpAddress → Bool) → Option (List IpAddress) → Target
check_resolved canonical host permitted none = refused (unresolved host)
check_resolved canonical host permitted (some []) = refused (no_addresses host)
check_resolved canonical host permitted (some (ip ∷ ips)) =
    let resolved = distinct same_ip (ip ∷ ips) in
    verdict canonical resolved (check_addresses permitted resolved)

-- `(parsed.hostname or "").rstrip(".").lower()`
unfoldable pub target_host : Option Text → Text
target_host none = []
target_host (some h) = lower (strip_dots h)

-- `hostname` is that of `urlsplit(db_url)`, `getaddrinfo` the resolver (`none` where it raises),
-- `ip_network` the parser of a CIDR entry; the two texts are the settings
-- ALLOWED_DB_PRIVATE_HOSTS and ALLOWED_DB_PRIVATE_CIDRS.
module _ (hostname : Text → Option Text) (getaddrinfo : Text → Option (List IpAddress))
    (ip_network : Text → Option (IpAddress → Bool)) (private_hosts private_cidrs : Text) where
  unfoldable pub permitted : Text → IpAddress → Bool
  permitted host =
      explicitly_allowed host (csv_values private_hosts)
        (allowed_networks ip_network (csv_values private_cidrs))

  unfoldable pub validate_network_target : Dialect → Text → Target
  validate_network_target canonical db_url =
      let host = target_host (hostname db_url) in
      if is_empty host
      then refused no_host
      else if text_in host hard_blocked_hosts
      then refused (metadata_host host)
      else check_resolved canonical host (permitted host) (getaddrinfo host)

  unfoldable pub validate_canonical_target : Option Dialect → Text → Target
  validate_canonical_target none db_url = refused unsupported_dialect
  validate_canonical_target (some sqlite) db_url =
      allowed (codes "localhost") (codes "127.0.0.1" ∷ [])
  validate_canonical_target (some d) db_url = validate_network_target d db_url

  unfoldable pub validate_db_target : Text → Text → Target
  validate_db_target dialect db_url = validate_canonical_target (canonical_dialect dialect) db_url
