-- ===== src/Peer/Policy.antt =====
-- The policy for the addresses that the relay contacts: `validate_peer_url` and `peer_addr_allowed`
-- of relay/src/peer.rs. The url crate and the resolver are parameters; the resolver is asked once, as at
-- the check, and what a later connection resolves is not modelled.
use certrelay.Prelude.{
  ℕ, Bool, true, false, not, ◌&&◌, ◌||◌, Option, none, some, List, [], ◌∷◌, if◌then◌else◌, eqb,
  String, string_dec_eq,
}
use certrelay.Peer.Address.{IpAddr, ip_is_public}

-- What the relay reads of a parsed URL (url::Url, url::Host).
pub data Host : Type 0 where
  domain : String → Host
  address : IpAddr → Host

pub record Url : Type 0 where
  pub scheme : String
  pub username : String
  pub password : Option String
  pub host : Option Host
  pub port_or_known_default : Option ℕ

pub data UrlError : Type 0 where
  invalid_url bad_scheme has_credentials no_host private_address : UrlError

pub data Checked : Type 0 where
  ok : Checked
  err : UrlError → Checked

abbrev is_none {ℓ} : {A : Type ℓ} → Option A → Bool
is_none none = true
is_none (some a) = false

check_host : Bool → Option Host → Checked
check_host allow_private none = err no_host
check_host allow_private (some (domain name)) = ok
check_host allow_private (some (address ip)) =
    if allow_private || ip_is_public ip then ok else err private_address

check_url : Bool → Url → Checked
unfolding check_host
check_url allow_private u =
    if not (eqb u.scheme "http") && not (eqb u.scheme "https")
    then err bad_scheme
    else if not (eqb u.username "") || not (is_none u.password)
    then err has_credentials
    else check_host allow_private u.host

pub validate_peer_url : (String → Option Url) → String → Bool → Checked
unfolding check_url
validate_peer_url parse raw allow_private = elim (parse raw) [
  | none ↦ err invalid_url
  | some u ↦ check_url allow_private u
]

pub all_public : List IpAddr → Bool
all_public [] = true
all_public (ip ∷ ips) = ip_is_public ip && all_public ips

abbrev pub port_of : Url → ℕ
port_of u = elim u.port_or_known_default [ none ↦ 443 | some p ↦ p ]

resolved_public : (String → ℕ → Option (List IpAddr)) → Url → Bool
unfolding all_public
resolved_public lookup_host u = elim u.host [
  | none ↦ false
  | some (address _) ↦ true
  | some (domain name) ↦ elim (lookup_host name (port_of u)) [
    | none ↦ false
    | some ips ↦ all_public ips
  ]
]

abbrev pub is_ok : Checked → Bool
is_ok ok = true
is_ok (err e) = false

-- `lookup_host` resolves a name and a port, or fails.
unfoldable pub peer_addr_allowed :
    (String → Option Url) → (String → ℕ → Option (List IpAddr)) → String → Bool → Bool
unfolding validate_peer_url resolved_public
peer_addr_allowed parse lookup_host raw allow_private =
    if not (is_ok (validate_peer_url parse raw allow_private))
    then false
    else if allow_private
    then true
    else elim (parse raw) [ none ↦ false | some u ↦ resolved_public lookup_host u ]
