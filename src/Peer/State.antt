-- ===== src/Peer/State.antt =====
-- The state of the peer table of relay/src/peer.rs, and its two eviction loops. `now` is what a call
-- reads from `Instant::now()`, in nanoseconds; `duration_since` saturates at zero, as `-` does here.
pub mod Evict
pub mod Newest
pub mod Rest
pub mod Invariant
use certrelay.Prelude.{
  ◌*◌, ℕ, zero, suc, ◌+◌, ◌-◌, ◌/◌, Bool, true, false, not, ◌&&◌, Option, none, some, List, [], ◌∷◌,
  ltb, leb, ite, if◌then◌else◌, eqb, length, String, string_dec_eq,
}
use certrelay.Map.{Map, retain, min_by_key, lookup, remove}
use certrelay.Peer.Address.{IpAddr, unspecified, is_unspecified}

pub record PeerConfig : Type 0 where
  pub max_unverified : ℕ
  pub max_verified : ℕ
  pub verified_ttl : ℕ
  pub unverified_ttl : ℕ

-- `PeerConfig::default`, in nanoseconds.
abbrev pub default_config : PeerConfig
default_config = record {
  max_unverified = 1000;
  max_verified = 100;
  verified_ttl = 600 * 1000000000;
  unverified_ttl = 3 * 24 * 3600 * 1000000000;
}

pub record PeerEntry : Type 0 where
  pub source_ip : IpAddr
  pub capabilities : ℕ
  pub last_seen : ℕ
  pub added : ℕ
  pub sync_failures : ℕ

-- fabric/rust/src/lib.rs
pub record PeerInfo : Type 0 where
  pub source_ip : IpAddr
  pub url : String
  pub capabilities : ℕ

pub record PeerTable : Type 0 where
  pub ip_slots : Map IpAddr String
  pub unverified : Map String PeerEntry
  pub verified : Map String PeerEntry
  pub config : PeerConfig
  pub open config use *
  pub self_url : Option String

pub data AnnounceResult : Type 0 where
  already_verified : AnnounceResult
  still_unverified : AnnounceResult

abbrev pub sync_failures_before_demote : ℕ
sync_failures_before_demote = 3

unfoldable pub new : PeerConfig → PeerTable
new config = record {
  ip_slots = [];
  unverified = [];
  verified = [];
  config = config;
  self_url = none;
}

unfoldable pub is_self : PeerTable → String → Bool
is_self t url = elim t.self_url [ none ↦ false | some s ↦ eqb s url ]

-- Seen less than the verified TTL ago.
abbrev pub is_fresh : PeerConfig → ℕ → PeerEntry → Bool
is_fresh c now e = ltb (now - e.last_seen) c.verified_ttl

abbrev pub last_seen_of : PeerEntry → ℕ
last_seen_of e = e.last_seen

abbrev pub slots_without : String → Map IpAddr String → Map IpAddr String
slots_without url = retain λ _ u. not (eqb u url)

-- The loops `while len > max { remove the oldest }`: the URL that one round removes, if any.
pub oldest_over : ℕ → Map String PeerEntry → Option String
oldest_over limit m =
    if ltb limit (length m)
    then (elim (min_by_key last_seen_of m) [ none ↦ none | some (url, _) ↦ some url ])
    else none

drop_unverified : String → PeerTable → PeerTable
drop_unverified url t = record t {
  unverified = remove url t.unverified;
  ip_slots = slots_without url t.ip_slots;
}

evict_unverified_rounds : ℕ → PeerTable → PeerTable
evict_unverified_rounds zero t = t
evict_unverified_rounds (suc n) t = elim (oldest_over t.max_unverified t.unverified) [
  | none ↦ t
  | some url ↦ evict_unverified_rounds n (drop_unverified url t)
]

-- Every round removes an entry, so the number of entries bounds the rounds.
unfoldable pub evict_unverified : PeerTable → PeerTable
unfolding evict_unverified_rounds oldest_over drop_unverified
evict_unverified t = evict_unverified_rounds (length t.unverified) t

pub evict_verified_rounds : ℕ → ℕ → Map String PeerEntry → Map String PeerEntry
evict_verified_rounds zero limit m = m
evict_verified_rounds (suc n) limit m = elim (oldest_over limit m) [
  | none ↦ m
  | some url ↦ evict_verified_rounds n limit (remove url m)
]

unfoldable pub evict_verified : ℕ → Map String PeerEntry → Map String PeerEntry
unfolding evict_verified_rounds oldest_over
evict_verified limit m = evict_verified_rounds (length m) limit m

abbrev pub fresh_entry : IpAddr → ℕ → ℕ → PeerEntry
fresh_entry ip capabilities now = record {
  source_ip = ip;
  capabilities = capabilities;
  last_seen = now;
  added = now;
  sync_failures = 0;
}
