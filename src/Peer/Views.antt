-- ===== src/Peer/Views.antt =====
-- What callers read from the peer table of relay/src/peer.rs: the peers that are listed, the
-- candidates for a health check, and whether more peers are needed.
pub mod Listed
pub mod Candidates
use certrelay.Prelude.{
  ℕ, zero, suc, ◌+◌, ◌-◌, ◌/◌, Bool, true, false, not, ◌&&◌, Option, none, some, List, [], ◌∷◌, map,
  ltb, leb, if◌then◌else◌, length, take, String, string_dec_eq,
}
use certrelay.Map.{Map, retain, min_by_key, lookup}
use certrelay.Map.Sort.{sort_by}
use certrelay.Peer.Url.{normalize_url}
use certrelay.Peer.State.{
  PeerConfig, PeerEntry, PeerInfo, PeerTable, is_self, is_fresh, last_seen_of,
}

abbrev pub keys {ℓ} : {K V : Type ℓ} → Map K V → List K
keys = map (λ e. e.0)

-- The entries that `peers` and `peers_info` show: verified, fresh and not ourselves.
abbrev shown : PeerTable → ℕ → Map String PeerEntry
shown t now = retain (λ url e. not (is_self t url) && is_fresh t.config now e) t.verified

pub peers : PeerTable → ℕ → List String
peers t now = keys (shown t now)

info_of : String × PeerEntry → PeerInfo
info_of (url, e) = record { source_ip = e.source_ip; url = url; capabilities = e.capabilities }

pub peers_info : PeerTable → ℕ → List PeerInfo
unfolding info_of
peers_info t now = map info_of (shown t now)

is_verified_url : PeerTable → String → ℕ → Bool
is_verified_url t url now = elim (lookup url t.verified) [
  | none ↦ false
  | some e ↦ is_fresh t.config now e
]

pub is_verified : (String → Option String) → PeerTable → String → ℕ → Bool
unfolding is_verified_url
is_verified parse t url now = is_verified_url t (normalize_url parse url) now

pub next_candidate : PeerTable → Option String
next_candidate t = elim (min_by_key last_seen_of t.unverified) [
  | none ↦ none
  | some (url, _) ↦ some url
]

unfoldable pub next_candidates : PeerTable → ℕ → List String
unfolding sort_by
next_candidates t n = keys (take n (sort_by last_seen_of t.unverified))

-- Past half of the TTL.
is_due : PeerConfig → ℕ → PeerEntry → Bool
is_due c now e = leb (c.verified_ttl / 2) (now - e.last_seen)

pub refresh_candidates : PeerTable → ℕ → List String
unfolding is_due
refresh_candidates t now = keys (retain (λ _ e. is_due t.config now e) t.verified)

-- `needs_peers` reads the clock anew for each entry: `clock i` is the reading at the entry `i`.
count_active : PeerConfig → (ℕ → ℕ) → ℕ → Map String PeerEntry → ℕ
count_active c clock i [] = 0
count_active c clock i ((_, e) ∷ m) =
    let rest = count_active c clock (suc i) m in if is_fresh c (clock i) e then suc rest else rest

pub needs_peers : PeerTable → (ℕ → ℕ) → Bool
unfolding count_active
needs_peers t clock = ltb (count_active t.config clock 0 t.verified) (t.max_verified / 2)

abbrev pub verified_count : PeerTable → ℕ
verified_count t = length t.verified

abbrev pub unverified_count : PeerTable → ℕ
unverified_count t = length t.unverified
