-- ===== src/Http.antt =====
-- relay/src/http.rs: the state that its handlers share, with what they are configured with. The
-- counters of the statistics are left out. A handler is a function of the state, the time and the
-- parsed request.
pub mod Handlers
pub mod Query
pub mod Peers
pub mod Reads
pub mod Events
mod Tests
use certrelay.Prelude.{
  ℕ, Bool, true, false, not, ◌&&◌, ◌||◌, Option, none, some, List, [], ◌∷◌, if◌then◌else◌, eqb, ltb,
  String, string_dec_eq,
}
use certrelay.Map.{Map}
use certrelay.Store.Types.{Bytes}
use certrelay.Peer.Address.{IpAddr, ip_dec_eq}
use certrelay.Peer.Policy.{Url}
use certrelay.Peer.State.{PeerTable}
use certrelay.Peer.State.Invariant.{Inv}
use certrelay.Store.Update.Sequence.{IsSound}
use certrelay.Handler.{Handler}
use certrelay.Handler.Resolve.{Resolver}
use certrelay.Retention.{QueryHeat}
use certrelay.Retention.Sweep.{Usage}
use certrelay.Anchors.{RootAnchor}
use certrelay.Anchors.Serve.{RelayIdentity, Serving}
use certrelay.Sync.{SyncConfig, Puller}

-- `AppState`, the part that changes, with the newest anchor that the verifier has: `C` is the state of a limiter of addresses. The queue holds the
-- peers that a poke asks to pull from, and the mark says that new data waits to be announced; the
-- loop over the queue remembers when it last pulled from a peer.
pub record AppState (L C : Type 0) : Type 0 where
  pub handler : Handler L
  pub peers : PeerTable
  pub message_limit : C
  pub poke_limit : C
  pub announce_limit : C
  pub read_limit : C
  pub sync_limit : C
  pub poke_queue : List String
  pub poke_dirty : Bool
  pub last_synced : Map String ℕ
  pub proof_limit : C
  pub query_heat : QueryHeat
  pub newest_anchor : ℕ
  pub serving : Serving

-- The bytes of a string, sha2 and the digits of a digest.
pub record Digest : Type 0 where
  pub as_bytes : String → Bytes
  pub sha256 : Bytes → Bytes
  pub hex_encode : Bytes → String

-- The rest of it, with the libraries: governor on addresses, the url crate, the resolver, the parser
-- of messages, the last address of a header, libveritas on names and on anchors, and the comparison of
-- the ratios of two spaces.
pub record Setup (L C M P : Type 0) : Type 0 where
  pub puller : Puller L M P
  pub check_ip : IpAddr → C → Bool × C
  pub allowlist : List IpAddr
  pub remote_ip_header : Option String
  pub trusted_proxies : List (IpAddr → Bool)
  pub last_ip : String → Option IpAddr
  pub parse_url : String → Option Url
  pub as_str : String → Option String
  pub lookup_host : String → ℕ → Option (List IpAddr)
  pub from_slice : Bytes → Option M
  pub url_len : String → ℕ
  pub max_message_size : ℕ
  pub allow_private_peers : Bool
  pub sync : SyncConfig
  pub peers_per_round : ℕ
  pub poke_cooldown : ℕ
  pub resolver : Resolver M Bytes
  pub digest : Digest
  pub parse_u32 : String → Option ℕ
  pub hex_decode : String → Option Bytes
  pub compute_trust_set : List RootAnchor → Bytes
  pub identity : Option RelayIdentity
  pub ratio_le : Usage → Usage → Bool

-- A request: the address of its socket and its headers.
pub record Request : Type 0 where
  pub addr : IpAddr
  pub header : String → Option String

pub data Status : Type 0 where
  accepted too_many_requests bad_request payload_too_large service_unavailable internal_error :
      Status

unfoldable pub ip_among : List IpAddr → IpAddr → Bool
ip_among [] ip = false
ip_among (i ∷ is) ip = eqb i ip || ip_among is ip

unfoldable pub trusts : List (IpAddr → Bool) → IpAddr → Bool
trusts [] ip = false
trusts (net ∷ nets) ip = net ip || trusts nets ip

unfoldable pub is_trusted : List (IpAddr → Bool) → IpAddr → Bool
unfolding trusts
is_trusted [] ip = true
is_trusted (net ∷ nets) ip = trusts (net ∷ nets) ip

abbrev pub ip_or : IpAddr → Option IpAddr → IpAddr
ip_or ip none = ip
ip_or ip (some i) = i

abbrev pub parsed : (String → Option IpAddr) → Option String → Option IpAddr
parsed last_ip none = none
parsed last_ip (some value) = last_ip value

-- The address that a request counts for.
unfoldable pub resolve_client_ip :
    Request → Option String → List (IpAddr → Bool) → (String → Option IpAddr) → IpAddr
unfolding is_trusted
resolve_client_ip r none proxies last_ip = r.addr
resolve_client_ip r (some name) proxies last_ip =
    if is_trusted proxies r.addr then ip_or r.addr (parsed last_ip (r.header name)) else r.addr

module _ {L C M P : Type 0} (k : Setup L C M P) where
  unfoldable pub client_ip : Request → IpAddr
  unfolding resolve_client_ip
  client_ip r = resolve_client_ip r k.remote_ip_header k.trusted_proxies k.last_ip

  -- An address of the allow-list spends nothing.
  unfoldable pub is_rate_limited : C → IpAddr → Bool × C
  unfolding ip_among
  is_rate_limited c ip =
      if ip_among k.allowlist ip then (false, c) else (not (k.check_ip ip c).0, (k.check_ip ip c).1)

-- The store is sound, and so is the peer table.
abbrev pub IsRunning : {L C : Type 0} → AppState L C → Type 0
IsRunning s = IsSound s.handler.store × Inv s.peers
