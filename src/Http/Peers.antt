-- ===== src/Http/Peers.antt =====
-- What a relay does with its peers: the outbound clients and `bootstrap_from` of relay/src/http.rs, and
-- the rounds, the queue of pokes and the maintenance of relay/src/sync.rs. The relays of the network
-- are a function of their URLs.
pub mod Keeps
use certrelay.Prelude.{
  ℕ, suc, ◌+◌, ◌-◌, ◌*◌, Bool, true, false, not, ◌&&◌, ◌||◌, Option, none, some, List, [], ◌∷◌,
  ◌++◌, map, filter, ltb, leb, if◌then◌else◌, take, String, string_dec_eq,
}
use certrelay.Map.{Map, lookup, insert, retain}
use certrelay.Peer.Address.{IpAddr, unspecified}
use certrelay.Peer.Policy.{
  Url, Host, domain, address, Checked, validate_peer_url, is_ok, all_public, port_of,
}
use certrelay.Peer.State.{PeerTable, PeerInfo}
use certrelay.Peer.Announce.{announce, ensure_seed}
use certrelay.Peer.Liveness.{
  mark_alive, mark_synced, remove_peer, record_sync_failure, expire_unverified, demote_expired,
}
use certrelay.Peer.Views.{peers, next_candidates, refresh_candidates, needs_peers}
use certrelay.Handler.{Handler}
use certrelay.Sync.{SyncIngest, SyncError, unreachable, Outcome, done, failed}
use certrelay.Sync.Pull.{Peer, sync_with_peer}
use certrelay.Http.{AppState, Setup}

abbrev pub some_public : List IpAddr → Bool
some_public [] = false
some_public (ip ∷ ips) = all_public (ip ∷ ips)

-- The addresses of the host are known and may be contacted.
unfoldable pub host_allowed : (String → ℕ → Option (List IpAddr)) → Url → Bool
host_allowed lookup_host u = elim u.host [
  | none ↦ false
  | some (address _) ↦ true
  | some (domain name) ↦ elim (lookup_host name (port_of u)) [
    | none ↦ false
    | some ips ↦ some_public ips
  ]
]

abbrev pub max_peers_per_response : ℕ
max_peers_per_response = 256

-- The health check of a peer: its address is refused, it answers, or it does not.
pub data Health : Type 0 where
  disallowed healthy silent : Health

module _ {L C M P : Type 0} (k : Setup L C M P) where
  -- Whether there is a client for the URL.
  unfoldable pub peer_client : String → Bool
  unfolding host_allowed
  peer_client url =
      if k.allow_private_peers
      then true
      else (if is_ok (validate_peer_url k.parse_url url false)
          then elim (k.parse_url url) [ none ↦ false | some u ↦ host_allowed k.lookup_host u ]
          else false)

  -- The result of a run with a peer goes to the peer table.
  unfoldable pub synced : ℕ → String → AppState L C → Handler L × Outcome SyncIngest → AppState L C
  synced now url s (h, failed e) = record s {
    handler = h;
    peers = record_sync_failure k.as_str s.peers url now;
  }
  synced now url s (h, done stats) = record s {
    handler = h;
    peers = mark_synced k.as_str s.peers url now;
    poke_dirty = s.poke_dirty || ltb 0 stats.stored;
  }

  unfoldable pub sync_peer : ℕ → String → Peer → AppState L C → AppState L C
  unfolding peer_client synced
  sync_peer now url peer s = synced now url s (
      if peer_client url
      then sync_with_peer k.puller k.sync peer now url s.handler
      else (s.handler, failed unreachable))

  unfoldable pub sync_peers : ℕ → (String → Peer) → List String → AppState L C → AppState L C
  unfolding sync_peer
  sync_peers now network [] s = s
  sync_peers now network (u ∷ us) s = sync_peers now network us (sync_peer now u (network u) s)

  -- `shuffle` is what the random generator does to the verified peers.
  unfoldable pub sync_round :
      ℕ → (String → Peer) → (List String → List String) → AppState L C → AppState L C
  unfolding sync_peers
  sync_round now network shuffle s =
      sync_peers now network (take k.peers_per_round (shuffle (peers s.peers now))) s

  abbrev pub is_cooling : ℕ → Option ℕ → Bool
  is_cooling now none = false
  is_cooling now (some t) = ltb (now - t) k.poke_cooldown

  unfoldable pub pull_poked : ℕ → (String → Peer) → String → AppState L C → AppState L C
  unfolding sync_peer
  pull_poked now network url s =
      if is_cooling now (lookup url s.last_synced)
      then s
      else sync_peer now url (network url) (record s {
        last_synced =
            retain (λ _ t. ltb (now - t) (k.poke_cooldown * 4)) (insert url now s.last_synced);
      })

  -- One turn of `run_poke_sync_loop`: the first poke of the queue.
  unfoldable pub poke_turn : ℕ → (String → Peer) → List String → AppState L C → AppState L C
  unfolding pull_poked
  poke_turn now network [] s = s
  poke_turn now network (url ∷ queue) s =
      pull_poked now network url (record s { poke_queue = queue })

  unfoldable pub ensure_seeds : ℕ → List String → PeerTable → PeerTable
  ensure_seeds now [] t = t
  ensure_seeds now (u ∷ us) t = ensure_seeds now us (ensure_seed k.as_str t u now)

  -- The locked part of a tick of `run_peer_maintenance_loop`, and the peers that it goes on to check.
  unfoldable pub maintenance_tick :
      ℕ → (ℕ → ℕ) → List String → ℕ → AppState L C → AppState L C × List String
  unfolding ensure_seeds
  maintenance_tick now clock seeds candidates_per_tick s =
      let t = expire_unverified (demote_expired (ensure_seeds now seeds s.peers) now) now in
      (
        record s { peers = t },
        refresh_candidates t now
            ++ (if needs_peers t clock then next_candidates t candidates_per_tick else []),
      )

  -- The task that a tick spawns for a peer.
  unfoldable pub check_health : ℕ → String → Health → AppState L C → AppState L C
  check_health now url disallowed s = record s { peers = remove_peer k.as_str s.peers url }
  check_health now url healthy s = record s { peers = mark_alive k.as_str s.peers url now }
  check_health now url silent s = s

  unfoldable pub acceptable : PeerInfo → Bool
  acceptable p =
      leb (k.url_len p.url) 256 && is_ok (validate_peer_url k.parse_url p.url k.allow_private_peers)

  unfoldable pub announce_all : ℕ → List PeerInfo → PeerTable → PeerTable
  announce_all now [] t = t
  announce_all now (p ∷ ps) t = announce_all now ps (announce k.as_str t p now).0

  -- The peers that a bootstrap peer lists, without the addresses that it claims for them.
  unfoldable pub learned : List PeerInfo → List PeerInfo
  unfolding acceptable
  learned ps =
      map (λ (p : PeerInfo). record p { source_ip = unspecified })
        (filter acceptable (take max_peers_per_response ps))

  -- `bootstrap_from`, once the list has come.
  unfoldable pub learn_peers : ℕ → List PeerInfo → AppState L C → AppState L C
  unfolding learned announce_all
  learn_peers now ps s = record s { peers = announce_all now (learned ps) s.peers }
