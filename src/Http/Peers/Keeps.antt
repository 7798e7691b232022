-- ===== src/Http/Peers/Keeps.antt =====
-- The rounds and the maintenance of relay/src/sync.rs keep the store and the peer table sound.
use certrelay.Prelude.{ℕ, List, [], ◌∷◌, String, string_dec_eq, Bool-cases, inl, inr}
use certrelay.Store.Update.Sequence.{IsSound}
use certrelay.Peer.State.{PeerInfo, PeerTable}
use certrelay.Peer.State.Invariant.{Inv}
use certrelay.Peer.Announce.{announce, ensure_seed}
use certrelay.Peer.Announce.Keeps.{announce-Inv, ensure_seed-Inv}
use certrelay.Peer.Liveness.Keeps.{
  mark_alive-Inv, mark_synced-Inv, remove_peer-Inv, record_sync_failure-Inv,
}
use certrelay.Map.{lookup}
use certrelay.Handler.{Handler}
use certrelay.Sync.{SyncIngest, unreachable, Outcome, done, failed}
use certrelay.Sync.Pull.{Peer, sync_with_peer}
use certrelay.Sync.Pull.Watermark.{sync_with_peer-Synced}
use certrelay.Http.{AppState, Setup, IsRunning}
use certrelay.Http.Peers.{
  Health, disallowed, healthy, silent, peer_client, synced, sync_peer, sync_peers, is_cooling,
  pull_poked, poke_turn, ensure_seeds, check_health, announce_all,
}

module _ {L C M P : Type 0} (k : Setup L C M P) where
  pub synced-IsRunning :
      (now : ℕ) (url : String) (s : AppState L C) (end : Handler L × Outcome SyncIngest)
      → IsSound end.0.store
      → Inv s.peers
      → IsRunning (synced k now url s end)
  unfolding synced
  synced-IsRunning now url s (h, failed e) v w =
      (v, record_sync_failure-Inv k.as_str s.peers url now w)
  synced-IsRunning now url s (h, done stats) v w = (v, mark_synced-Inv k.as_str s.peers url now w)

  pub sync_peer-IsRunning :
      (now : ℕ) (url : String) (peer : Peer) (s : AppState L C)
      → IsRunning s
      → IsRunning (sync_peer k now url peer s)
  unfolding sync_peer
  sync_peer-IsRunning now url peer s v = elim (Bool-cases (peer_client k url)) [
    | inr b ↦ rw (b, sync_peer) (synced-IsRunning now url s (s.handler, failed unreachable) v.0 v.1)
    | inl b ↦
        rw (b, sync_peer)
          (synced-IsRunning now url s (sync_with_peer k.puller k.sync peer now url s.handler)
            (sync_with_peer-Synced k.puller k.sync peer now url s.handler v.0).sound v.1)
  ]

  pub sync_peers-IsRunning :
      (now : ℕ) (network : String → Peer) (us : List String) (s : AppState L C)
      → IsRunning s
      → IsRunning (sync_peers k now network us s)
  unfolding sync_peers
  sync_peers-IsRunning now network [] s v = v
  sync_peers-IsRunning now network (u ∷ us) s v =
      sync_peers-IsRunning now network us (sync_peer k now u (network u) s)
        (sync_peer-IsRunning now u (network u) s v)

  pub pull_poked-IsRunning :
      (now : ℕ) (network : String → Peer) (url : String) (s : AppState L C)
      → IsRunning s
      → IsRunning (pull_poked k now network url s)
  unfolding pull_poked
  pull_poked-IsRunning now network url s v =
      elim (Bool-cases (is_cooling k now (lookup url s.last_synced))) [
        | inl b ↦ rw (b, pull_poked) v
        | inr b ↦ rw (b, pull_poked) (sync_peer-IsRunning now url (network url) _ v)
      ]

  pub poke_turn-IsRunning :
      (now : ℕ) (network : String → Peer) (queue : List String) (s : AppState L C)
      → IsRunning s
      → IsRunning (poke_turn k now network queue s)
  unfolding poke_turn
  poke_turn-IsRunning now network [] s v = v
  poke_turn-IsRunning now network (url ∷ queue) s v =
      pull_poked-IsRunning now network url (record s { poke_queue = queue }) v

  pub ensure_seeds-Inv :
      (now : ℕ) (us : List String) (t : PeerTable) → Inv t → Inv (ensure_seeds k now us t)
  unfolding ensure_seeds
  ensure_seeds-Inv now [] t v = v
  ensure_seeds-Inv now (u ∷ us) t v =
      ensure_seeds-Inv now us (ensure_seed k.as_str t u now) (ensure_seed-Inv k.as_str t u now v)

  pub announce_all-Inv :
      (now : ℕ) (ps : List PeerInfo) (t : PeerTable) → Inv t → Inv (announce_all k now ps t)
  unfolding announce_all
  announce_all-Inv now [] t v = v
  announce_all-Inv now (p ∷ ps) t v =
      announce_all-Inv now ps (announce k.as_str t p now).0 (announce-Inv k.as_str t p now v)

  pub check_health-IsRunning :
      (now : ℕ) (url : String) (h : Health) (s : AppState L C)
      → IsRunning s
      → IsRunning (check_health k now url h s)
  unfolding check_health
  check_health-IsRunning now url disallowed s v = (v.0, remove_peer-Inv k.as_str s.peers url v.1)
  check_health-IsRunning now url healthy s v = (v.0, mark_alive-Inv k.as_str s.peers url now v.1)
  check_health-IsRunning now url silent s v = v
