-- ===== src/Http/Events.antt =====
-- A relay under any sequence of requests, rounds and tasks, each at its time.
pub mod Keeps
use certrelay.Prelude.{
  ℕ, ◌≡◌, Bool, true, false, Option, none, some, List, [], ◌∷◌, if◌then◌else◌, ltb, length, take,
  is_some, ◌&&◌, ◌==◌, refl, String, string_dec_eq, arith, Bool-cases, inl, inr,
}
use certrelay.Store.Types.{Bytes, BulkStoreResult, StoreError, Result, ok, err}
use certrelay.Store.Update.Sequence.{IsSound}
use certrelay.Retention.{QueryHeat}
use certrelay.Retention.Sweep.{sweep}
use certrelay.Anchors.{RootAnchor}
use certrelay.Anchors.Serve.{refresh_anchors}
use certrelay.Http.Reads.{
  ChainProofRequest, handle_query, handle_hints, handle_anchors, handle_reverse, handle_addrs,
  handle_chain_proof,
}
use certrelay.Store.Delete.Effects.{delete_handles-Deleted}
use certrelay.Peer.Policy.{Checked}
use certrelay.Peer.State.{PeerInfo, PeerTable}
use certrelay.Peer.State.Invariant.{Inv}
use certrelay.Peer.Announce.{announce, ensure_seed}
use certrelay.Peer.Announce.Keeps.{announce-Inv, ensure_seed-Inv}
use certrelay.Peer.Liveness.{demote_expired, expire_unverified}
use certrelay.Peer.Liveness.Keeps.{
  mark_alive-Inv, mark_synced-Inv, remove_peer-Inv, record_sync_failure-Inv, expire_unverified-Inv,
  demote_expired-Inv,
}
use certrelay.Map.{lookup}
use certrelay.Peer.Url.{normalize_url}
use certrelay.Peer.Views.{peers}
use certrelay.Handler.{Handler}
use certrelay.Handler.Message.{handle_message_opts, handle_message_gated}
use certrelay.Handler.Message.Sound.{handle_message_opts-IsSound}
use certrelay.Sync.{SyncIngest, SyncError, unreachable, Outcome, done, failed}
use certrelay.Sync.Pull.{Peer, sync_with_peer}
use certrelay.Sync.Pull.Watermark.{sync_with_peer-Synced}
use certrelay.Http.{AppState, Setup, Request, Status, client_ip, is_rate_limited}
use certrelay.Http.Handlers.{
  gated_among, stored_message, verify_and_store, post_message, queue_poke, read_poke, handle_poke,
  read_announcement, handle_announce, handle_peers, handle_sync, handle_sync_summary,
}
use certrelay.Http.Peers.{
  Health, disallowed, healthy, silent, peer_client, synced, sync_peer, sync_peers, sync_round,
  is_cooling, pull_poked, poke_turn, ensure_seeds, maintenance_tick, check_health, announce_all,
  learned, learn_peers,
}

pub data Event : Type 0 where
  posts_message : Request → Bool → Bytes → Event
  pokes : Request → Option (String × Option ℕ) → Event
  announces : Request → Option (String × ℕ) → Event
  asks_peers : Request → Event
  asks_page : Request → Option (Option ℕ) → Option ℕ → Event
  asks_summary : Request → Event
  syncs : (String → Peer) → (List String → List String) → Event
  serves_poke : (String → Peer) → Event
  ticks : (ℕ → ℕ) → List String → ℕ → Event
  checks : String → Health → Event
  learns : List PeerInfo → Event
  sweeps : (ℕ → QueryHeat) → Event
  asks_query : Request → Option String → Option String → Option String → Bool → Event
  asks_hints : Request → Option String → Event
  asks_anchors : Request → Option String → Event
  asks_reverse : Request → Option String → Event
  asks_addrs : Request → Option String → Option String → Event
  asks_proof :
      (ChainProofRequest → Option Bytes) → Request → Bool → Option ChainProofRequest → Event
  refreshes : Option (List RootAnchor) → Bool → ℕ → Event

module _ {L C M P : Type 0} (k : Setup L C M P) where
  -- A tick of `run_retention_loop`, which does nothing without a budget; queries may change the heat
  -- between the rounds of a sweep.
  unfoldable pub sweep_store : (ℕ → QueryHeat) → AppState L C → AppState L C
  sweep_store heat s = if k.puller.retention.max_storage_bytes == 0 then s else record s {
    handler = record (s.handler) {
      store = (sweep k.puller.env.codec k.ratio_le k.puller.retention heat s.handler.store).0;
    };
  }

  -- `refresh_anchors`, with the newest anchor of the verifier that is made.
  unfoldable pub refresh_serving : Option (List RootAnchor) → Bool → ℕ → AppState L C → AppState L C
  refresh_serving anchors taken newest s = record s {
    serving = refresh_anchors k.compute_trust_set k.identity anchors taken s.serving;
    newest_anchor = if is_some anchors && taken then newest else s.newest_anchor;
  }

  unfoldable pub event : AppState L C → ℕ × Event → AppState L C
  unfolding sweep_store refresh_serving
  event s (now, posts_message r permit b) = (post_message k now r permit b s).0
  event s (now, pokes r poke) = (handle_poke k now r poke s).0
  event s (now, announces r a) = (handle_announce k now r a s).0
  event s (now, asks_peers r) = (handle_peers k now r s).0
  event s (now, asks_page r cursor limit) = (handle_sync k r cursor limit s).0
  event s (now, asks_summary r) = (handle_sync_summary k r s).0
  event s (now, syncs network shuffle) = sync_round k now network shuffle s
  event s (now, serves_poke network) = poke_turn k now network s.poke_queue s
  event s (now, ticks clock seeds n) = (maintenance_tick k now clock seeds n s).0
  event s (now, checks url health) = check_health k now url health s
  event s (now, learns ps) = learn_peers k now ps s
  event s (now, sweeps heat) = sweep_store heat s
  event s (now, asks_query r q hints inm permit) = (handle_query k r q hints inm permit s).0
  event s (now, asks_hints r q) = (handle_hints k r q s).0
  event s (now, asks_anchors r root) = (handle_anchors k r root s).0
  event s (now, asks_reverse r ids) = (handle_reverse k r ids s).0
  event s (now, asks_addrs r name address) = (handle_addrs k r name address s).0
  event s (now, asks_proof prove r permit request) =
      (handle_chain_proof k prove r permit request s).0
  event s (now, refreshes anchors taken newest) = refresh_serving anchors taken newest s

  unfoldable pub run_events : AppState L C → List (ℕ × Event) → AppState L C
  unfolding event
  run_events s [] = s
  run_events s (e ∷ es) = run_events (event s e) es
