-- ===== src/Http/Events/Keeps.antt =====
-- A relay stays sound through any sequence of events.
use certrelay.Prelude.{ℕ, inl, inr, Bool-cases, ◌==◌, List, [], ◌∷◌, take, string_dec_eq}
use certrelay.Store.Update.Sequence.{IsSound}
use certrelay.Retention.Sweep.Swept.{sweep-Swept}
use certrelay.Http.Reads.{
  handle_hints, handle_anchors, handle_reverse, handle_addrs, handle_chain_proof,
}
use certrelay.Http.Reads.Outcome.{handle_query-Outcome}
use certrelay.Peer.State.Invariant.{Inv}
use certrelay.Peer.Liveness.{demote_expired}
use certrelay.Peer.Liveness.Keeps.{expire_unverified-Inv, demote_expired-Inv}
use certrelay.Peer.Views.{peers}
use certrelay.Http.{AppState, Setup, IsRunning}
use certrelay.Http.Handlers.{handle_peers, handle_sync, handle_sync_summary}
use certrelay.Http.Peers.{sync_round, ensure_seeds, maintenance_tick, learned, learn_peers}
use certrelay.Http.Handlers.Keeps.{
  post_message-IsRunning, handle_poke-IsRunning, handle_announce-IsRunning,
}
use certrelay.Http.Peers.Keeps.{
  sync_peers-IsRunning, poke_turn-IsRunning, ensure_seeds-Inv, announce_all-Inv,
  check_health-IsRunning,
}
use certrelay.Http.Events.{
  Event, posts_message, pokes, announces, asks_peers, asks_page, asks_summary, syncs, serves_poke,
  ticks, checks, learns, sweeps, asks_query, asks_hints, asks_anchors, asks_reverse, asks_addrs,
  asks_proof, refreshes, sweep_store, refresh_serving, event, run_events,
}

module _ {L C M P : Type 0} (k : Setup L C M P) where
  event-IsRunning : (s : AppState L C) (e : ℕ × Event) → IsRunning s → IsRunning (event k s e)
  unfolding event sweep_store refresh_serving handle_hints handle_anchors handle_reverse
      handle_addrs handle_chain_proof handle_peers handle_sync handle_sync_summary sync_round
      maintenance_tick learn_peers
  event-IsRunning s (now, posts_message r permit b) v = post_message-IsRunning k now r permit b s v
  event-IsRunning s (now, pokes r poke) v = handle_poke-IsRunning k now r poke s v
  event-IsRunning s (now, announces r a) v = handle_announce-IsRunning k now r a s v
  event-IsRunning s (now, asks_peers r) v = v
  event-IsRunning s (now, asks_page r cursor limit) v = v
  event-IsRunning s (now, asks_summary r) v = v
  event-IsRunning s (now, syncs network shuffle) v =
      sync_peers-IsRunning k now network (take k.peers_per_round (shuffle (peers s.peers now))) s v
  event-IsRunning s (now, serves_poke network) v =
      poke_turn-IsRunning k now network s.poke_queue s v
  event-IsRunning s (now, ticks clock seeds n) v = (
    v.0,
    expire_unverified-Inv (demote_expired (ensure_seeds k now seeds s.peers) now) now (
        demote_expired-Inv (ensure_seeds k now seeds s.peers) now
          (ensure_seeds-Inv k now seeds s.peers v.1)),
  )
  event-IsRunning s (now, checks url health) v = check_health-IsRunning k now url health s v
  event-IsRunning s (now, learns ps) v = (v.0, announce_all-Inv k now (learned k ps) s.peers v.1)
  event-IsRunning s (now, sweeps heat) v =
      let w =
        sweep-Swept k.puller.env.codec k.ratio_le k.puller.retention heat s.handler.store v.0 in
      elim (Bool-cases (k.puller.retention.max_storage_bytes == 0)) [
        | inl b ↦ rw (b, event, sweep_store) v
        | inr b ↦ rw (b, event, sweep_store) (w.0.sound, v.1)
      ]
  event-IsRunning s (now, asks_query r q hints inm permit) v =
      let o = handle_query-Outcome k r q hints inm permit s v.0 in (rw o.0 v.0, rw o.1 v.1)
  event-IsRunning s (now, asks_hints r q) v = v
  event-IsRunning s (now, asks_anchors r root) v = v
  event-IsRunning s (now, asks_reverse r ids) v = v
  event-IsRunning s (now, asks_addrs r name address) v = v
  event-IsRunning s (now, asks_proof prove r permit request) v = v
  event-IsRunning s (now, refreshes anchors taken newest) v = v

  -- A relay that starts with a sound store and a sound peer table keeps both through any sequence of
  -- requests, rounds of synchronization, turns of the queue of pokes, ticks of the maintenance, health
  -- checks, lists of other peers, sweeps and refreshes of the anchors, in any order: the accounting
  -- tables agree with the rows, sequence numbers stay distinct and covered by the write counter, and
  -- the peers stay within their limits.
  pub run_events-IsRunning :
      (s : AppState L C) (es : List (ℕ × Event))
      → IsSound s.handler.store
      → Inv s.peers
      → IsRunning (run_events k s es)
  unfolding run_events
  run_events-IsRunning s [] v w = (v, w)
  run_events-IsRunning s (e ∷ es) v w =
      let next = event-IsRunning s e (v, w) in run_events-IsRunning (event k s e) es next.0 next.1
