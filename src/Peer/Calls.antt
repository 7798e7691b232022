-- ===== src/Peer/Calls.antt =====
-- Histories of the peer table: any sequence of the calls of relay/src/peer.rs, each at its time.
use certrelay.Prelude.{ℕ, Option, List, [], ◌∷◌, String, string_dec_eq}
use certrelay.Peer.State.{PeerConfig, PeerInfo, PeerTable, new}
use certrelay.Peer.State.Invariant.{Inv, new-Inv}
use certrelay.Peer.Announce.{announce, ensure_seed, set_self_url}
use certrelay.Peer.Announce.Keeps.{announce-Inv, ensure_seed-Inv}
use certrelay.Peer.Liveness.{
  mark_alive, mark_synced, remove_peer, record_sync_failure, expire_unverified, demote_expired,
}
use certrelay.Peer.Liveness.Keeps.{
  mark_alive-Inv, mark_synced-Inv, remove_peer-Inv, record_sync_failure-Inv, expire_unverified-Inv,
  demote_expired-Inv,
}

pub data Call : Type 0 where
  announces : PeerInfo → Call
  seeds alive synced removes failed names_self : String → Call
  expires demotes : Call

-- The methods of `PeerTable` that change it.
pub step : (String → Option String) → PeerTable → ℕ × Call → PeerTable
step parse t (now, announces p) = (announce parse t p now).0
step parse t (now, seeds url) = ensure_seed parse t url now
step parse t (now, alive url) = mark_alive parse t url now
step parse t (now, synced url) = mark_synced parse t url now
step parse t (now, removes url) = remove_peer parse t url
step parse t (now, failed url) = record_sync_failure parse t url now
step parse t (now, names_self url) = set_self_url parse t url
step parse t (now, expires) = expire_unverified t now
step parse t (now, demotes) = demote_expired t now

pub run : (String → Option String) → PeerTable → List (ℕ × Call) → PeerTable
run parse t [] = t
run parse t (c ∷ cs) = run parse (step parse t c) cs

set_self_url-Inv :
    (parse : String → Option String) (t : PeerTable) (url : String)
    → Inv t
    → Inv (set_self_url parse t url)
unfolding set_self_url
set_self_url-Inv parse t url v = record {
  shape = record {
    slots_distinct = v.shape.slots_distinct;
    unverified_distinct = v.shape.unverified_distinct;
    verified_distinct = v.shape.verified_distinct;
    verified_bound = v.shape.verified_bound;
  };
  total_bound = v.total_bound;
}

step-Inv :
    (parse : String → Option String) (t : PeerTable) (c : ℕ × Call) → Inv t → Inv (step parse t c)
unfolding step
step-Inv parse t (now, announces p) v = announce-Inv parse t p now v
step-Inv parse t (now, seeds url) v = ensure_seed-Inv parse t url now v
step-Inv parse t (now, alive url) v = mark_alive-Inv parse t url now v
step-Inv parse t (now, synced url) v = mark_synced-Inv parse t url now v
step-Inv parse t (now, removes url) v = remove_peer-Inv parse t url v
step-Inv parse t (now, failed url) v = record_sync_failure-Inv parse t url now v
step-Inv parse t (now, names_self url) v = set_self_url-Inv parse t url v
step-Inv parse t (now, expires) v = expire_unverified-Inv t now v
step-Inv parse t (now, demotes) v = demote_expired-Inv t now v

pub run-keeps-Inv :
    (parse : String → Option String) (t : PeerTable) (cs : List (ℕ × Call))
    → Inv t
    → Inv (run parse t cs)
unfolding run
run-keeps-Inv parse t [] v = v
run-keeps-Inv parse t (c ∷ cs) v = run-keeps-Inv parse (step parse t c) cs (step-Inv parse t c v)

-- After any history of a new table no key of its maps has two entries, the verified peers are
-- within their limit, and all peers together are within the sum of the two limits.
pub run-Inv :
    (parse : String → Option String) (c : PeerConfig) (cs : List (ℕ × Call))
    → Inv (run parse (new c) cs)
run-Inv parse c cs = run-keeps-Inv parse (new c) cs (new-Inv c)
