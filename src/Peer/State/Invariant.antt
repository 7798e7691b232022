-- ===== src/Peer/State/Invariant.antt =====
-- The invariant of the peer table, and the lemma that every call with an eviction loop ends by.
use certrelay.Prelude.{ap, ◌+◌, ◌≤◌, ◌<◌, ◌≡◌, some, length, String, string_dec_eq, arith}
use certrelay.Map.{Map, lookup, Distinct}
use certrelay.Peer.Address.{ip_dec_eq}
use certrelay.Peer.State.{
  PeerConfig, PeerEntry, PeerTable, new, evict_unverified, sync_failures_before_demote,
}
use certrelay.Peer.State.Evict.{evict-bound, evict-Distinct}
use certrelay.Peer.State.Rest.{
  evict_unverified-unverified, evict_unverified-SameRest, evict_unverified-slots,
}

-- No address has two slots, no URL has two entries in one of the tables, and the verified table is
-- within its limit.
pub record Shape (t : PeerTable) : Type 0 where
  pub slots_distinct : Distinct t.ip_slots
  pub unverified_distinct : Distinct t.unverified
  pub verified_distinct : Distinct t.verified
  pub verified_bound : length t.verified ≤ t.max_verified

-- The two tables together are within the sum of their limits.
pub record Inv (t : PeerTable) : Type 0 where
  pub shape : Shape t
  pub total_bound : length t.unverified + length t.verified ≤ t.max_unverified + t.max_verified

-- No verified entry is left with as many failures as demote it.
abbrev pub FewFailures : PeerTable → Type 0
FewFailures t =
    (u : String) (e : PeerEntry)
    → lookup u t.verified ≡ some e
    → e.sync_failures < sync_failures_before_demote

pub new-Inv : (c : PeerConfig) → Inv (new c)
unfolding new
new-Inv c = record {
  shape = record {
    slots_distinct = tt;
    unverified_distinct = tt;
    verified_distinct = tt;
    verified_bound = omega arith;
  };
  total_bound = omega arith;
}

module _ (t : PeerTable) (v : Shape t) where
  evict_unverified-Shape : Shape (evict_unverified t)
  evict_unverified-Shape =
      let (same_verified, same_config, _) = evict_unverified-SameRest t in
      record {
        slots_distinct = evict_unverified-slots t v.slots_distinct;
        unverified_distinct =
            rw (evict_unverified-unverified t)
              (evict-Distinct t.max_unverified t.unverified v.unverified_distinct);
        verified_distinct = rw same_verified v.verified_distinct;
        verified_bound = rw (same_verified, same_config) v.verified_bound;
      }

  -- Whatever the table held, the loop brings it back within the limits.
  pub evict_unverified-Inv : Inv (evict_unverified t)
  evict_unverified-Inv =
      let same_config = (evict_unverified-SameRest t).1 in
      record {
        shape = evict_unverified-Shape;
        total_bound = omega (
          arith,
          ap (λ (m : Map String PeerEntry). length m) (evict_unverified-unverified t),
          ap (λ (c : PeerConfig). c.max_unverified) same_config,
          evict-bound t.max_unverified t.unverified v.unverified_distinct,
          evict_unverified-Shape.verified_bound,
        );
      }
