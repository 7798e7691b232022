-- ===== src/Peer/Announce/Keeps.antt =====
-- `announce` and `ensure_seed` keep the invariant of the table.
use certrelay.Prelude.{ℕ, Option-cases, inl, inr, Option, String, string_dec_eq, arith}
use certrelay.Map.{lookup, Distinct}
use certrelay.Map.Laws.{
  insert-Distinct, or_insert-Distinct, remove-Distinct, modify-Distinct, length-modify,
}
use certrelay.Peer.Address.{IpAddr, ip_dec_eq}
use certrelay.Peer.Url.{normalize_url}
use certrelay.Peer.State.{PeerInfo, PeerTable}
use certrelay.Peer.State.Invariant.{Shape, Inv, evict_unverified-Inv}
use certrelay.Peer.Announce.{
  release_old, claim_slot, upsert, announce_unverified, refreshed, announce_url, announce, seeded,
  seed_url, ensure_seed,
}

release_old-Distinct :
    (ip : IpAddr) (url : String) (t : PeerTable)
    → Distinct t.unverified
    → Distinct (release_old ip url t)
unfolding release_old
release_old-Distinct ip url t d = elim (Option-cases (lookup ip t.ip_slots)) [
  | inl e ↦ rw (e, release_old) d
  | inr (old, e) ↦ ground (arith, remove-Distinct old t.unverified d)
]

pub claim_slot-Shape :
    (ip : IpAddr) (url : String) (t : PeerTable) → Shape t → Shape (claim_slot ip url t)
unfolding claim_slot
claim_slot-Shape ip url t v = record {
  slots_distinct = insert-Distinct ip url t.ip_slots v.slots_distinct;
  unverified_distinct = release_old-Distinct ip url t v.unverified_distinct;
  verified_distinct = v.verified_distinct;
  verified_bound = v.verified_bound;
}

pub upsert-Shape :
    (url : String) (p : PeerInfo) (now : ℕ) (t : PeerTable) → Shape t → Shape (upsert url p now t)
unfolding upsert
upsert-Shape url p now t v = record {
  slots_distinct = v.slots_distinct;
  unverified_distinct = insert-Distinct url _ t.unverified v.unverified_distinct;
  verified_distinct = v.verified_distinct;
  verified_bound = v.verified_bound;
}

announce_unverified-Inv :
    (t : PeerTable) (url : String) (p : PeerInfo) (now : ℕ)
    → Inv t
    → Inv (announce_unverified t url p now)
unfolding announce_unverified
announce_unverified-Inv t url p now v = ground (
  arith,
  evict_unverified-Inv (upsert url p now t) (upsert-Shape url p now t v.shape),
  evict_unverified-Inv (upsert url p now (claim_slot p.source_ip url t))
      (upsert-Shape url p now _ (claim_slot-Shape p.source_ip url t v.shape)),
)

refreshed-Inv :
    (t : PeerTable) (url : String) (p : PeerInfo) (now : ℕ) → Inv t → Inv (refreshed t url p now)
unfolding refreshed
refreshed-Inv t url p now v = record {
  shape = record {
    slots_distinct = v.shape.slots_distinct;
    unverified_distinct = v.shape.unverified_distinct;
    verified_distinct = modify-Distinct url _ t.verified v.shape.verified_distinct;
    verified_bound = omega (arith, length-modify url _ t.verified, v.shape.verified_bound);
  };
  total_bound = omega (arith, length-modify url _ t.verified, v.total_bound);
}

announce_url-Inv :
    (t : PeerTable) (url : String) (p : PeerInfo) (now : ℕ)
    → Inv t
    → Inv (announce_url t url p now).0
unfolding announce_url
announce_url-Inv t url p now v =
    ground (arith, refreshed-Inv t url p now v, announce_unverified-Inv t url p now v)

pub announce-Inv :
    (parse : String → Option String) (t : PeerTable) (p : PeerInfo) (now : ℕ)
    → Inv t
    → Inv (announce parse t p now).0
unfolding announce
announce-Inv parse t p now v = announce_url-Inv t (normalize_url parse p.url) p now v

pub seeded-Shape : (t : PeerTable) (url : String) (now : ℕ) → Shape t → Shape (seeded t url now)
unfolding seeded
seeded-Shape t url now v = record {
  slots_distinct = v.slots_distinct;
  unverified_distinct = or_insert-Distinct url _ t.unverified v.unverified_distinct;
  verified_distinct = v.verified_distinct;
  verified_bound = v.verified_bound;
}

seed_url-Inv : (t : PeerTable) (url : String) (now : ℕ) → Inv t → Inv (seed_url t url now)
unfolding seed_url
seed_url-Inv t url now v =
    ground (arith, evict_unverified-Inv (seeded t url now) (seeded-Shape t url now v.shape))

pub ensure_seed-Inv :
    (parse : String → Option String) (t : PeerTable) (url : String) (now : ℕ)
    → Inv t
    → Inv (ensure_seed parse t url now)
unfolding ensure_seed
ensure_seed-Inv parse t url now v = seed_url-Inv t (normalize_url parse url) now v
