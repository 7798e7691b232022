-- ===== src/Peer/Announce/Effects.antt =====
-- What an announcement does to the peers that are known already, and that the peer it names is
-- known afterwards.
use certrelay.Prelude.{
  ap, ℕ, ◌≡◌, ◌≢◌, ◌⊎◌, false, Option-cases, inl, inr, Option, none, some, String, string_dec_eq,
  arith,
}
use certrelay.Map.{Map, lookup}
use certrelay.Map.Laws.{lookup-insert, lookup-remove}
use certrelay.Peer.Address.{IpAddr, ip_dec_eq, is_unspecified}
use certrelay.Peer.Url.{normalize_url}
use certrelay.Peer.State.{PeerEntry, PeerInfo, PeerTable, still_unverified, evict_unverified}
use certrelay.Peer.State.Invariant.{Shape, Inv}
use certrelay.Peer.State.Evict.{evict_kept}
use certrelay.Peer.State.Rest.{evict_unverified-unverified}
use certrelay.Peer.Announce.{
  other_refs, release_old, claim_slot, renewed, upsert, announce_unverified, announce_url, announce,
}
use certrelay.Peer.Announce.Keeps.{claim_slot-Shape, upsert-Shape}

-- Every entry of the old table but that of `url` is in the new one, unchanged.
abbrev pub KeepsOthers : String → Map String PeerEntry → Map String PeerEntry → Type 0
KeepsOthers url m s =
    (u : String) (e : PeerEntry) → u ≢ url → lookup u m ≡ some e → lookup u s ≡ some e

-- The entry of `url`, if there is one, may change; nothing else does, and no entry comes or goes.
abbrev pub KeepsVerified : String → Map String PeerEntry → Map String PeerEntry → Type 0
KeepsVerified url m s =
    (u : String)
    → (lookup u s ≡ lookup u m)
      ⊎ ((u ≡ url)
          × (e : PeerEntry) × (f : PeerEntry) × (lookup u m ≡ some e)
          × (lookup u s ≡ some f)
          × (f.added ≡ e.added)
          × (f.sync_failures ≡ e.sync_failures))

abbrev seen : PeerInfo → ℕ → PeerEntry → PeerEntry
seen p now e = record e { last_seen = now; capabilities = p.capabilities }

-- What is left by `announce` was there before its eviction loop.
evicted :
    (s : PeerTable) (u : String) (e : PeerEntry)
    → Shape s
    → lookup u (evict_unverified s).unverified ≡ some e
    → lookup u s.unverified ≡ some e
evicted s u e v h =
    evict_kept s.max_unverified s.unverified v.unverified_distinct u e
      (ground (arith, ap (λ m. lookup u m) (evict_unverified-unverified s)))

lookup-release_old :
    (t : PeerTable) (url old : String) (ip : IpAddr)
    → lookup ip t.ip_slots ≡ some old
    → old ≢ url
    → other_refs ip old t.ip_slots ≡ false
    → lookup old (release_old ip url t) ≡ none
unfolding release_old
lookup-release_old t url old ip slot differs alone =
    ground (arith, lookup-remove old old t.unverified)

announce_url_displaces :
    (t : PeerTable) (url : String) (p : PeerInfo) (now : ℕ) (old : String)
    → Shape t
    → is_unspecified p.source_ip ≡ false
    → lookup p.source_ip t.ip_slots ≡ some old
    → old ≢ url
    → other_refs p.source_ip old t.ip_slots ≡ false
    → (announce_url t url p now).1 ≡ still_unverified
    → lookup old (announce_url t url p now).0.unverified ≡ none
unfolding announce_url announce_unverified upsert claim_slot
announce_url_displaces t url p now old v un slot differs alone result =
    let claimed = claim_slot p.source_ip url t in
    let s = upsert url p now claimed in
    elim (Option-cases (lookup old (evict_unverified s).unverified)) [
      | inl e ↦ ground arith
      | inr (e, left) ↦ absurd (
          ground (
            arith,
            evicted s old e (upsert-Shape url p now claimed (claim_slot-Shape p.source_ip url t v))
                left,
            lookup-insert old url (renewed p now (lookup url claimed.unverified))
                claimed.unverified,
            lookup-release_old t url old p.source_ip slot differs alone,
          ))
    ]

-- One slot for each address: when an address announces another URL and nobody else announces its
-- old one, the old URL is no longer among the unverified peers.
pub announce_displaces :
    (parse : String → Option String) (t : PeerTable) (p : PeerInfo) (now : ℕ) (old : String)
    → Inv t
    → is_unspecified p.source_ip ≡ false
    → lookup p.source_ip t.ip_slots ≡ some old
    → old ≢ normalize_url parse p.url
    → other_refs p.source_ip old t.ip_slots ≡ false
    → (announce parse t p now).1 ≡ still_unverified
    → lookup old (announce parse t p now).0.unverified ≡ none
unfolding announce
announce_displaces parse t p now old v =
    announce_url_displaces t (normalize_url parse p.url) p now old v.shape
