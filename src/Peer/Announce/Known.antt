-- ===== src/Peer/Announce/Known.antt =====
-- The peer that `announce` or `ensure_seed` names is known afterwards: the eviction loop does not
-- take the entry that was just made.
use certrelay.Prelude.{
  ap, ℕ, ◌≤◌, ◌<◌, ◌≡◌, refl, ◌∙◌, true, false, ◌||◌, Option-cases, inl, inr, Option, none, some,
  String, string_dec_eq, length, arith,
}
use certrelay.Map.{Map, lookup, contains_key, or_insert}
use certrelay.Map.Laws.{lookup-insert, lookup-or_insert, lookup-remove}
use certrelay.Peer.Address.{IpAddr, ip_dec_eq, is_unspecified, unspecified}
use certrelay.Peer.Url.{normalize_url}
use certrelay.Peer.State.{
  PeerEntry, PeerInfo, PeerTable, still_unverified, is_self, fresh_entry, evict_unverified,
}
use certrelay.Peer.State.Invariant.{Shape, Inv}
use certrelay.Peer.State.Newest.{evict_newest}
use certrelay.Peer.State.Rest.{evict_unverified_id, evict_unverified-unverified}
use certrelay.Peer.Announce.{
  release_old, claim_slot, renewed, upsert, announce_unverified, announce_url, announce, seeded,
  seed_url, ensure_seed,
}
use certrelay.Peer.Announce.Keeps.{claim_slot-Shape, upsert-Shape, seeded-Shape}

-- Every unverified peer was seen before `now`.
abbrev pub SeenBefore : ℕ → Map String PeerEntry → Type 0
SeenBefore now m = (u : String) (e : PeerEntry) → lookup u m ≡ some e → e.last_seen < now

abbrev pub IsRenewed : PeerInfo → ℕ → PeerEntry → Type 0
IsRenewed p now e = (e.last_seen ≡ now) × (e.added ≡ now) × (e.capabilities ≡ p.capabilities)

renewed-IsRenewed :
    (p : PeerInfo) (now : ℕ) (o : Option PeerEntry) → IsRenewed p now (renewed p now o)
unfolding renewed
renewed-IsRenewed p now none = (refl, refl, refl)
renewed-IsRenewed p now (some e) = (refl, refl, refl)

lookup-release_old-some :
    (ip : IpAddr) (url : String) (t : PeerTable) (u : String) (e : PeerEntry)
    → lookup u (release_old ip url t) ≡ some e
    → lookup u t.unverified ≡ some e
unfolding release_old
lookup-release_old-some ip url t u e h = elim (Option-cases (lookup ip t.ip_slots)) [
  | inl free ↦ ground arith
  | inr (old, slot) ↦ ground (arith, lookup-remove u old t.unverified)
]

upsert_known :
    (t : PeerTable) (url : String) (p : PeerInfo) (now : ℕ)
    → Shape t
    → 1 ≤ t.max_unverified
    → SeenBefore now t.unverified
    → lookup url (evict_unverified (upsert url p now t)).unverified
      ≡ some (renewed p now (lookup url t.unverified))
unfolding upsert
upsert_known t url p now v room before =
    let entry = renewed p now (lookup url t.unverified) in
    let s = upsert url p now t in
    ap (λ m. lookup url m) (evict_unverified-unverified s)
    ∙ evict_newest t.max_unverified s.unverified url entry
        (upsert-Shape url p now t v).unverified_distinct room
        (ground (arith, lookup-insert url url entry t.unverified))
        (λ u f other held. ground (
          arith,
          before u f,
          lookup-insert u url entry t.unverified,
          (renewed-IsRenewed p now (lookup url t.unverified)).0,
        ))

announce_url_known :
    (t : PeerTable) (url : String) (p : PeerInfo) (now : ℕ)
    → Shape t
    → 1 ≤ t.max_unverified
    → SeenBefore now t.unverified
    → is_unspecified p.source_ip ≡ false
    → (announce_url t url p now).1 ≡ still_unverified
    → (e : PeerEntry) × (lookup url (announce_url t url p now).0.unverified ≡ some e)
      × IsRenewed p now e
unfolding announce_url announce_unverified claim_slot
announce_url_known t url p now v room before un result =
    let claimed = claim_slot p.source_ip url t in
    let known =
      upsert_known claimed url p now (claim_slot-Shape p.source_ip url t v) room
        (λ u e held. before u e (lookup-release_old-some p.source_ip url t u e held)) in
    (
      renewed p now (lookup url claimed.unverified),
      ground (arith, known),
      renewed-IsRenewed p now (lookup url claimed.unverified),
    )

-- A peer that announces itself from an address, and is not a fresh verified peer or the relay
-- itself, is unverified afterwards with the time and the capabilities of the announcement, when the
-- table has room for one entry at all and its other entries were seen before.
pub announce_known :
    (parse : String → Option String) (t : PeerTable) (p : PeerInfo) (now : ℕ)
    → Inv t
    → 1 ≤ t.max_unverified
    → SeenBefore now t.unverified
    → is_unspecified p.source_ip ≡ false
    → (announce parse t p now).1 ≡ still_unverified
    → (e : PeerEntry) × (lookup (normalize_url parse p.url) (announce parse t p now).0.unverified
        ≡ some e)
      × IsRenewed p now e
unfolding announce
announce_known parse t p now v = announce_url_known t (normalize_url parse p.url) p now v.shape

seeded_known :
    (t : PeerTable) (url : String) (now : ℕ)
    → Shape t
    → 1 ≤ t.max_unverified
    → length t.unverified ≤ t.max_unverified
    → SeenBefore now t.unverified
    → contains_key url (evict_unverified (seeded t url now)).unverified ≡ true
unfolding seeded or_insert
seeded_known t url now v one room before =
    let s = seeded t url now in
    let entry = fresh_entry unspecified 0 now in
    let d = (seeded-Shape t url now v).unverified_distinct in
    elim (Option-cases (lookup url t.unverified)) [
      | inr (e, held) ↦ ground (arith, evict_unverified_id s d)
      | inl new ↦
          let stays =
            evict_newest t.max_unverified s.unverified url entry d one
              (ground (arith, lookup-or_insert url url entry t.unverified))
              (λ u f other held.
                ground (arith, before u f, lookup-or_insert u url entry t.unverified)) in
          ground (arith, stays, ap (λ m. lookup url m) (evict_unverified-unverified s))
    ]

seed_url_known :
    (t : PeerTable) (url : String) (now : ℕ)
    → Shape t
    → 1 ≤ t.max_unverified
    → length t.unverified ≤ t.max_unverified
    → SeenBefore now t.unverified
    → is_self t url ≡ false
    → (contains_key url (seed_url t url now).verified
        || contains_key url (seed_url t url now).unverified)
      ≡ true
unfolding seed_url
seed_url_known t url now v one room before other =
    ground (arith, seeded_known t url now v one room before)

-- A seed is known after `ensure_seed`, verified or not, unless it is the relay's own URL: whenever
-- the table is within its limit, which is not zero, and its entries were seen before.
pub ensure_seed_known :
    (parse : String → Option String) (t : PeerTable) (raw : String) (now : ℕ)
    → Inv t
    → 1 ≤ t.max_unverified
    → length t.unverified ≤ t.max_unverified
    → SeenBefore now t.unverified
    → is_self t (normalize_url parse raw) ≡ false
    → (contains_key (normalize_url parse raw) (ensure_seed parse t raw now).verified
        || contains_key (normalize_url parse raw) (ensure_seed parse t raw now).unverified)
      ≡ true
unfolding ensure_seed
ensure_seed_known parse t raw now v = seed_url_known t (normalize_url parse raw) now v.shape
