-- ===== src/Peer/Liveness/Expiry.antt =====
-- What the maintenance calls leave: `expire_unverified` and `demote_expired`, entry by entry.
use certrelay.Prelude.{
  ℕ, ◌-◌, ◌≡◌, ◌∙◌, true, not, ◌||◌, some, [], ◌∷◌, ltb, if◌then◌else◌, String, string_dec_eq,
  arith,
}
use mathlib.Core.Option
use certrelay.Map.{Map, retain, lookup, contains_key, or_insert, Distinct}
use certrelay.Map.Laws.{lookup-retain, lookup-or_insert, retain-Distinct, keep_if}
use certrelay.Peer.Address.{IpAddr, ip_dec_eq}
use certrelay.Peer.State.{PeerEntry, PeerTable, is_fresh}
use certrelay.Peer.State.Invariant.{Inv}
use certrelay.Peer.Liveness.{expire_unverified, readmit, demote_expired}

-- `expire_unverified` keeps exactly the entries added less than the unverified TTL ago, and every
-- slot that it keeps belongs to a peer that is still known.
pub expire_unverified_lem :
    (t : PeerTable) (now : ℕ) (u : String) (ip : IpAddr)
    → Inv t
    → (lookup u (expire_unverified t now).unverified
        ≡ keep_if (λ e. ltb (now - e.added) t.unverified_ttl) (lookup u t.unverified))
      × (lookup ip (expire_unverified t now).ip_slots ≡ some u
          → (contains_key u (expire_unverified t now).unverified || contains_key u t.verified)
            ≡ true)
unfolding expire_unverified
expire_unverified_lem t now u ip v =
    let kept = retain (λ _ e. ltb (now - e.added) t.unverified_ttl) t.unverified in
    (
      lookup-retain u (λ _ e. ltb (now - e.added) t.unverified_ttl) t.unverified
          v.shape.unverified_distinct,
      λ h. ground (
        arith,
        lookup-retain ip (λ _ url. contains_key url kept || contains_key url t.verified) t.ip_slots
            v.shape.slots_distinct,
      ),
    )

-- The entry that `demote_expired` puts back.
abbrev pub readmitted : ℕ → PeerEntry → PeerEntry
readmitted now e = record e { added = now; sync_failures = 0 }

lookup-readmit :
    (now : ℕ) (u : String) (expired m : Map String PeerEntry)
    → Distinct expired
    → lookup u (readmit now expired m)
      ≡ (if contains_key u m then lookup u m else Option.map (readmitted now) (lookup u expired))
unfolding readmit lookup
lookup-readmit now u [] m d = ground arith
lookup-readmit now u ((k, e) ∷ expired) m d = ground (
  arith,
  lookup-readmit now u expired (or_insert k (readmitted now e) m) d.1,
  lookup-or_insert u k (readmitted now e) m,
)

-- `demote_expired` leaves exactly the fresh peers verified. Each other one is unverified from `now`
-- on with no failure, unless its URL had an unverified entry, which stays as it is, like all others.
pub demote_expired_lem :
    (t : PeerTable) (now : ℕ) (u : String)
    → Inv t
    → (lookup u (demote_expired t now).verified
        ≡ keep_if (λ e. is_fresh t.config now e) (lookup u t.verified))
      × (lookup u (demote_expired t now).unverified ≡ (
          if contains_key u t.unverified
          then lookup u t.unverified
          else Option.map
              (readmitted now)
              (keep_if (λ e. not (is_fresh t.config now e)) (lookup u t.verified))))
unfolding demote_expired
demote_expired_lem t now u v =
    let d = v.shape.verified_distinct in
    let stale = λ (_ : String) (e : PeerEntry). not (is_fresh t.config now e) in
    (
      lookup-retain u (λ _ e. is_fresh t.config now e) t.verified d,
      lookup-readmit now u (retain stale t.verified) t.unverified
            (retain-Distinct stale t.verified d)
          ∙ rw (lookup-retain u stale t.verified d),
    )
