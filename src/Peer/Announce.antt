-- ===== src/Peer/Announce.antt =====
-- `announce` and `ensure_seed` of relay/src/peer.rs, on a table and the time that the call reads.
pub mod Keeps
pub mod Effects
pub mod Known
use certrelay.Prelude.{
  ℕ, Bool, true, false, not, ◌&&◌, ◌||◌, Option, none, some, List, [], ◌∷◌, leb, if◌then◌else◌, eqb,
  length, String, string_dec_eq,
}
use certrelay.Map.{Map, lookup, contains_key, insert, remove, modify, or_insert}
use certrelay.Peer.Address.{IpAddr, unspecified, is_unspecified, ip_dec_eq}
use certrelay.Peer.Url.{normalize_url}
use certrelay.Peer.State.{
  PeerEntry, PeerInfo, PeerTable, AnnounceResult, already_verified, still_unverified, is_self,
  is_fresh, fresh_entry, evict_unverified,
}

-- Another address announces the URL too.
unfoldable pub other_refs : IpAddr → String → Map IpAddr String → Bool
other_refs ip url [] = false
other_refs ip url ((i, u) ∷ m) = (not (eqb i ip) && eqb u url) || other_refs ip url m

-- What becomes of the unverified entries when `ip` announces `url` in place of its old URL.
pub release_old : IpAddr → String → PeerTable → Map String PeerEntry
unfolding other_refs
release_old ip url t = elim (lookup ip t.ip_slots) [
  | none ↦ t.unverified
  | some old ↦
      if eqb old url || other_refs ip old t.ip_slots then t.unverified else remove old t.unverified
]

pub claim_slot : IpAddr → String → PeerTable → PeerTable
unfolding release_old
claim_slot ip url t = record t {
  unverified = release_old ip url t;
  ip_slots = insert ip url t.ip_slots;
}

-- `entry(url).and_modify(..).or_insert(..)`.
renewed : PeerInfo → ℕ → Option PeerEntry → PeerEntry
renewed p now none = fresh_entry p.source_ip p.capabilities now
renewed p now (some e) = record e { last_seen = now; added = now; capabilities = p.capabilities }

pub upsert : String → PeerInfo → ℕ → PeerTable → PeerTable
unfolding renewed
upsert url p now t = record t {
  unverified = insert url (renewed p now (lookup url t.unverified)) t.unverified;
}

-- The part of `announce` behind the refresh of a verified peer.
announce_unverified : PeerTable → String → PeerInfo → ℕ → PeerTable
unfolding upsert claim_slot
announce_unverified t url p now =
    if is_unspecified p.source_ip
    then (if not (contains_key url t.unverified) && leb t.max_unverified (length t.unverified)
        then t
        else evict_unverified (upsert url p now t))
    else evict_unverified (upsert url p now (claim_slot p.source_ip url t))

refreshed : PeerTable → String → PeerInfo → ℕ → PeerTable
refreshed t url p now = record t {
  verified =
      modify url (λ e. record e { last_seen = now; capabilities = p.capabilities }) t.verified;
}

-- A verified entry for the URL that is still fresh.
has_fresh : PeerTable → String → ℕ → Bool
has_fresh t url now = elim (lookup url t.verified) [
  | none ↦ false
  | some e ↦ is_fresh t.config now e
]

announce_url : PeerTable → String → PeerInfo → ℕ → PeerTable × AnnounceResult
unfolding announce_unverified refreshed has_fresh
announce_url t url p now =
    if is_self t url
    then (t, already_verified)
    else if has_fresh t url now
    then (refreshed t url p now, already_verified)
    else (announce_unverified t url p now, still_unverified)

unfoldable pub announce :
    (String → Option String) → PeerTable → PeerInfo → ℕ → PeerTable × AnnounceResult
unfolding announce_url
announce parse t p now = announce_url t (normalize_url parse p.url) p now

pub seeded : PeerTable → String → ℕ → PeerTable
seeded t url now = record t {
  unverified = or_insert url (fresh_entry unspecified 0 now) t.unverified;
}

seed_url : PeerTable → String → ℕ → PeerTable
unfolding seeded
seed_url t url now =
    if is_self t url || contains_key url t.verified then t else evict_unverified (seeded t url now)

pub ensure_seed : (String → Option String) → PeerTable → String → ℕ → PeerTable
unfolding seed_url
ensure_seed parse t url now = seed_url t (normalize_url parse url) now

unfoldable pub set_self_url : (String → Option String) → PeerTable → String → PeerTable
set_self_url parse t url = record t { self_url = some (normalize_url parse url) }
