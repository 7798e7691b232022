-- ===== src/Peer/Liveness.antt =====
-- The calls of relay/src/peer.rs that follow a health check, a sync or the passing of time.
pub mod Keeps
pub mod Demotion
pub mod Expiry
use certrelay.Prelude.{
  ℕ, zero, suc, ◌+◌, ◌-◌, Bool, true, false, not, ◌||◌, Option, none, some, List, [], ◌∷◌, ltb, leb,
  if◌then◌else◌, String, string_dec_eq,
}
use certrelay.Map.{Map, retain, lookup, contains_key, insert, remove, modify, or_insert}
use certrelay.Peer.Url.{normalize_url}
use certrelay.Peer.State.{
  PeerEntry, PeerTable, is_fresh, slots_without, fresh_entry, evict_verified,
  sync_failures_before_demote,
}

-- The move of `mark_alive` from unverified to verified.
promote : PeerTable → String → PeerEntry → ℕ → PeerTable
promote t url e now = record t {
  unverified = remove url t.unverified;
  ip_slots = slots_without url t.ip_slots;
  verified =
      evict_verified t.max_verified
        (insert url (fresh_entry e.source_ip e.capabilities now) t.verified);
}

alive_url : PeerTable → String → ℕ → PeerTable
unfolding promote
alive_url t url now = elim (lookup url t.verified) [
  | some _ ↦ record t { verified = modify url (λ e. record e { last_seen = now }) t.verified }
  | none ↦ elim (lookup url t.unverified) [ none ↦ t | some e ↦ promote t url e now ]
]

unfoldable pub mark_alive : (String → Option String) → PeerTable → String → ℕ → PeerTable
unfolding alive_url
mark_alive parse t url now = alive_url t (normalize_url parse url) now

clear_failures : PeerTable → String → PeerTable
clear_failures t url = record t {
  verified = modify url (λ e. record e { sync_failures = 0 }) t.verified;
}

pub mark_synced : (String → Option String) → PeerTable → String → ℕ → PeerTable
unfolding mark_alive clear_failures
mark_synced parse t url now = clear_failures (mark_alive parse t url now) (normalize_url parse url)

remove_url : PeerTable → String → PeerTable
remove_url t url = record t {
  unverified = remove url t.unverified;
  verified = remove url t.verified;
  ip_slots = slots_without url t.ip_slots;
}

pub remove_peer : (String → Option String) → PeerTable → String → PeerTable
unfolding remove_url
remove_peer parse t url = remove_url t (normalize_url parse url)

-- The entry of a peer that goes back to unverified at `now`.
abbrev pub demoted : ℕ → PeerEntry → PeerEntry
demoted now e = record e { last_seen = now; added = now; sync_failures = 0 }

abbrev pub failed : PeerEntry → PeerEntry
failed e = record e { sync_failures = e.sync_failures + 1 }

-- A sync failure of the verified entry `e`: counted, and on the third in a row the peer is demoted.
count_failure : PeerTable → String → PeerEntry → ℕ → PeerTable
count_failure t url e now =
    if leb sync_failures_before_demote (e.sync_failures + 1)
    then record t {
      verified = remove url t.verified;
      unverified = insert url (demoted now (failed e)) t.unverified;
    }
    else record t { verified = modify url failed t.verified }

failure_url : PeerTable → String → ℕ → PeerTable
unfolding count_failure
failure_url t url now = elim (lookup url t.unverified) [
  | some _ ↦ record t { unverified = modify url (λ e. record e { last_seen = now }) t.unverified }
  | none ↦ elim (lookup url t.verified) [ none ↦ t | some e ↦ count_failure t url e now ]
]

unfoldable pub record_sync_failure : (String → Option String) → PeerTable → String → ℕ → PeerTable
unfolding failure_url
record_sync_failure parse t url now = failure_url t (normalize_url parse url) now

-- Entries that are not older than the unverified TTL.
abbrev unexpired : ℕ → ℕ → Map String PeerEntry → Map String PeerEntry
unexpired ttl now = retain λ _ e. ltb (now - e.added) ttl

pub expire_unverified : PeerTable → ℕ → PeerTable
expire_unverified t now =
    let kept = unexpired t.unverified_ttl now t.unverified in
    record t {
      unverified = kept;
      ip_slots = retain (λ _ u. contains_key u kept || contains_key u t.verified) t.ip_slots;
    }

-- The loop of `demote_expired` over the entries that it took out of `verified`.
readmit : ℕ → Map String PeerEntry → Map String PeerEntry → Map String PeerEntry
readmit now [] m = m
readmit now ((url, e) ∷ expired) m =
    readmit now expired (or_insert url (record e { added = now; sync_failures = 0 }) m)

pub demote_expired : PeerTable → ℕ → PeerTable
unfolding readmit
demote_expired t now = record t {
  verified = retain (λ _ e. is_fresh t.config now e) t.verified;
  unverified = readmit now (retain (λ _ e. not (is_fresh t.config now e)) t.verified) t.unverified;
}
