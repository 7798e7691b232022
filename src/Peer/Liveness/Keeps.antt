-- ===== src/Peer/Liveness/Keeps.antt =====
-- The calls of `Peer.Liveness` keep the invariant of the table.
use certrelay.Prelude.{
  ℕ, ◌+◌, ◌≤◌, ◌≡◌, not, Option-cases, inl, inr, Option, none, some, [], ◌∷◌, String, string_dec_eq,
  length, arith,
}
use certrelay.Map.{Map, retain, lookup, insert, remove, modify, or_insert, Distinct}
use certrelay.Map.Laws.{
  insert-Distinct, or_insert-Distinct, remove-Distinct, modify-Distinct, retain-Distinct,
  length-insert, length-modify, length-remove-le, length-remove-lt, length-retain-le,
  length-or_insert-le, length-retain-split,
}
use certrelay.Peer.Address.{ip_dec_eq}
use certrelay.Peer.Url.{normalize_url}
use certrelay.Peer.State.{PeerEntry, PeerTable, is_fresh, fresh_entry}
use certrelay.Peer.State.Invariant.{Inv}
use certrelay.Peer.State.Evict.{evict-bound, evict-length-le, evict-Distinct}
use certrelay.Peer.Liveness.{
  demoted, failed, promote, alive_url, mark_alive, clear_failures, mark_synced, remove_url,
  remove_peer, count_failure, failure_url, record_sync_failure, expire_unverified, readmit,
  demote_expired,
}

promote-Inv :
    (t : PeerTable) (url : String) (e : PeerEntry) (now : ℕ)
    → lookup url t.unverified ≡ some e
    → lookup url t.verified ≡ none
    → Inv t
    → Inv (promote t url e now)
unfolding promote
promote-Inv t url e now held absent v =
    let entry = fresh_entry e.source_ip e.capabilities now in
    let larger = insert url entry t.verified in
    let distinct = insert-Distinct url entry t.verified v.shape.verified_distinct in
    record {
      shape = record {
        slots_distinct = retain-Distinct _ t.ip_slots v.shape.slots_distinct;
        unverified_distinct = remove-Distinct url t.unverified v.shape.unverified_distinct;
        verified_distinct = evict-Distinct t.max_verified larger distinct;
        verified_bound = evict-bound t.max_verified larger distinct;
      };
      total_bound = ground (
        arith,
        evict-length-le t.max_verified larger distinct,
        length-insert url entry t.verified,
        length-remove-lt url t.unverified e held,
        v.total_bound,
      );
    }

modify_verified-Inv :
    (t : PeerTable) (url : String) (f : PeerEntry → PeerEntry)
    → Inv t
    → Inv (record t { verified = modify url f t.verified })
modify_verified-Inv t url f v = record {
  shape = record {
    slots_distinct = v.shape.slots_distinct;
    unverified_distinct = v.shape.unverified_distinct;
    verified_distinct = modify-Distinct url f t.verified v.shape.verified_distinct;
    verified_bound = omega (arith, length-modify url f t.verified, v.shape.verified_bound);
  };
  total_bound = omega (arith, length-modify url f t.verified, v.total_bound);
}

modify_unverified-Inv :
    (t : PeerTable) (url : String) (f : PeerEntry → PeerEntry)
    → Inv t
    → Inv (record t { unverified = modify url f t.unverified })
modify_unverified-Inv t url f v = record {
  shape = record {
    slots_distinct = v.shape.slots_distinct;
    unverified_distinct = modify-Distinct url f t.unverified v.shape.unverified_distinct;
    verified_distinct = v.shape.verified_distinct;
    verified_bound = v.shape.verified_bound;
  };
  total_bound = omega (arith, length-modify url f t.unverified, v.total_bound);
}

alive_url-Inv : (t : PeerTable) (url : String) (now : ℕ) → Inv t → Inv (alive_url t url now)
unfolding alive_url
alive_url-Inv t url now v = elim (Option-cases (lookup url t.verified)) [
  | inr (_, e) ↦ rw (e, alive_url) (modify_verified-Inv t url _ v)
  | inl absent ↦ elim (Option-cases (lookup url t.unverified)) [
    | inl e ↦ rw (absent, e, alive_url) v
    | inr (entry, e) ↦ rw (absent, e, alive_url) (promote-Inv t url entry now e absent v)
  ]
]

pub mark_alive-Inv :
    (parse : String → Option String) (t : PeerTable) (url : String) (now : ℕ)
    → Inv t
    → Inv (mark_alive parse t url now)
unfolding mark_alive
mark_alive-Inv parse t url now v = alive_url-Inv t (normalize_url parse url) now v

pub mark_synced-Inv :
    (parse : String → Option String) (t : PeerTable) (url : String) (now : ℕ)
    → Inv t
    → Inv (mark_synced parse t url now)
unfolding mark_synced clear_failures
mark_synced-Inv parse t url now v =
    modify_verified-Inv (mark_alive parse t url now) (normalize_url parse url) _
      (mark_alive-Inv parse t url now v)

pub remove_peer-Inv :
    (parse : String → Option String) (t : PeerTable) (url : String)
    → Inv t
    → Inv (remove_peer parse t url)
unfolding remove_peer remove_url
remove_peer-Inv parse t raw v =
    let url = normalize_url parse raw in
    record {
      shape = record {
        slots_distinct = retain-Distinct _ t.ip_slots v.shape.slots_distinct;
        unverified_distinct = remove-Distinct url t.unverified v.shape.unverified_distinct;
        verified_distinct = remove-Distinct url t.verified v.shape.verified_distinct;
        verified_bound = omega (arith, length-remove-le url t.verified, v.shape.verified_bound);
      };
      total_bound = omega (
        arith,
        length-remove-le url t.verified,
        length-remove-le url t.unverified,
        v.total_bound,
      );
    }

demoted-Inv :
    (t : PeerTable) (url : String) (e f : PeerEntry)
    → lookup url t.verified ≡ some e
    → Inv t
    → Inv (record t { verified = remove url t.verified; unverified = insert url f t.unverified })
demoted-Inv t url e f held v = record {
  shape = record {
    slots_distinct = v.shape.slots_distinct;
    unverified_distinct = insert-Distinct url f t.unverified v.shape.unverified_distinct;
    verified_distinct = remove-Distinct url t.verified v.shape.verified_distinct;
    verified_bound = omega (arith, length-remove-le url t.verified, v.shape.verified_bound);
  };
  total_bound = ground (
    arith,
    length-insert url f t.unverified,
    length-remove-lt url t.verified e held,
    v.total_bound,
  );
}

failure_url-Inv : (t : PeerTable) (url : String) (now : ℕ) → Inv t → Inv (failure_url t url now)
unfolding failure_url count_failure
failure_url-Inv t url now v = elim (Option-cases (lookup url t.unverified)) [
  | inr (_, e) ↦ rw (e, failure_url) (modify_unverified-Inv t url _ v)
  | inl absent ↦ elim (Option-cases (lookup url t.verified)) [
    | inl e ↦ rw (absent, e, failure_url) v
    | inr (entry, e) ↦
        rw (absent, e, failure_url)
          (ground (
            arith,
            demoted-Inv t url entry (demoted now (failed entry)) e v,
            modify_verified-Inv t url failed v,
          ))
  ]
]

pub record_sync_failure-Inv :
    (parse : String → Option String) (t : PeerTable) (url : String) (now : ℕ)
    → Inv t
    → Inv (record_sync_failure parse t url now)
unfolding record_sync_failure
record_sync_failure-Inv parse t url now v = failure_url-Inv t (normalize_url parse url) now v

pub expire_unverified-Inv : (t : PeerTable) (now : ℕ) → Inv t → Inv (expire_unverified t now)
unfolding expire_unverified
expire_unverified-Inv t now v = record {
  shape = record {
    slots_distinct = retain-Distinct _ t.ip_slots v.shape.slots_distinct;
    unverified_distinct = retain-Distinct _ t.unverified v.shape.unverified_distinct;
    verified_distinct = v.shape.verified_distinct;
    verified_bound = v.shape.verified_bound;
  };
  total_bound = omega (arith, length-retain-le _ t.unverified, v.total_bound);
}

readmit-Distinct :
    (now : ℕ) (expired m : Map String PeerEntry) → Distinct m → Distinct (readmit now expired m)
unfolding readmit
readmit-Distinct now [] m d = d
readmit-Distinct now ((url, e) ∷ expired) m d =
    readmit-Distinct now expired _ (or_insert-Distinct url _ m d)

length-readmit-le :
    (now : ℕ) (expired m : Map String PeerEntry)
    → length (readmit now expired m) ≤ length expired + length m
unfolding readmit
length-readmit-le now [] m = omega arith
length-readmit-le now ((url, e) ∷ expired) m =
    let demoted = record e { added = now; sync_failures = 0 } in
    omega (
      arith,
      length-readmit-le now expired (or_insert url demoted m),
      length-or_insert-le url demoted m,
    )

pub demote_expired-Inv : (t : PeerTable) (now : ℕ) → Inv t → Inv (demote_expired t now)
unfolding demote_expired
demote_expired-Inv t now v = record {
  shape = record {
    slots_distinct = v.shape.slots_distinct;
    unverified_distinct =
        readmit-Distinct now (retain (λ _ e. not (is_fresh t.config now e)) t.verified) t.unverified
          v.shape.unverified_distinct;
    verified_distinct = retain-Distinct _ t.verified v.shape.verified_distinct;
    verified_bound = omega (arith, length-retain-le _ t.verified, v.shape.verified_bound);
  };
  total_bound = omega (
    arith,
    length-readmit-le now (retain (λ _ e. not (is_fresh t.config now e)) t.verified) t.unverified,
    length-retain-split (λ _ e. is_fresh t.config now e) t.verified,
    v.total_bound,
  );
}
