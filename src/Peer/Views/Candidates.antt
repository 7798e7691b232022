-- ===== src/Peer/Views/Candidates.antt =====
-- The candidates for a health check are the entries that were seen longest ago.
use certrelay.Prelude.{
  ℕ, zero, suc, ◌≤◌, ◌≡◌, true, false, none, some, [], ◌∷◌, take, Option-cases, inl, inr, String,
  string_dec_eq, arith,
}
use certrelay.Map.{Map, lookup}
use certrelay.Map.Sort.{IsSorted, sort_by, sort_by-IsSorted, lookup-sort_by, From-lookup}
use certrelay.Peer.State.{last_seen_of, PeerEntry, PeerTable}
use certrelay.Peer.State.Invariant.{Inv}
use certrelay.Peer.Views.{next_candidates}
use certrelay.Peer.Views.Listed.{has, has-keys}

take-first :
    (n : ℕ) (m : Map String PeerEntry) (u v : String) (e f : PeerEntry)
    → IsSorted last_seen_of m
    → lookup u (take n m) ≡ some e
    → lookup v (take n m) ≡ none
    → lookup v m ≡ some f
    → e.last_seen ≤ f.last_seen
unfolding lookup
take-first zero m u v e f s a b c = ground arith
take-first (suc n) [] u v e f s a b c = ground arith
take-first (suc n) (x ∷ m) u v e f s a b c =
    ground (arith, take-first n m u v e f s.1, From-lookup last_seen_of x.1.last_seen m v f s.0)

lookup-take :
    (n : ℕ) (m : Map String PeerEntry) (u : String) (e : PeerEntry)
    → lookup u (take n m) ≡ some e
    → lookup u m ≡ some e
unfolding lookup
lookup-take zero m u e h = ground arith
lookup-take (suc n) [] u e h = h
lookup-take (suc n) (x ∷ m) u e h = ground (arith, lookup-take n m u e)

-- A listed candidate is an unverified peer, and none that is left out was seen before it.
pub next_candidates-oldest :
    (t : PeerTable) (n : ℕ) (u v : String) (f : PeerEntry)
    → Inv t
    → has u (next_candidates t n) ≡ true
    → lookup v t.unverified ≡ some f
    → has v (next_candidates t n) ≡ false
    → (e : PeerEntry) × (lookup u t.unverified ≡ some e) × (e.last_seen ≤ f.last_seen)
unfolding next_candidates
next_candidates-oldest t n u v f i listed other left =
    let sorted = sort_by last_seen_of t.unverified in
    let d = i.shape.unverified_distinct in
    elim (Option-cases (lookup u (take n sorted))) [
      | inl e ↦ absurd (ground (arith, has-keys u (take n sorted)))
      | inr (e, found) ↦ (
        e,
        ground
            (arith, lookup-sort_by last_seen_of u t.unverified d, lookup-take n sorted u e found),
        take-first n sorted u v e f (sort_by-IsSorted last_seen_of t.unverified) found
            (ground (arith, has-keys v (take n sorted)))
            (ground (arith, lookup-sort_by last_seen_of v t.unverified d)),
      )
    ]
