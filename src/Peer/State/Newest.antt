-- ===== src/Peer/State/Newest.antt =====
-- The eviction loops of relay/src/peer.rs remove no more than they have to, and never the entry
-- that was seen last.
use certrelay.Prelude.{
  ℕ, zero, suc, ◌≤◌, ◌<◌, ◌≡◌, ◌≢◌, refl, sym, ◌∙◌, inl, inr, some, [], ◌∷◌, leb, leb→le,
  Bool-cases, Option-cases, length, String, string_dec_eq, arith,
}
use certrelay.Map.{Map, lookup, Distinct}
use certrelay.Map.Laws.{length-remove}
use certrelay.Peer.Address.{ip_dec_eq}
use certrelay.Peer.State.{PeerEntry, evict_verified_rounds, evict_verified}
use certrelay.Peer.State.Evict.{
  oldest_over-cases, evict_verified_rounds_inv, evict_kept, evict_oldest,
}

-- The loop removes no more than it has to.
evict-full :
    (limit : ℕ) (m : Map String PeerEntry)
    → Distinct m
    → limit ≤ length m
    → limit ≤ length (evict_verified limit m)
unfolding evict_verified
evict-full limit m d h =
    evict_verified_rounds_inv (λ s. limit ≤ length s) limit
      (λ s url distinct _ (e, large, found, _). ground (arith, length-remove url s distinct))
      (length m) m d h

rounds_id :
    (limit n : ℕ) (m : Map String PeerEntry)
    → Distinct m
    → length m ≤ limit
    → evict_verified_rounds n limit m ≡ m
unfolding evict_verified_rounds
rounds_id limit zero m d h = refl
rounds_id limit (suc n) m d h = elim (oldest_over-cases limit m d) [
  | inl (e, _) ↦ rw (e, evict_verified_rounds)
  | inr (url, e, (entry, large, _, _)) ↦ absurd (omega arith)
]

pub evict_id :
    (limit : ℕ) (m : Map String PeerEntry)
    → Distinct m
    → length m ≤ limit
    → evict_verified limit m ≡ m
unfolding evict_verified
evict_id limit m d h = rounds_id limit (length m) m d h

some_entry :
    (m : Map String PeerEntry)
    → 1 ≤ length m
    → (v : String) × (f : PeerEntry) × (lookup v m ≡ some f)
unfolding lookup
some_entry [] h = absurd (omega arith)
some_entry ((v, f) ∷ m) h = (v, f, ground arith)

-- The entry that was seen last of all stays.
pub evict_newest :
    (limit : ℕ) (m : Map String PeerEntry) (u : String) (e : PeerEntry)
    → Distinct m
    → 1 ≤ limit
    → lookup u m ≡ some e
    → ((v : String) (f : PeerEntry) → v ≢ u → lookup v m ≡ some f → f.last_seen < e.last_seen)
    → lookup u (evict_verified limit m) ≡ some e
evict_newest limit m u e d room held newest =
    elim (Option-cases (lookup u (evict_verified limit m))) [
      | inr (f, kept) ↦ kept ∙ sym (evict_kept limit m d u f kept) ∙ held
      | inl gone ↦ elim (Bool-cases (leb (length m) limit)) [
        | inl small ↦ absurd (cc (evict_id limit m d (leb→le (length m) limit small)))
        | inr large ↦
            let full = evict-full limit m d (ground arith) in
            let (v, f, kept) = some_entry (evict_verified limit m) (omega arith) in
            absurd (
              omega (
                arith,
                newest v f (λ same. cc) (evict_kept limit m d v f kept),
                evict_oldest limit m d u v e f held gone kept,
              ))
      ]
    ]
