-- ===== src/Peer/State/Rest.antt =====
-- The loop over the unverified entries of relay/src/peer.rs, on the whole table.
use certrelay.Prelude.{
  ℕ, zero, suc, ◌≤◌, ◌≡◌, refl, inl, inr, Option-cases, length, String, string_dec_eq, arith,
}
use certrelay.Map.{Distinct}
use certrelay.Map.Laws.{retain-Distinct}
use certrelay.Peer.Address.{ip_dec_eq}
use certrelay.Peer.State.{
  PeerTable, oldest_over, drop_unverified, evict_unverified_rounds, evict_unverified,
  evict_verified_rounds, evict_verified,
}
use certrelay.Peer.State.Evict.{oldest_over-cases}

-- The loop over the unverified entries is the same loop, with the slots of what it removes.
rounds-unverified :
    (n : ℕ) (t : PeerTable)
    → (evict_unverified_rounds n t).unverified
      ≡ evict_verified_rounds n t.max_unverified t.unverified
unfolding evict_unverified_rounds evict_verified_rounds drop_unverified
rounds-unverified zero t = refl
rounds-unverified (suc n) t = elim (Option-cases (oldest_over t.max_unverified t.unverified)) [
  | inl e ↦ rw (e, evict_unverified_rounds, evict_verified_rounds)
  | inr (url, e) ↦
      rw (e, evict_unverified_rounds, evict_verified_rounds)
        (rounds-unverified n (drop_unverified url t))
]

pub evict_unverified-unverified :
    (t : PeerTable) → (evict_unverified t).unverified ≡ evict_verified t.max_unverified t.unverified
unfolding evict_unverified evict_verified
evict_unverified-unverified t = rounds-unverified (length t.unverified) t

table_id :
    (n : ℕ) (t : PeerTable)
    → Distinct t.unverified
    → length t.unverified ≤ t.max_unverified
    → evict_unverified_rounds n t ≡ t
unfolding evict_unverified_rounds
table_id zero t d h = refl
table_id (suc n) t d h = elim (oldest_over-cases t.max_unverified t.unverified d) [
  | inl (e, _) ↦ rw (e, evict_unverified_rounds)
  | inr (url, e, (entry, large, _, _)) ↦ absurd (omega arith)
]

-- What each round keeps, the loop keeps.
rounds_inv {ℓ} :
    (P : PeerTable → Type ℓ)
    → ((t : PeerTable) (url : String) → P t → P (drop_unverified url t))
    → (n : ℕ) (t : PeerTable) → P t
    → P (evict_unverified_rounds n t)
unfolding evict_unverified_rounds
rounds_inv P keep zero t p = p
rounds_inv P keep (suc n) t p = elim (Option-cases (oldest_over t.max_unverified t.unverified)) [
  | inl e ↦ rw (e, evict_unverified_rounds) p
  | inr (url, e) ↦
      rw (e, evict_unverified_rounds) (rounds_inv P keep n (drop_unverified url t) (keep t url p))
]

-- The parts of the table that the loop leaves as they are.
abbrev pub SameRest : PeerTable → PeerTable → Type 0
SameRest t s = (s.verified ≡ t.verified) × (s.config ≡ t.config) × (s.self_url ≡ t.self_url)

pub evict_unverified-SameRest : (t : PeerTable) → SameRest t (evict_unverified t)
unfolding evict_unverified drop_unverified
evict_unverified-SameRest t =
    rounds_inv (SameRest t) (λ s url p. p) (length t.unverified) t (refl, refl, refl)

pub evict_unverified-slots :
    (t : PeerTable) → Distinct t.ip_slots → Distinct (evict_unverified t).ip_slots
unfolding evict_unverified drop_unverified
evict_unverified-slots t d =
    rounds_inv (λ s. Distinct s.ip_slots) (λ s url p. retain-Distinct _ s.ip_slots p)
      (length t.unverified) t d

pub evict_unverified_id :
    (t : PeerTable)
    → Distinct t.unverified
    → length t.unverified ≤ t.max_unverified
    → evict_unverified t ≡ t
unfolding evict_unverified
evict_unverified_id t d h = table_id (length t.unverified) t d h
