-- ===== src/Peer/State/Evict.antt =====
-- What the eviction loops of relay/src/peer.rs do: they stop within the limit, change nothing else,
-- and remove the entries that were seen longest ago.
use certrelay.Prelude.{
  ap, dec_eq, ℕ, zero, suc, ◌≤◌, ◌<◌, ◌≡◌, ◌⊎◌, inl, inr, none, some, ltb, Bool-cases, ltb→lt,
  length, String, string_dec_eq, arith,
}
use certrelay.Map.{Map, lookup, remove, Distinct}
use certrelay.Map.Laws.{
  min_by_key-cases, length-remove-lt, length-remove-le, remove-Distinct, lookup-remove,
}
use certrelay.Peer.State.{
  PeerEntry, last_seen_of, oldest_over, evict_verified_rounds, evict_verified,
}

-- No entry of the map was seen before `n`.
abbrev pub SeenFrom : ℕ → Map String PeerEntry → Type 0
SeenFrom n m = (u : String) (e : PeerEntry) → lookup u m ≡ some e → n ≤ e.last_seen

abbrev pub Oldest : ℕ → Map String PeerEntry → String → Type 0
Oldest limit m url =
    (e : PeerEntry) × (limit < length m) × (lookup url m ≡ some e) × SeenFrom e.last_seen m

pub oldest_over-cases :
    (limit : ℕ) (m : Map String PeerEntry)
    → Distinct m
    → ((oldest_over limit m ≡ none) × (length m ≤ limit))
      ⊎ ((url : String) × (oldest_over limit m ≡ some url) × Oldest limit m url)
unfolding oldest_over
oldest_over-cases limit m d = elim (Bool-cases (ltb limit (length m))) [
  | inr small ↦ inl (rw small, ground arith)
  | inl large ↦ elim (min_by_key-cases last_seen_of m d) [
    | inl (e, _) ↦ absurd (omega (arith, ap length e, ltb→lt limit (length m) large))
    | inr (k, v, found, entry, least) ↦
        inr (k, rw (large, found), (v, ltb→lt limit (length m) large, entry, least))
  ]
]

-- An invariant that each round keeps holds when the loop ends.
pub evict_verified_rounds_inv {ℓ} :
    (P : Map String PeerEntry → Type ℓ) (limit : ℕ)
    → ((m : Map String PeerEntry) (url : String)
        → Distinct m
        → P m
        → Oldest limit m url
        → P (remove url m))
    → (n : ℕ) (m : Map String PeerEntry) → Distinct m
    → P m
    → P (evict_verified_rounds n limit m)
unfolding evict_verified_rounds
evict_verified_rounds_inv P limit keep zero m d p = p
evict_verified_rounds_inv P limit keep (suc n) m d p = elim (oldest_over-cases limit m d) [
  | inl (e, _) ↦ rw (e, evict_verified_rounds) p
  | inr (url, e, o) ↦
      rw (e, evict_verified_rounds)
        (evict_verified_rounds_inv P limit keep n (remove url m) (remove-Distinct url m d)
          (keep m url d p o))
]

evict_rounds-bound :
    (limit n : ℕ) (m : Map String PeerEntry)
    → Distinct m
    → length m ≤ n
    → length (evict_verified_rounds n limit m) ≤ limit
unfolding evict_verified_rounds
evict_rounds-bound limit zero m d h = omega arith
evict_rounds-bound limit (suc n) m d h = elim (oldest_over-cases limit m d) [
  | inl (e, small) ↦ rw (e, evict_verified_rounds) small
  | inr (url, e, (entry, _, found, _)) ↦
      rw (e, evict_verified_rounds)
        (evict_rounds-bound limit n (remove url m) (remove-Distinct url m d)
          (omega (arith, length-remove-lt url m entry found)))
]

SeenFrom-remove :
    (n : ℕ) (url : String) (m : Map String PeerEntry) → SeenFrom n m → SeenFrom n (remove url m)
SeenFrom-remove n url m older u e h = older u e (ground (arith, lookup-remove u url m))

abbrev HeldOrOlder : String → PeerEntry → Map String PeerEntry → Type 0
HeldOrOlder u e m = (lookup u m ≡ some e) ⊎ SeenFrom e.last_seen m

HeldOrOlder-remove :
    (u : String) (e : PeerEntry) (limit : ℕ) (m : Map String PeerEntry) (url : String)
    → HeldOrOlder u e m
    → Oldest limit m url
    → HeldOrOlder u e (remove url m)
HeldOrOlder-remove u e limit m url (inr older) o = inr (SeenFrom-remove e.last_seen url m older)
HeldOrOlder-remove u e limit m url (inl held) (f, _, found, least) = elim (dec_eq url u) [
  | no other ↦ inl (ground (arith, lookup-remove u url m))
  | yes same ↦
      let seen : SeenFrom e.last_seen m =
        λ v g h. ground (arith, least v g h, ap (λ k. lookup k m) same) in
      inr (SeenFrom-remove e.last_seen url m seen)
]

module _ (limit : ℕ) (m : Map String PeerEntry) (d : Distinct m) where
  pub evict-bound : length (evict_verified limit m) ≤ limit
  unfolding evict_verified
  evict-bound = evict_rounds-bound limit (length m) m d (omega arith)

  pub evict-length-le : length (evict_verified limit m) ≤ length m
  unfolding evict_verified
  evict-length-le =
      evict_verified_rounds_inv (λ s. length s ≤ length m) limit
        (λ s url _ h _. omega (arith, length-remove-le url s)) (length m) m d (omega arith)

  pub evict-Distinct : Distinct (evict_verified limit m)
  unfolding evict_verified
  evict-Distinct =
      evict_verified_rounds_inv Distinct limit (λ s url _ h _. remove-Distinct url s h) (length m) m
        d d

  -- What is left was there before.
  pub evict_kept :
      (u : String) (e : PeerEntry)
      → lookup u (evict_verified limit m) ≡ some e
      → lookup u m ≡ some e
  unfolding evict_verified
  evict_kept u e =
      evict_verified_rounds_inv (λ s. lookup u s ≡ some e → lookup u m ≡ some e) limit
        (λ s url _ h _ k. h (ground (arith, lookup-remove u url s))) (length m) m d (λ h. h)

  evict-HeldOrOlder :
      (u : String) (e : PeerEntry) → lookup u m ≡ some e → HeldOrOlder u e (evict_verified limit m)
  unfolding evict_verified
  evict-HeldOrOlder u e h =
      evict_verified_rounds_inv (HeldOrOlder u e) limit
        (λ s url _ p o. HeldOrOlder-remove u e limit s url p o) (length m) m d (inl h)

  -- An entry that is evicted was not seen after any that is kept.
  pub evict_oldest :
      (u v : String) (e f : PeerEntry)
      → lookup u m ≡ some e
      → lookup u (evict_verified limit m) ≡ none
      → lookup v (evict_verified limit m) ≡ some f
      → e.last_seen ≤ f.last_seen
  evict_oldest u v e f h gone kept = elim (evict-HeldOrOlder u e h) [
    | inl held ↦ cc
    | inr older ↦ older v f kept
  ]
