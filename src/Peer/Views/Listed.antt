-- ===== src/Peer/Views/Listed.antt =====
-- Which peers the relay shows to others.
use certrelay.Prelude.{
  ap, ℕ, ◌≡◌, refl, Bool, true, false, not, ◌&&◌, Option, List, [], ◌∷◌, map, String, string_dec_eq,
  dec_eq, ite, arith, is_some,
}
use certrelay.Map.{Map, lookup}
use certrelay.Map.Laws.{lookup-retain}
use certrelay.Peer.Url.{normalize_url}
use certrelay.Peer.State.{PeerEntry, PeerTable, is_self, is_fresh}
use certrelay.Peer.State.Invariant.{Inv}
use certrelay.Peer.Views.{keys, shown, peers, peers_info, info_of, is_verified}

-- A test for membership.
unfoldable pub has : String → List String → Bool
has u [] = false
has u (v ∷ vs) = ite (dec_eq v u) true (has u vs)

pub has-keys : (u : String) (m : Map String PeerEntry) → has u (keys m) ≡ is_some (lookup u m)
unfolding has lookup
has-keys u [] = refl
has-keys u ((v, e) ∷ m) = ground (arith, has-keys u m)

-- `peers` lists a URL exactly when `is_verified` holds of it and it is not the relay's own.
pub has-peers :
    (parse : String → Option String) (t : PeerTable) (now : ℕ) (raw : String)
    → Inv t
    → has (normalize_url parse raw) (peers t now)
      ≡ (not (is_self t (normalize_url parse raw)) && is_verified parse t raw now)
unfolding peers is_verified
has-peers parse t now raw v =
    let url = normalize_url parse raw in
    ground (
      arith,
      has-keys url (shown t now),
      lookup-retain url (λ u e. not (is_self t u) && is_fresh t.config now e) t.verified
          v.shape.verified_distinct,
    )

-- `peers_info` describes the peers that `peers` lists, in the same order.
pub map-url-peers_info :
    (t : PeerTable) (now : ℕ) → map (λ p. p.url) (peers_info t now) ≡ peers t now
unfolding peers_info peers
map-url-peers_info t now = urls (shown t now)
  where
    urls : (m : Map String PeerEntry) → map (λ p. p.url) (map info_of m) ≡ keys m
    urls [] = refl
    urls ((u, e) ∷ m) = ap (◌∷◌ u) (urls m)
