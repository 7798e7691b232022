-- ===== src/Client/Votes/Count.antt =====
-- How `refresh_semi_trusted` of fabric/rust/src/client.rs counts the votes.
use certrelay.Prelude.{
  ℕ, suc, ◌+◌, ◌≡◌, ◌≢◌, ◌≤◌, refl, sym, ◌⊎◌, inl, inr, Bool, false, Option, none, some, List, [],
  ◌∷◌, ◌++◌, eqb, DecEq, if◌then◌else◌, length, String, arith, Option-cases,
}
use mathlib.Core.List.{append-nil, append_assoc}
use certrelay.Map.{Map, lookup, Distinct}
use certrelay.Map.Laws.{lookup-insert, insert-Distinct}
use certrelay.Store.Types.{Bytes}
use certrelay.Store.Update.{bytes_dec_eq}
use certrelay.Client.{
  Error, Fetched, got, lost, Fetched-cases, Reply, unsent, garbled, refused, body, AnchorBundle,
  SemiTrustedRelay, Anchoring, Crypto, Net,
}
use certrelay.Client.Anchors.{bundle_of, read_set, fetch_from}
use certrelay.Client.Votes.{
  fetch_signed_anchor_head, add_to, add_vote, at_most, best_from, winner, count_votes,
}

-- The head names this root, with a signature that verifies.
unfoldable pub voted : Bytes → Fetched (Bytes × ℕ) → Bool
voted root (lost e) = false
voted root (got (r, height)) = eqb r root

-- The relays that serve this root under their pinned keys.
unfoldable pub voters : {A : Type 0} → Crypto → Net A → Bytes → List SemiTrustedRelay → List String
unfolding voted
voters c net root [] = []
voters c net root (r ∷ rs) =
    let rest = voters c net root rs in
    if voted root (fetch_signed_anchor_head c net r) then r.url ∷ rest else rest

abbrev pub urls_of : Option (ℕ × List String) → List String
urls_of none = []
urls_of (some (h, us)) = us

pub voters_disjoint :
    {A : Type 0} (c : Crypto) (net : Net A) (p q : Bytes) (rs : List SemiTrustedRelay)
    → p ≢ q
    → length (voters c net p rs) + length (voters c net q rs) ≤ length rs
unfolding voters voted
voters_disjoint c net p q [] d = omega arith
voters_disjoint c net p q (r ∷ rs) d = elim (Fetched-cases (fetch_signed_anchor_head c net r)) [
  | inr (e, z) ↦ ground (arith, z, voters_disjoint c net p q rs d)
  | inl (x, z) ↦ ground (arith, z, voters_disjoint c net p q rs d)
]

module _ {K : Type 0} ⦃d : DecEq K⦄ where
  lookup-add_vote :
      (j k : K) (h : ℕ) (u : String) (m : Map K (ℕ × List String))
      → urls_of (lookup j (add_vote k h u m))
        ≡ (if eqb k j then urls_of (lookup j m) ++ (u ∷ []) else urls_of (lookup j m))
  unfolding add_vote add_to
  lookup-add_vote j k h u m =
      ground (arith, lookup-insert j k (add_to (lookup k m) h u) m, Option-cases (lookup k m))

  add_vote-Distinct :
      (k : K) (h : ℕ) (u : String) (m : Map K (ℕ × List String))
      → Distinct m
      → Distinct (add_vote k h u m)
  unfolding add_vote
  add_vote-Distinct k h u m v = insert-Distinct k (add_to (lookup k m) h u) m v

  -- The best entry is one of the map's, and none has more votes.
  best_from-le :
      (b : K × (ℕ × List String)) (m : Map K (ℕ × List String))
      → length b.1.1 ≤ length (best_from b m).1.1
  unfolding best_from at_most
  best_from-le b [] = omega arith
  best_from-le b (x ∷ m) = ground (arith, best_from-le b m, best_from-le x m)

  best_from-most :
      (b : K × (ℕ × List String)) (m : Map K (ℕ × List String)) (k : K)
      → length (urls_of (lookup k m)) ≤ length (best_from b m).1.1
  unfolding best_from lookup at_most
  best_from-most b [] k = omega arith
  best_from-most b (x ∷ m) k =
      ground (arith, best_from-most b m k, best_from-most x m k, best_from-le b m, best_from-le x m)

  best_from-lookup :
      (b : K × (ℕ × List String)) (m : Map K (ℕ × List String))
      → Distinct m
      → (best_from b m ≡ b) ⊎ (lookup (best_from b m).0 m ≡ some (best_from b m).1)
  unfolding best_from lookup
  best_from-lookup b [] v = inl refl
  best_from-lookup b (x ∷ m) v = ground (arith, best_from-lookup b m v.1, best_from-lookup x m v.1)

module _ {A V : Type 0} (k : Anchoring A V) (c : Crypto) (net : Net A) where
  pub count_votes-voters :
      (rs : List SemiTrustedRelay) (m : Map Bytes (ℕ × List String)) (n : ℕ) (root : Bytes)
      → urls_of (lookup root (count_votes k c net rs (m, n)).0)
        ≡ urls_of (lookup root m) ++ voters c net root rs
  unfolding count_votes voters voted
  count_votes-voters [] m n root = sym (append-nil (urls_of (lookup root m)))
  count_votes-voters (r ∷ rs) m n root = elim (Fetched-cases (fetch_signed_anchor_head c net r)) [
    | inr (e, z) ↦ ground (arith, z, count_votes-voters rs m n root)
    | inl ((p, h), z) ↦ ground (
      arith,
      z,
      append_assoc (urls_of (lookup root m)) (r.url ∷ []) (voters c net root rs),
      count_votes-voters rs (add_vote p h r.url m) (suc n) root,
      lookup-add_vote root p h r.url m,
    )
  ]

  read_set-got :
      (id : Bytes) (r : Reply (List A)) (ab : AnchorBundle A)
      → read_set k id r ≡ got ab
      → (ab ≡ bundle_of k ab.anchors) × (ab.trust_set.id ≡ id)
  unfolding read_set bundle_of
  read_set-got id unsent ab e = ground arith
  read_set-got id garbled ab e = ground arith
  read_set-got id (refused n) ab e = ground arith
  read_set-got id (body x) ab e = ground arith

  pub fetch_from-got :
      (id : Bytes) (last : Error) (us : List String) (ab : AnchorBundle A)
      → fetch_from k net id last us ≡ got ab
      → (ab ≡ bundle_of k ab.anchors) × (ab.trust_set.id ≡ id)
  unfolding fetch_from
  fetch_from-got id last [] ab e = ground arith
  fetch_from-got id last (u ∷ us) ab e = elim (Fetched-cases (read_set k id (net.anchors u id))) [
    | inr (x, z) ↦ ground (arith, z, e, fetch_from-got id x us ab)
    | inl (a, z) ↦ read_set-got id (net.anchors u id) ab (ground (arith, z, e))
  ]

  pub count_votes-Distinct :
      (rs : List SemiTrustedRelay) (m : Map Bytes (ℕ × List String)) (n : ℕ)
      → Distinct m
      → Distinct (count_votes k c net rs (m, n)).0
  unfolding count_votes
  count_votes-Distinct [] m n v = v
  count_votes-Distinct (r ∷ rs) m n v = elim (Fetched-cases (fetch_signed_anchor_head c net r)) [
    | inr (e, z) ↦ rw (z, count_votes, Distinct) (count_votes-Distinct rs m n v)
    | inl ((p, h), z) ↦
        rw (z, count_votes, Distinct)
          (count_votes-Distinct rs (add_vote p h r.url m) (suc n) (add_vote-Distinct p h r.url m v))
  ]

  -- The winner has the most votes, and they are its voters.
  unfoldable pub IsWinner : List SemiTrustedRelay → Option (Bytes × (ℕ × List String)) → Type 0
  IsWinner rs none = Unit
  IsWinner rs (some (root, (h, us))) =
      (us ≡ voters c net root rs) × ((other : Bytes) → length (voters c net other rs) ≤ length us)

  pub winner_from :
      (rs : List SemiTrustedRelay) (m : Map Bytes (ℕ × List String))
      → Distinct m
      → ((root : Bytes) → urls_of (lookup root m) ≡ voters c net root rs)
      → IsWinner rs (winner m)
  unfolding winner IsWinner lookup
  winner_from rs [] v e = tt
  winner_from rs (x ∷ m) v e =
      let b = best_from x m in
      (
        elim (best_from-lookup x m v.1) [
          | inl same ↦ ground (arith, same, e x.0)
          | inr found ↦ ground (arith, found, e b.0, v.0)
        ],
        λ other. ground (arith, best_from-most x m other, best_from-le x m, e other),
      )
