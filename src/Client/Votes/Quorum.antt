-- ===== src/Client/Votes/Quorum.antt =====
-- What `refresh_semi_trusted` of fabric/rust/src/client.rs may pin.
use certrelay.Prelude.{
  ℕ, ◌≡◌, ◌≢◌, ◌≤◌, ◌<◌, ◌∙◌, refl, sym, ap, ◌⊎◌, inl, inr, true, false, ◌&&◌, Option, none, some,
  List, [], leb, ltb, length, String, arith, Bool-cases,
}
use certrelay.Map.{lookup}
use certrelay.Store.Types.{Bytes}
use certrelay.Store.Update.{bytes_dec_eq}
use certrelay.Client.{
  no_peers, Fetched, got, lost, Fetched-cases, AnchorBundle, SemiTrustResult, majority, required,
  Fabric, Anchoring, Crypto, Net,
}
use certrelay.Client.Anchors.{rebuild, with_pool, apply_semi_trusted, fetch_anchor_set}
use certrelay.Client.Votes.{winner, count_votes, result_of, pin, decide, refresh_semi_trusted}
use certrelay.Client.Votes.Count.{
  voters, voters_disjoint, count_votes-voters, fetch_from-got, count_votes-Distinct, IsWinner,
  winner_from,
}

module _ {A V : Type 0} (k : Anchoring A V) (c : Crypto) (net : Net A) where
  -- What a run pins: the set of a root that enough relays serve under their keys, and no root has more.
  pub record Agreed (f after : Fabric A V) : Type 0 where
    pub root : Bytes
    pub entries : List A
    pub is_root : (k.compute_trust_set entries).id ≡ root
    pub pinned : after.semi_trusted ≡ some (k.compute_trust_set entries)
    pub anchors : after.anchor_pool.semi_trusted ≡ entries
    pub trusted : after.trusted ≡ f.trusted
    pub observed : after.observed ≡ f.observed
    pub served : 1 ≤ length (voters c net root f.semi_trust_config.relays)
    pub enough :
        required f.semi_trust_config.quorum (length f.semi_trust_config.relays)
        ≤ length (voters c net root f.semi_trust_config.relays)
    pub most :
        (other : Bytes)
        → length (voters c net other f.semi_trust_config.relays)
          ≤ length (voters c net root f.semi_trust_config.relays)
    pub sole :
        f.semi_trust_config.quorum ≡ majority
        → (other : Bytes) → root ≢ other
        → length (voters c net other f.semi_trust_config.relays)
          < required majority (length f.semi_trust_config.relays)

  abbrev pub Ends : Fabric A V → Fabric A V × Fetched SemiTrustResult → Type 0
  Ends f (after, lost e) = after ≡ f
  Ends f (after, got r) =
      ((r.quorum_met ≡ false) × (after ≡ f)) ⊎ ((r.quorum_met ≡ true) × Agreed f after)

  apply_semi_trusted-Agreed :
      (ab : AnchorBundle A) (f : Fabric A V)
      → ((apply_semi_trusted k ab f).semi_trusted ≡ some ab.trust_set)
        × ((apply_semi_trusted k ab f).anchor_pool.semi_trusted ≡ ab.anchors)
        × ((apply_semi_trusted k ab f).trusted ≡ f.trusted)
        × ((apply_semi_trusted k ab f).observed ≡ f.observed)
  unfolding apply_semi_trusted with_pool rebuild
  apply_semi_trusted-Agreed ab f = ground arith

  pin-Ends :
      (root : Bytes) (h : ℕ) (us : List String) (res : SemiTrustResult) (f : Fabric A V)
      → res.quorum_met ≡ true
      → us ≡ voters c net root f.semi_trust_config.relays
      → ((other : Bytes) → length (voters c net other f.semi_trust_config.relays) ≤ length us)
      → 0 < length us
      → required f.semi_trust_config.quorum (length f.semi_trust_config.relays) ≤ length us
      → Ends f (pin k c net root h res (fetch_anchor_set k net root us) f)
  unfolding pin fetch_anchor_set required
  pin-Ends root h us res f met same most some_vote enough =
      elim (Fetched-cases (fetch_anchor_set k net root us)) [
        | inr (e, z) ↦ rw (z, pin) refl
        | inl (ab, z) ↦
            let (whole, id) = fetch_from-got k c net root no_peers us ab z in
            let pinned = apply_semi_trusted-Agreed ab f in
            rw (z, pin)
              (inr (
                met,
                record {
                  root = root;
                  entries = ab.anchors;
                  is_root = ap (λ (x : AnchorBundle A). x.trust_set.id) (sym whole) ∙ id;
                  pinned = pinned.0 ∙ ap (λ (x : AnchorBundle A). some x.trust_set) whole;
                  anchors = pinned.1;
                  trusted = pinned.2;
                  observed = pinned.3;
                  served = ground (arith, same);
                  enough = ground (arith, same);
                  most = λ other. ground (arith, same, most other);
                  sole = λ m other d. ground (
                    arith,
                    same,
                    m,
                    voters_disjoint c net root other f.semi_trust_config.relays d,
                  );
                },
              ))
      ]

  decide-Ends :
      (verified : ℕ) (w : Option (Bytes × (ℕ × List String))) (f : Fabric A V)
      → IsWinner k c net f.semi_trust_config.relays w
      → Ends f (decide k c net f.semi_trust_config verified w f)
  unfolding decide result_of IsWinner
  decide-Ends verified none f v = inl (refl, refl)
  decide-Ends verified (some (root, (h, us))) f v =
      elim (Bool-cases (
        ltb 0 (length us)
        && leb (required f.semi_trust_config.quorum (length f.semi_trust_config.relays))
            (length us))) [
              | inr b ↦ rw (b, decide) (inl (refl, refl))
              | inl b ↦
                  rw (b, decide)
                    (pin-Ends root h us _ f refl v.0 v.1 (ground (arith, b)) (ground (arith, b)))
            ]

  -- A refresh of the semi-trusted anchor either leaves the client as it was, or it pins the set of a
  -- root that meets the quorum: so many relays of the pool serve this root under their pinned keys, at
  -- least one does, no other root has more of them, and under a majority quorum no other root could
  -- have met it. It reports which of the two happened, unless it ends in an error, and then nothing
  -- changed. The pinned set hashes to the root.
  pub refresh_semi_trusted-Ends : (f : Fabric A V) → Ends f (refresh_semi_trusted k c net f)
  unfolding refresh_semi_trusted lookup
  refresh_semi_trusted-Ends f =
      let rs = f.semi_trust_config.relays in
      let v = count_votes k c net rs ([], 0) in
      decide-Ends v.1 (winner v.0) f (
        winner_from k c net rs v.0 (count_votes-Distinct k c net rs [] 0 tt)
          (λ root. count_votes-voters k c net rs [] 0 root))
