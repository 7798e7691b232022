-- ===== src/Client/Anchors.antt =====
-- The anchors of fabric/rust/src/client.rs: the merged pool, the fetch of a set and the badge of a zone.
pub mod Merge
use certrelay.Prelude.{
  ℕ, suc, ◌+◌, Bool, true, false, not, ◌&&◌, ◌||◌, ◌==◌, Option, none, some, List, [], ◌∷◌, ◌++◌,
  leb, eqb, if◌then◌else◌, is_some, String,
}
use certrelay.Store.Types.{Bytes, Zone, SovereigntyState, sovereign, pending, dependent}
use certrelay.Store.Update.{bytes_dec_eq, bytes_discrete}
use certrelay.Client.{
  Error, decode_error, no_peers, relay_error, Fetched, got, lost, Reply, unsent, garbled, refused,
  body, TrustSet, AnchorBundle, AnchorPool, Fabric, Anchoring, Net,
}

-- `contains` on roots.
unfoldable pub has_root : Bytes → List Bytes → Bool
has_root r [] = false
has_root r (x ∷ xs) = eqb x r || has_root r xs

unfoldable pub all_in : Option TrustSet → List Bytes → Bool
unfolding has_root
all_in none roots = false
all_in (some s) [] = true
all_in (some s) (r ∷ rs) =
    let rest = all_in (some s) rs in if has_root r s.roots then rest else false

pub data Badge : Type 0 where
  orange unverified no_badge : Badge

abbrev pub is_sovereign : SovereigntyState → Bool
is_sovereign sovereign = true
is_sovereign pending = false
is_sovereign dependent = false

module _ {A V : Type 0} where
  unfoldable pub are_roots_trusted : List Bytes → Fabric A V → Bool
  unfolding all_in
  are_roots_trusted roots f = all_in f.trusted roots

  unfoldable pub are_roots_observed : List Bytes → Fabric A V → Bool
  unfolding all_in
  are_roots_observed roots f = all_in f.observed roots

  unfoldable pub are_roots_semi_trusted : List Bytes → Fabric A V → Bool
  unfolding all_in
  are_roots_semi_trusted roots f = all_in f.semi_trusted roots

  -- `anchor` is the root under which the zone was verified.
  unfoldable pub badge : Bytes → SovereigntyState → Fabric A V → Badge
  unfolding are_roots_trusted are_roots_observed are_roots_semi_trusted
  badge anchor s f =
      let trusted = are_roots_trusted (anchor ∷ []) f in
      let observed = trusted || are_roots_observed (anchor ∷ []) f in
      let semi_trusted = trusted || are_roots_semi_trusted (anchor ∷ []) f in
      if not (is_some f.trusted || is_some f.observed || is_some f.semi_trusted)
      then unverified
      else (if trusted && is_sovereign s
          then orange
          else (if observed && not trusted && not semi_trusted then unverified else no_badge))

  unfoldable pub clear_trusted : Fabric A V → Fabric A V
  clear_trusted f = record f { trusted = none }

  unfoldable pub clear_semi_trusted : Fabric A V → Fabric A V
  clear_semi_trusted f = record f { semi_trusted = none }

module _ {A V : Type 0} (k : Anchoring A V) where
  -- The stable `sort_by_key` by descending height.
  unfoldable pub insert_anchor : A → List A → List A
  insert_anchor x [] = x ∷ []
  insert_anchor x (y ∷ ys) =
      let rest = insert_anchor x ys in
      if leb (k.height y) (k.height x) then x ∷ y ∷ ys else y ∷ rest

  unfoldable pub sort_anchors : List A → List A
  unfolding insert_anchor
  sort_anchors [] = []
  sort_anchors (x ∷ xs) = insert_anchor x (sort_anchors xs)

  -- `dedup_by_key`: an anchor with the height of the last one kept goes.
  unfoldable pub dedup_from : A → List A → List A
  dedup_from last [] = []
  dedup_from last (x ∷ xs) =
      if k.height x == k.height last then dedup_from last xs else x ∷ dedup_from x xs

  unfoldable pub dedup_anchors : List A → List A
  unfolding dedup_from
  dedup_anchors [] = []
  dedup_anchors (x ∷ xs) = x ∷ dedup_from x xs

  unfoldable pub merged : AnchorPool A → List A
  unfolding sort_anchors dedup_anchors
  merged p = dedup_anchors (sort_anchors (p.trusted ++ p.semi_trusted ++ p.observed))

  -- A new verifier, when the merged anchors make one.
  unfoldable pub rebuild : Option V → Fabric A V → Fabric A V
  rebuild none f = f
  rebuild (some v) f = record f { veritas = v }

  unfoldable pub with_pool : AnchorPool A → Fabric A V → Fabric A V
  unfolding merged rebuild
  with_pool p f = rebuild (k.with_anchors (merged p)) (record f { anchor_pool = p })

  unfoldable pub apply_semi_trusted : AnchorBundle A → Fabric A V → Fabric A V
  unfolding with_pool
  apply_semi_trusted ab f =
      record (with_pool (record (f.anchor_pool) { semi_trusted = ab.anchors }) f) {
        semi_trusted = some ab.trust_set;
      }

  unfoldable pub bundle_of : List A → AnchorBundle A
  bundle_of entries = record { trust_set = k.compute_trust_set entries; anchors = entries }

  unfoldable pub needs_anchors : Fabric A V → Bool
  needs_anchors f = k.newest_anchor f.veritas == 0

  -- The set of one relay, which must have the root that was asked for.
  unfoldable pub read_set : Bytes → Reply (List A) → Fetched (AnchorBundle A)
  unfolding bundle_of
  read_set trust_id unsent = lost decode_error
  read_set trust_id (refused status) = lost (relay_error status)
  read_set trust_id garbled = lost decode_error
  read_set trust_id (body entries) =
      if eqb (bundle_of entries).trust_set.id trust_id
      then got (bundle_of entries)
      else lost decode_error

  -- The first relay that serves the set; the last error when none does.
  unfoldable pub fetch_from : Net A → Bytes → Error → List String → Fetched (AnchorBundle A)
  unfolding read_set
  fetch_from net trust_id last [] = lost last
  fetch_from net trust_id last (u ∷ us) = elim (read_set trust_id (net.anchors u trust_id)) [
    | got ab ↦ got ab
    | lost e ↦ fetch_from net trust_id e us
  ]

  unfoldable pub fetch_anchor_set : Net A → Bytes → List String → Fetched (AnchorBundle A)
  unfolding fetch_from
  fetch_anchor_set net trust_id us = fetch_from net trust_id no_peers us
