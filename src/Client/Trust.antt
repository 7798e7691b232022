-- ===== src/Client/Trust.antt =====
-- How fabric/rust/src/client.rs comes to its anchors and its relays. Each call that draws relays at
-- random takes what the random generator does to the pool.
use certrelay.Prelude.{
  Bool, not, ◌&&◌, Option, none, some, List, [], ◌∷◌, ◌++◌, eqb, if◌then◌else◌, String,
  string_dec_eq,
}
use certrelay.Store.Types.{Bytes, Zone}
use certrelay.Store.Pages.{contains}
use certrelay.Client.{
  Error, decode_error, no_peers, relay_error, Fetched, got, lost, Reply, unsent, garbled, refused,
  body, TrustSet, AnchorBundle, AnchorPool, RelayEntry, SemiTrustedRelay, Quorum, Fabric, Anchoring,
  Net,
}
use certrelay.Client.Relays.{shuffled_urls_n, refresh, is_empty, urls}
use certrelay.Client.Anchors.{merged, with_pool, fetch_anchor_set, needs_anchors}
use certrelay.Client.Votes.{fetch_latest_trust_id, id_of}

pub data TrustKind : Type 0 where
  trusted semi_trusted : Bytes → TrustKind
  observed : TrustKind

-- `HashSet::insert` for each URL.
unfoldable pub add_urls : List String → List String → List String
add_urls [] set = set
add_urls (u ∷ us) set = add_urls us (if contains set u then set else set ++ (u ∷ []))

-- `fetch_peers`: the URLs of an answer.
unfoldable pub fetch_peers : Reply (List String) → Fetched (List String)
fetch_peers unsent = lost decode_error
fetch_peers garbled = lost decode_error
fetch_peers (refused status) = lost (relay_error status)
fetch_peers (body us) = got us

-- The loop over the seeds: the URLs and the last error.
unfoldable pub gather :
    (String → Reply (List String))
    → List String
    → List String × Option Error
    → List String × Option Error
unfolding add_urls fetch_peers
gather peers [] r = r
gather peers (s ∷ ss) (set, last) = elim (fetch_peers (peers s)) [
  | got us ↦ gather peers ss (add_urls us set, last)
  | lost e ↦ gather peers ss (set, some e)
]

module _ {A V : Type 0} (k : Anchoring A V) (net : Net A) (from_str : String → Option Bytes) where
  unfoldable pub set_anchors : TrustKind → List A → AnchorPool A → AnchorPool A
  set_anchors (trusted id) xs p = record p { trusted = xs }
  set_anchors (semi_trusted id) xs p = record p { semi_trusted = xs }
  set_anchors observed xs p = record p { observed = xs }

  unfoldable pub set_trust : TrustKind → TrustSet → Fabric A V → Fabric A V
  set_trust (trusted id) s f = record f { trusted = some s }
  set_trust (semi_trusted id) s f = record f { semi_trusted = some s }
  set_trust observed s f = record f { observed = some s }

  -- The root and the relays to ask for its set, with the pool that the draw leaves.
  unfoldable pub source_of :
      (List RelayEntry → List RelayEntry)
      → TrustKind
      → Fabric A V
      → Fabric A V × Fetched (Bytes × List String)
  unfolding shuffled_urls_n fetch_latest_trust_id
  source_of shuffle (trusted id) f =
      let (us, pool) = shuffled_urls_n shuffle 4 f.pool in (record f { pool = pool }, got (id, us))
  source_of shuffle (semi_trusted id) f =
      let (us, pool) = shuffled_urls_n shuffle 4 f.pool in (record f { pool = pool }, got (id, us))
  source_of shuffle observed f = (f, fetch_latest_trust_id net from_str f.seeds)

  unfoldable pub install :
      TrustKind → Fabric A V → Fetched (AnchorBundle A) → Fabric A V × Fetched (Unit {0})
  unfolding set_anchors set_trust with_pool
  install kind f (lost e) = (f, lost e)
  install kind f (got ab) = (
    set_trust kind ab.trust_set (with_pool k (set_anchors kind ab.anchors f.anchor_pool) f),
    got tt,
  )

  unfoldable pub with_source :
      TrustKind → Fabric A V × Fetched (Bytes × List String) → Fabric A V × Fetched (Unit {0})
  unfolding install fetch_anchor_set
  with_source kind (f, lost e) = (f, lost e)
  with_source kind (f, got (id, us)) = install kind f (fetch_anchor_set k net id us)

  unfoldable pub update_anchors :
      (List RelayEntry → List RelayEntry) → TrustKind → Fabric A V → Fabric A V × Fetched (Unit {0})
  unfolding source_of with_source
  update_anchors shuffle kind f = with_source kind (source_of shuffle kind f)

  unfoldable pub fill_pool :
      List String → Option Error → Fabric A V → Fabric A V × Fetched (Unit {0})
  unfolding refresh
  fill_pool [] none f = (record f { pool = refresh f.seeds f.pool }, got tt)
  fill_pool [] (some e) f = (f, lost e)
  fill_pool (u ∷ us) last f = (record f { pool = refresh (u ∷ us) f.pool }, got tt)

  unfoldable pub bootstrap_peers :
      (String → Reply (List String)) → Fabric A V → Fabric A V × Fetched (Unit {0})
  unfolding gather fill_pool add_urls
  bootstrap_peers peers f =
      let (set, last) = gather peers f.seeds (add_urls f.seeds [], none) in fill_pool set last f

  -- What follows a step that can fail.
  unfoldable pub and_then :
      Fabric A V × Fetched (Unit {0})
      → (Fabric A V → Fabric A V × Fetched (Unit {0}))
      → Fabric A V × Fetched (Unit {0})
  and_then (f, lost e) next = (f, lost e)
  and_then (f, got x) next = next f

  unfoldable pub ensure_peers :
      (String → Reply (List String)) → Fabric A V → Fabric A V × Fetched (Unit {0})
  unfolding is_empty bootstrap_peers
  ensure_peers peers f = if is_empty f.pool then bootstrap_peers peers f else (f, got tt)

  -- `trust`, `observe` and `semi_trust`.
  unfoldable pub trust_as :
      (String → Reply (List String))
      → (List RelayEntry → List RelayEntry)
      → TrustKind
      → Fabric A V
      → Fabric A V × Fetched (Unit {0})
  unfolding ensure_peers and_then update_anchors
  trust_as peers shuffle kind f = and_then (ensure_peers peers f) (update_anchors shuffle kind)

  unfoldable pub bootstrap :
      (String → Reply (List String))
      → (List RelayEntry → List RelayEntry)
      → Fabric A V
      → Fabric A V × Fetched (Unit {0})
  unfolding ensure_peers and_then update_anchors needs_anchors
  bootstrap peers shuffle f =
      and_then (ensure_peers peers f)
        (λ g. if needs_anchors k g then update_anchors shuffle observed g else (g, got tt))

  -- `trust_from_set`: nothing is requested, and anchors that make no verifier are refused, though they
  -- stay in the pool.
  unfoldable pub trust_with : List A → Option V → Fabric A V → Fabric A V × Fetched Bytes
  trust_with entries none f = (f, lost decode_error)
  trust_with entries (some v) f = (
    record f { veritas = v; trusted = some (k.compute_trust_set entries) },
    got (k.compute_trust_set entries).id,
  )

  unfoldable pub trust_from_set : List A → Fabric A V → Fabric A V × Fetched Bytes
  unfolding trust_with merged
  trust_from_set entries f =
      let pool = record (f.anchor_pool) { trusted = entries } in
      trust_with entries (k.with_anchors (merged k pool)) (record f { anchor_pool = pool })

  unfoldable pub gather_peers :
      (String → Reply (List String)) → List String → List String → List String
  unfolding add_urls fetch_peers
  gather_peers peers [] set = set
  gather_peers peers (u ∷ us) set = elim (fetch_peers (peers u)) [
    | got xs ↦ gather_peers peers us (add_urls xs set)
    | lost e ↦ gather_peers peers us set
  ]

  unfoldable pub refresh_peers :
      (String → Reply (List String)) → Fabric A V → Fabric A V × Fetched (Unit {0})
  unfolding gather_peers refresh is_empty
  refresh_peers peers f =
      let pool = refresh (gather_peers peers (urls f.pool) []) f.pool in
      (record f { pool = pool }, if is_empty pool then lost no_peers else got tt)

  unfoldable pub trusted_id : Fabric A V → Option Bytes
  trusted_id f = id_of f.trusted

  unfoldable pub set_semi_trusted_pool : List SemiTrustedRelay → Quorum → Fabric A V → Fabric A V
  set_semi_trusted_pool relays quorum f = record f {
    semi_trust_config = record { relays = relays; quorum = quorum };
  }

-- `parent_zones`: the single-label zones other than the leaf, the last first.
unfoldable pub parent_zones : (String → Bool) → List Zone → String → List Zone
parent_zones is_single_label [] leaf = []
parent_zones is_single_label (z ∷ zs) leaf =
    let rest = parent_zones is_single_label zs leaf in
    if is_single_label z.canonical && not (eqb z.canonical leaf) then rest ++ (z ∷ []) else rest
