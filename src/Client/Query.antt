-- ===== src/Client/Query.antt =====
-- The queries of fabric/rust/src/client.rs: relays are asked in order, and answers are verified. A
-- relay's answer to the request at hand is a function of its URL.
pub mod Fallback
use Prim.Native.Nat.{◌^◌}
use certrelay.Prelude.{
  ℕ, suc, ◌-◌, Bool, true, false, ◌&&◌, ◌==◌, leb, length, map, Option, none, some, List, [], ◌∷◌,
  ◌++◌, if◌then◌else◌, String, string_dec_eq,
}
use certrelay.Map.{Map, lookup, insert}
use certrelay.Store.Types.{Bytes, Zone}
use certrelay.Client.{
  Error, decode_error, verify_error, no_peers, relay_error, Fetched, got, lost, Reply, unsent,
  garbled, refused, body, RelayEntry, Fabric,
}
use certrelay.Client.Relays.{shuffled_urls_n, mark_failed, mark_alive}

-- libveritas on messages `M` and verified messages `R`.
pub record Verifier (V M R : Type 0) : Type 0 where
  pub from_slice : Bytes → Option M
  pub verify : V → List Zone → Bool → M → Option R
  pub zones : R → List Zone
  pub is_single_label : String → Bool

-- What the answer of one relay leads to: the end of the query with a message, or with an error, or
-- the next relay.
pub data Attempt (R : Type 0) : Type 0 where
  serves : R → Attempt R
  aborts next_relay : Error → Attempt R

-- How fresh the zones of a relay are: what it answers to GET /hints, if that can be read, and the
-- sort of the answers, the freshest first (`sort_by` with the order of `HintsResponse`).
pub record Freshness : Type 1 where
  pub Hints : Type 0
  pub hints : String → Option Hints
  pub sort_by : List (String × Hints) → List (String × Hints)

-- One relay of a batch: its answer is kept, or it is marked as failed.
unfoldable pub rank_relay :
    {H : Type 0}
    → String
    → Option H
    → List (String × H) × List RelayEntry
    → List (String × H) × List RelayEntry
unfolding mark_failed
rank_relay u none (ranked, pool) = (ranked, mark_failed u pool)
rank_relay u (some h) (ranked, pool) = (ranked ++ ((u, h) ∷ []), pool)

-- The batches of `count` relays; `i` have been asked in this one. No batch starts once there are
-- `count` answers.
unfoldable pub rank_from :
    {H : Type 0}
    → (String → Option H)
    → ℕ
    → ℕ
    → List String
    → List (String × H) × List RelayEntry
    → List (String × H) × List RelayEntry
unfolding rank_relay
rank_from hints count i [] r = r
rank_from hints count i (u ∷ us) r =
    if i == 0 && leb count (length r.0)
    then r
    else rank_from hints count (if suc i == count then 0 else suc i) us (rank_relay u (hints u) r)

unfoldable pub pick_relays :
    (List RelayEntry → List RelayEntry)
    → Freshness
    → ℕ
    → List RelayEntry
    → List String × List RelayEntry
unfolding rank_from shuffled_urls_n
pick_relays shuffle fresh count es =
    let (us, pool) = shuffled_urls_n shuffle (2 ^ 64 - 1) es in
    let r = rank_from fresh.hints count 0 us ([], pool) in (map (λ x. x.0) (fresh.sort_by r.0), r.1)

module _ {V M R : Type 0} (k : Verifier V M R) (serve : String → Reply Bytes) where
  unfoldable pub check : Option R → Attempt R
  check none = next_relay verify_error
  check (some r) = serves r

  unfoldable pub read_body : V → List Zone → Bool → Option M → Attempt R
  unfolding check
  read_body v ctx dev_mode none = aborts decode_error
  read_body v ctx dev_mode (some m) = check (k.verify v ctx dev_mode m)

  unfoldable pub attempt : V → List Zone → Bool → Reply Bytes → Attempt R
  unfolding read_body
  attempt v ctx dev_mode unsent = next_relay decode_error
  attempt v ctx dev_mode (refused status) = next_relay (relay_error status)
  attempt v ctx dev_mode garbled = next_relay decode_error
  attempt v ctx dev_mode (body b) = read_body v ctx dev_mode (k.from_slice b)

  -- The loop over the relays; the pool keeps count of the failures.
  unfoldable pub send_from :
      V
      → List Zone
      → Bool
      → Error
      → List String
      → List RelayEntry
      → List RelayEntry × Fetched (R × String)
  unfolding attempt mark_failed mark_alive
  send_from v ctx dev_mode last [] pool = (pool, lost last)
  send_from v ctx dev_mode last (u ∷ us) pool = elim (attempt v ctx dev_mode (serve u)) [
    | serves r ↦ (mark_alive u pool, got (r, u))
    | aborts e ↦ (pool, lost e)
    | next_relay e ↦ send_from v ctx dev_mode e us (mark_failed u pool)
  ]

  unfoldable pub send_query :
      {A : Type 0} → List Zone → List String → Fabric A V → List RelayEntry × Fetched (R × String)
  unfolding send_from
  send_query ctx relays f = send_from f.veritas ctx f.dev_mode no_peers relays f.pool

  -- The cached zones of the spaces that are asked for.
  unfoldable pub cached : List String → Map String Zone → List Zone
  cached [] m = []
  cached (s ∷ ss) m = elim (lookup s m) [ none ↦ cached ss m | some z ↦ z ∷ cached ss m ]

  unfoldable pub cache_roots : List Zone → Map String Zone → Map String Zone
  cache_roots [] m = m
  cache_roots (z ∷ zs) m =
      cache_roots zs (if k.is_single_label z.canonical then insert z.canonical z m else m)

  module _ {A : Type 0} where
    unfoldable pub remember :
        Bool
        → List RelayEntry × Fetched (R × String)
        → Fabric A V
        → Fabric A V × Fetched (R × String)
    unfolding cache_roots
    remember no_cache (pool, lost e) f = (record f { pool = pool }, lost e)
    remember no_cache (pool, got (r, u)) f = (
      record f {
        pool = pool;
        root_cache = if no_cache then f.root_cache else cache_roots (k.zones r) f.root_cache;
      },
      got (r, u),
    )

    -- The relays to ask, and the pool that the choice leaves.
    unfoldable pub choose_relays :
        (List RelayEntry → List RelayEntry) → Freshness → Fabric A V → List String × List RelayEntry
    unfolding shuffled_urls_n pick_relays
    choose_relays shuffle fresh f =
        if f.prefer_latest
        then pick_relays shuffle fresh 4 f.pool
        else shuffled_urls_n shuffle 4 f.pool

    -- `query`, once the client is bootstrapped.
    unfoldable pub query_ready :
        (List RelayEntry → List RelayEntry)
        → Freshness
        → List String
        → Bool
        → Fabric A V
        → Fabric A V × Fetched (R × String)
    unfolding cached send_query remember choose_relays
    query_ready shuffle fresh spaces no_cache f =
        let ctx = if no_cache then [] else cached spaces f.root_cache in
        let (relays, pool) = choose_relays shuffle fresh f in
        let f' = record f { pool = pool } in remember no_cache (send_query ctx relays f') f'

-- `prove`: the first relay that answers; reading its answer can still fail.
module _ (serve : String → Reply Bytes) where
  unfoldable pub prove_from :
      Error → List String → List RelayEntry → List RelayEntry × Fetched Bytes
  unfolding mark_failed mark_alive
  prove_from last [] pool = (pool, lost last)
  prove_from last (u ∷ us) pool = elim (serve u) [
    | unsent ↦ prove_from decode_error us (mark_failed u pool)
    | garbled ↦ (mark_alive u pool, lost decode_error)
    | refused status ↦ prove_from (relay_error status) us (mark_failed u pool)
    | body b ↦ (mark_alive u pool, got b)
  ]

  -- `broadcast`: every relay is sent the message, and one that accepts it is enough.
  unfoldable pub broadcast_from : Bool → Error → List String → Fetched Bool
  broadcast_from any_ok last [] = if any_ok then got true else lost last
  broadcast_from any_ok last (u ∷ us) = elim (serve u) [
    | unsent ↦ broadcast_from any_ok decode_error us
    | garbled ↦ broadcast_from true last us
    | refused status ↦ broadcast_from any_ok (relay_error status) us
    | body b ↦ broadcast_from true last us
  ]

  unfoldable pub broadcast : List String → Fetched Bool
  unfolding broadcast_from
  broadcast [] = lost no_peers
  broadcast (u ∷ us) = broadcast_from false no_peers (u ∷ us)
