-- ===== src/Client/Session.antt =====
-- `query` of fabric/rust/src/client.rs as a whole: the bootstrap, the choice of the relays and the
-- queries in order.
use certrelay.Prelude.{Bool, Option, List, String}
use certrelay.Store.Types.{Bytes}
use certrelay.Client.{Fetched, got, lost, Reply, RelayEntry, Fabric, Anchoring, Net}
use certrelay.Client.Trust.{bootstrap}
use certrelay.Client.Query.{Verifier, Freshness, query_ready}

module _ {A V M R : Type 0} (k : Anchoring A V) (net : Net A) (from_str : String → Option Bytes)
    (v : Verifier V M R) (serve : String → Reply Bytes) (peers : String → Reply (List String)) where
  unfoldable pub query_after :
      (List RelayEntry → List RelayEntry)
      → Freshness
      → List String
      → Bool
      → Fabric A V × Fetched (Unit {0})
      → Fabric A V × Fetched (R × String)
  unfolding query_ready
  query_after shuffle fresh spaces no_cache (f, lost e) = (f, lost e)
  query_after shuffle fresh spaces no_cache (f, got x) =
      query_ready v serve shuffle fresh spaces no_cache f

  -- The random generator is asked twice: by the bootstrap, and for the relays of the query.
  unfoldable pub query :
      (List RelayEntry → List RelayEntry)
      → (List RelayEntry → List RelayEntry)
      → Freshness
      → List String
      → Bool
      → Fabric A V
      → Fabric A V × Fetched (R × String)
  unfolding bootstrap query_after
  query first shuffle fresh spaces no_cache f =
      query_after shuffle fresh spaces no_cache (bootstrap k net from_str peers first f)
