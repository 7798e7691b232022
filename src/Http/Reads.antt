-- ===== src/Http/Reads.antt =====
-- The handlers of relay/src/http.rs that read: queries, anchors, hints, reverse records and addresses.
pub mod Peek
pub mod Outcome
use certrelay.Prelude.{
  ℕ, Bool, true, false, not, ◌⊎◌, inl, inr, Option, none, some, List, [], ◌∷◌, map, ltb,
  if◌then◌else◌, length, String,
}
use certrelay.Map.{Map}
use certrelay.Store.Types.{Bytes}
use certrelay.Store.Rows.{get_revs, get_addrs}
use certrelay.Retention.{touch_all}
use certrelay.Hints.{HintsResponse}
use certrelay.Handler.{EpochHint}
use certrelay.Handler.Hints.{hints}
use certrelay.Handler.Resolve.{Query, ResolveError, resolve}
use certrelay.Anchors.Serve.{AnchorHeaders, anchor_headers, Anchored, anchors_for}
use certrelay.Peer.Address.{IpAddr}
use certrelay.Http.{AppState, Setup, Request, client_ip, is_rate_limited}
use certrelay.Http.Query.{
  requested, is_blank, hint_map, group, queries_of, version_handles, query_etag, etag_matches,
}

-- An answer to a query: the message under its version, or why there is none.
pub data QueryAnswer (M : Type 0) : Type 0 where
  rate_limited missing_q too_many_handles busy : QueryAnswer M
  not_modified : String → QueryAnswer M
  unresolved : ResolveError → QueryAnswer M
  resolved : String → M → QueryAnswer M

abbrev pub max_handles : ℕ
max_handles = 6

-- `if-none-match`, when the request has it.
abbrev pub is_current : Option String → String → Bool
is_current none etag = false
is_current (some t) etag = etag_matches t etag

abbrev pub answer_of : {M : Type 0} → String → ResolveError ⊎ M → QueryAnswer M
answer_of etag (inl e) = unresolved e
answer_of etag (inr m) = resolved etag m

-- What a chain proof is asked for.
pub record ChainProofRequest : Type 0 where
  pub spaces : List Bytes
  pub nums : List Bytes

-- The proof of the node, or why there is none.
pub data ProofAnswer : Type 0 where
  proof_limited malformed too_many_spaces too_many_nums no_room no_proof : ProofAnswer
  proof : Bytes → ProofAnswer

abbrev pub proof_or : Option Bytes → ProofAnswer
proof_or none = no_proof
proof_or (some b) = proof b

unfoldable pub chain_proof :
    (ChainProofRequest → Option Bytes) → Bool → Option ChainProofRequest → ProofAnswer
chain_proof prove permit none = malformed
chain_proof prove permit (some r) =
    if ltb 6 (length r.spaces)
    then too_many_spaces
    else (if ltb 20 (length r.nums)
        then too_many_nums
        else (if permit then proof_or (prove r) else no_room))

-- The response of `/hints`.
pub data HintsAnswer : Type 0 where
  hints_limited hints_missing_q hints_too_many : HintsAnswer
  duplicate_handle : String → HintsAnswer
  hinted : HintsResponse → HintsAnswer

abbrev pub hinted_or : String ⊎ HintsResponse → HintsAnswer
hinted_or (inl h) = duplicate_handle h
hinted_or (inr r) = hinted r

-- A list or a pair of lookups: over the limit, a parameter that is missing, too many of them, or what is
-- found.
pub data Found (A : Type 0) : Type 0 where
  over_limit missing_parameter too_many : Found A
  looked_up : A → Found A

module _ {L C M P : Type 0} (k : Setup L C M P) where
  -- `permit` says whether the semaphore of proofs has room.
  unfoldable pub prove_query :
      IpAddr → String → List Query → Bool → AppState L C → AppState L C × QueryAnswer M
  unfolding is_rate_limited resolve
  prove_query ip etag queries permit s =
      let (limited, c) = is_rate_limited k s.proof_limit ip in
      let s' = record s { proof_limit = c } in
      if limited
      then (s', rate_limited)
      else (if permit
          then (s', answer_of etag (resolve k.resolver k.puller.env.codec s.handler.store queries))
          else (s', busy))

  unfoldable pub answer_query :
      IpAddr
      → Map String EpochHint
      → Map String (List String)
      → Option String
      → Bool
      → AppState L C
      → AppState L C × QueryAnswer M
  unfolding prove_query queries_of version_handles query_etag etag_matches
  answer_query ip hints by_space if_none_match permit s =
      let etag = query_etag k.digest s.handler.store (version_handles by_space) in
      if is_current if_none_match etag
      then (s, not_modified etag)
      else prove_query ip etag (queries_of hints by_space) permit s

  unfoldable pub read_query :
      IpAddr
      → List String
      → Option String
      → Option String
      → Bool
      → AppState L C
      → AppState L C × QueryAnswer M
  unfolding touch_all answer_query hint_map group
  read_query ip handles hints if_none_match permit s =
      let s' = record s { query_heat = touch_all handles s.query_heat } in
      if ltb max_handles (length handles)
      then (s', too_many_handles)
      else answer_query ip (hint_map k.parse_u32 hints) (group handles []) if_none_match permit s'

  abbrev pub query_or_missing :
      IpAddr
      → Option String
      → Option String
      → Option String
      → Bool
      → AppState L C
      → AppState L C × QueryAnswer M
  query_or_missing ip none hints if_none_match permit s = (s, missing_q)
  query_or_missing ip (some q) hints if_none_match permit s =
      if is_blank q
      then (s, missing_q)
      else read_query ip (requested q) hints if_none_match permit s

  unfoldable pub handle_query :
      Request
      → Option String
      → Option String
      → Option String
      → Bool
      → AppState L C
      → AppState L C × QueryAnswer M
  unfolding client_ip read_query requested
  handle_query r q hints if_none_match permit s =
      let ip = client_ip k r in
      let (limited, c) = is_rate_limited k s.read_limit ip in
      let s' = record s { read_limit = c } in
      if limited then (s', rate_limited) else query_or_missing ip q hints if_none_match permit s'

  unfoldable pub handle_anchors :
      Request → Option String → AppState L C → AppState L C × Option (AnchorHeaders × Anchored)
  unfolding client_ip is_rate_limited anchor_headers anchors_for
  handle_anchors r root s =
      let (limited, c) = is_rate_limited k s.read_limit (client_ip k r) in
      (
        record s { read_limit = c },
        if limited
            then none
            else some (
              anchor_headers k.compute_trust_set k.digest.hex_encode k.identity s.serving,
              anchors_for k.hex_decode root s.serving.anchor_store,
            ),
      )

  abbrev pub hints_for : Option String → AppState L C → HintsAnswer
  hints_for none s = hints_missing_q
  hints_for (some q) s =
      if is_blank q
      then hints_missing_q
      else (if ltb max_handles (length (requested q))
          then hints_too_many
          else hinted_or (hints s.newest_anchor (requested q) s.handler.store))

  unfoldable pub handle_hints : Request → Option String → AppState L C → AppState L C × HintsAnswer
  unfolding client_ip is_rate_limited requested hints
  handle_hints r q s =
      let (limited, c) = is_rate_limited k s.read_limit (client_ip k r) in
      (record s { read_limit = c }, if limited then hints_limited else hints_for q s)

  abbrev pub revs_for : Option String → AppState L C → Found (Map String String)
  revs_for none s = missing_parameter
  revs_for (some ids) s =
      if is_blank ids
      then missing_parameter
      else (if ltb 20 (length (requested ids))
          then too_many
          else looked_up (get_revs (requested ids) s.handler.store))

  unfoldable pub handle_reverse :
      Request → Option String → AppState L C → AppState L C × Found (Map String String)
  unfolding client_ip is_rate_limited requested get_revs
  handle_reverse r ids s =
      let (limited, c) = is_rate_limited k s.read_limit (client_ip k r) in
      (record s { read_limit = c }, if limited then over_limit else revs_for ids s)

  abbrev pub addrs_for :
      Option String → Option String → AppState L C → Found (List (String × String))
  addrs_for none address s = missing_parameter
  addrs_for (some name) none s = missing_parameter
  addrs_for (some name) (some address) s =
      if is_blank name
      then missing_parameter
      else (if is_blank address
          then missing_parameter
          else looked_up (get_addrs name address s.handler.store))

  unfoldable pub handle_addrs :
      Request
      → Option String
      → Option String
      → AppState L C
      → AppState L C × Found (List (String × String))
  unfolding client_ip is_rate_limited get_addrs
  handle_addrs r name address s =
      let (limited, c) = is_rate_limited k s.read_limit (client_ip k r) in
      (record s { read_limit = c }, if limited then over_limit else addrs_for name address s)

  -- `prove` is the node's, and the request is what the body parses to.
  unfoldable pub handle_chain_proof :
      (ChainProofRequest → Option Bytes)
      → Request
      → Bool
      → Option ChainProofRequest
      → AppState L C
      → AppState L C × ProofAnswer
  unfolding client_ip is_rate_limited chain_proof
  handle_chain_proof prove r permit request s =
      let (limited, c) = is_rate_limited k s.proof_limit (client_ip k r) in
      (
        record s { proof_limit = c },
        if limited then proof_limited else chain_proof prove permit request,
      )
