-- ===== src/Http/Reads/Outcome.antt =====
-- What `handle_query` of relay/src/http.rs answers, and what it costs.
use certrelay.Prelude.{
  ◌≡◌, ◌≢◌, ap, string_dec_eq, ◌≤◌, ◌<◌, refl, ◌⊎◌, inl, inr, Bool, true, false, Option, none, some,
  List, [], ltb, length, String, arith, Bool-cases,
}
use certrelay.Store.Update.Sequence.{IsSound}
use certrelay.Handler.Resolve.{Query, ResolveError, resolve}
use certrelay.Handler.Resolve.Complete.{Built, resolve-Built}
use certrelay.Peer.Address.{IpAddr}
use certrelay.Retention.{touch_all}
use certrelay.Http.{AppState, Setup, Request, client_ip, is_rate_limited}
use certrelay.Http.Query.{
  requested, is_blank, hint_map, group, queries_of, version_handles, query_etag,
}
use certrelay.Http.Query.Covers.{Covers, group-Covers}
use certrelay.Http.Reads.{
  QueryAnswer, rate_limited, missing_q, too_many_handles, busy, not_modified, unresolved, resolved,
  max_handles, is_current, prove_query, answer_query, read_query, handle_query,
}

blank : (x : String) → is_blank x ≡ true → x ≡ ""
blank x e = ground (arith, e)

filled : (x : String) → is_blank x ≡ false → x ≢ ""
filled x e = λ f. ground (arith, e, ap (λ y. is_blank y) f)

-- The request has no `q`, or an empty one.
abbrev pub IsMissing : Option String → Type 0
IsMissing q = (q ≡ none) ⊎ (q ≡ some "")

resolved-cases :
    {M : Type 0} (x : ResolveError ⊎ M)
    → ((e : ResolveError) × (x ≡ inl e)) ⊎ ((m : M) × (x ≡ inr m))
resolved-cases (inl e) = inl (e, refl)
resolved-cases (inr m) = inr (m, refl)

module _ {L C M P : Type 0} (k : Setup L C M P) where
  -- The version of an answer to the handles.
  abbrev pub etag_for : AppState L C → List String → String
  etag_for s hs = query_etag k.digest s.handler.store (version_handles (group hs []))

  abbrev pub queries_for : Option String → List String → List Query
  queries_for hints hs = queries_of (hint_map k.parse_u32 hints) (group hs [])

  -- An answer for which the budget of proofs was asked.
  abbrev pub Charged : AppState L C → List String → Option String → Bool → QueryAnswer M → Type 0
  Charged s hs hints permit a =
      (a ≡ rate_limited)
      ⊎ ((a ≡ busy) × (permit ≡ false))
      ⊎ ((e : ResolveError) × (a ≡ unresolved e)
          × (resolve k.resolver k.puller.env.codec s.handler.store (queries_for hints hs) ≡ inl e))
      ⊎ ((m : M) × (a ≡ resolved (etag_for s hs) m)
          × Covers (hint_map k.parse_u32 hints) hs
          × Built k.resolver k.puller.env.codec s.handler.store (queries_for hints hs) m)

  -- An answer to at most six handles: the version that the client has, for free, or a proof.
  abbrev pub Read :
      IpAddr
      → AppState L C
      → List String
      → Option String
      → Option String
      → Bool
      → AppState L C × QueryAnswer M
      → Type 0
  Read ip s hs hints inm permit (t, a) =
      ((6 < length hs) × (a ≡ too_many_handles) × (t.proof_limit ≡ s.proof_limit))
      ⊎ ((length hs ≤ 6)
          × (is_current inm (etag_for s hs) ≡ true)
          × (a ≡ not_modified (etag_for s hs))
          × (t.proof_limit ≡ s.proof_limit))
      ⊎ ((length hs ≤ 6)
          × (is_current inm (etag_for s hs) ≡ false)
          × (t.proof_limit ≡ (is_rate_limited k s.proof_limit ip).1)
          × Charged s hs hints permit a)

  prove_query-Charged :
      (ip : IpAddr) (hs : List String) (hints : Option String) (permit : Bool) (s : AppState L C)
      → IsSound s.handler.store
      → Charged s hs hints permit
          (prove_query k ip (etag_for s hs) (queries_for hints hs) permit s).1
  unfolding prove_query
  prove_query-Charged ip hs hints permit s v =
      let answer = resolve k.resolver k.puller.env.codec s.handler.store (queries_for hints hs) in
      elim (Bool-cases (is_rate_limited k s.proof_limit ip).0) [
        | inl b ↦ rw (b, prove_query) (inl refl)
        | inr b ↦ elim (Bool-cases permit) [
          | inr p ↦ rw (b, p, prove_query) (inr (inl (refl, refl)))
          | inl p ↦ elim (resolved-cases answer) [
            | inl (e, f) ↦ rw (b, p, f, prove_query) (inr (inr (inl (e, refl, refl))))
            | inr (m, f) ↦
                let covers = group-Covers (hint_map k.parse_u32 hints) hs in
                let built =
                  resolve-Built k.resolver k.puller.env.codec s.handler.store (queries_for hints hs)
                    m v covers.once f in
                rw (b, p, f, prove_query) (inr (inr (inr (m, refl, covers, built))))
          ]
        ]
      ]

  prove_query_kept :
      (ip : IpAddr) (etag : String) (qs : List Query) (permit : Bool) (s : AppState L C)
      → let t = (prove_query k ip etag qs permit s).0 in
        (t.handler ≡ s.handler)
        × (t.peers ≡ s.peers)
        × (t.proof_limit ≡ (is_rate_limited k s.proof_limit ip).1)
  unfolding prove_query
  prove_query_kept ip etag qs permit s = elim (Bool-cases (is_rate_limited k s.proof_limit ip).0) [
    | inl b ↦ rw (b, prove_query) (refl, refl, refl)
    | inr b ↦ elim (Bool-cases permit) [
      | inl p ↦ rw (b, p, prove_query) (refl, refl, refl)
      | inr p ↦ rw (b, p, prove_query) (refl, refl, refl)
    ]
  ]

  -- What stays, and an answer to the handles.
  abbrev Keeps : AppState L C → AppState L C → Type 0
  Keeps s t = (t.handler ≡ s.handler) × (t.peers ≡ s.peers)

  read_query-Read :
      (ip : IpAddr) (hs : List String) (hints inm : Option String) (permit : Bool)
      (s : AppState L C)
      → IsSound s.handler.store
      → Keeps s (read_query k ip hs hints inm permit s).0
        × Read ip s hs hints inm permit (read_query k ip hs hints inm permit s)
  unfolding read_query answer_query
  read_query-Read ip hs hints inm permit s v =
      let s' : AppState L C = record s { query_heat = touch_all hs s.query_heat } in
      let etag = etag_for s hs in
      let qs = queries_for hints hs in
      elim (Bool-cases (ltb max_handles (length hs))) [
        | inl b ↦ rw (b, read_query) ((refl, refl), inl (ground (arith, b), refl, refl))
        | inr b ↦ elim (Bool-cases (is_current inm etag)) [
          | inl c ↦
              rw (b, c, read_query, answer_query)
                ((refl, refl), inr (inl (ground (arith, b), refl, refl, refl)))
          | inr c ↦
              let (x, y, z) = prove_query_kept ip etag qs permit s' in
              rw (b, c, read_query, answer_query)
                (
                  (x, y),
                  inr (
                      inr
                        (ground (arith, b), refl, z, prove_query-Charged ip hs hints permit s' v)),
                )
        ]
      ]

  pub handle_query-Outcome :
      (r : Request) (q hints inm : Option String) (permit : Bool) (s : AppState L C)
      → IsSound s.handler.store
      → let (t, a) = handle_query k r q hints inm permit s in
        (t.handler ≡ s.handler)
        × (t.peers ≡ s.peers)
        × (((a ≡ rate_limited)
              × ((is_rate_limited k s.read_limit (client_ip k r)).0 ≡ true)
              × (t.proof_limit ≡ s.proof_limit))
            ⊎ ((a ≡ missing_q) × (t.proof_limit ≡ s.proof_limit) × IsMissing q)
            ⊎ ((x : String) × (q ≡ some x)
                × (x ≢ "")
                × Read (client_ip k r) s (requested x) hints inm permit (t, a)))
  unfolding handle_query
  handle_query-Outcome r none hints inm permit s v =
      let c = is_rate_limited k s.read_limit (client_ip k r) in
      elim (Bool-cases c.0) [
        | inl b ↦ rw (b, handle_query) (refl, refl, inl (refl, refl, refl))
        | inr b ↦ rw (b, handle_query) (refl, refl, inr (inl (refl, refl, inl refl)))
      ]
  handle_query-Outcome r (some x) hints inm permit s v =
      let ip = client_ip k r in
      let c = is_rate_limited k s.read_limit ip in
      let s' : AppState L C = record s { read_limit = c.1 } in
      elim (Bool-cases c.0) [
        | inl b ↦ rw (b, handle_query) (refl, refl, inl (refl, refl, refl))
        | inr b ↦ elim (Bool-cases (is_blank x)) [
          | inl e ↦
              rw (b, e, handle_query)
                (refl, refl, inr (inl (refl, refl, inr (ap some (blank x e)))))
          | inr e ↦
              let (w, o) = read_query-Read ip (requested x) hints inm permit s' v in
              rw (b, e, handle_query) (w.0, w.1, inr (inr (x, refl, filled x e, o)))
        ]
      ]
