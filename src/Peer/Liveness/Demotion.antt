-- ===== src/Peer/Liveness/Demotion.antt =====
-- The sync failures of a verified peer: three in a row demote it, a health check does not stop
-- that, and an entry of the same URL among the unverified peers does.
use certrelay.Prelude.{
  ℕ, suc, ◌+◌, ◌<◌, ◌≡◌, refl, map, Option, none, some, List, [], ◌∷◌, String, string_dec_eq, arith,
}
use certrelay.Map.{lookup}
use certrelay.Map.Laws.{lookup-modify, lookup-insert, lookup-remove}
use certrelay.Peer.Url.{normalize_url}
use certrelay.Peer.State.{PeerEntry, PeerTable, sync_failures_before_demote}
use certrelay.Peer.Liveness.{
  demoted, failed, alive_url, mark_alive, clear_failures, mark_synced, count_failure, failure_url,
  record_sync_failure,
}

-- The URL is verified with this many failures, and not among the unverified peers.
abbrev pub HasFailures : ℕ → PeerTable → String → Type 0
HasFailures k t url =
    (e : PeerEntry) × (lookup url t.verified ≡ some e)
    × (e.sync_failures ≡ k)
    × (lookup url t.unverified ≡ none)

-- The URL is among the unverified peers only, with its failures forgotten.
abbrev pub IsDemoted : PeerTable → String → ℕ → Type 0
IsDemoted t url now =
    (e : PeerEntry) × (lookup url t.unverified ≡ some e)
    × (e.sync_failures ≡ 0)
    × (e.added ≡ now)
    × (lookup url t.verified ≡ none)

failure_url-counts :
    (t : PeerTable) (url : String) (now k : ℕ)
    → HasFailures k t url
    → k + 1 < sync_failures_before_demote
    → HasFailures (k + 1) (failure_url t url now) url
unfolding failure_url count_failure
failure_url-counts t url now k (e, held, n, absent) few =
    (failed e, ground (arith, lookup-modify url url failed t.verified), omega arith, ground arith)

failure_url-demotes :
    (t : PeerTable) (url : String) (now k : ℕ)
    → HasFailures k t url
    → k + 1 ≡ sync_failures_before_demote
    → IsDemoted (failure_url t url now) url now
unfolding failure_url count_failure
failure_url-demotes t url now k (e, held, n, absent) last = (
  demoted now (failed e),
  ground (arith, lookup-insert url url (demoted now (failed e)) t.unverified),
  refl,
  refl,
  ground (arith, lookup-remove url url t.verified),
)

alive_url-HasFailures :
    (t : PeerTable) (url : String) (now k : ℕ)
    → HasFailures k t url
    → HasFailures k (alive_url t url now) url
unfolding alive_url
alive_url-HasFailures t url now k (e, held, n, absent) =
    let seen : PeerEntry → PeerEntry = λ v. record v { last_seen = now } in
    (seen e, ground (arith, lookup-modify url url seen t.verified), n, ground arith)

-- What happens to a verified peer: a health check that it passes, or a sync that fails.
pub data Event : Type 0 where
  passes fails : Event

unfoldable pub history :
    (String → Option String) → PeerTable → String → List (ℕ × Event) → PeerTable
history parse t url [] = t
history parse t url ((now, passes) ∷ es) = history parse (mark_alive parse t url now) url es
history parse t url ((now, fails) ∷ es) = history parse (record_sync_failure parse t url now) url es

abbrev pub failures : List (ℕ × Event) → ℕ
failures [] = 0
failures ((_, passes) ∷ es) = failures es
failures ((_, fails) ∷ es) = suc (failures es)

module _ (parse : String → Option String) (url : String) where
  -- Fewer failures than demote a peer are counted, health checks in between or not.
  pub history-HasFailures :
      (t : PeerTable) (es : List (ℕ × Event)) (k : ℕ)
      → HasFailures k t (normalize_url parse url)
      → failures es + k < sync_failures_before_demote
      → HasFailures (failures es + k) (history parse t url es) (normalize_url parse url)
  unfolding history mark_alive record_sync_failure
  history-HasFailures t [] k h few = rw (let e : 0 + k ≡ k = omega arith in e) h
  history-HasFailures t ((now, passes) ∷ es) k h few =
      history-HasFailures (mark_alive parse t url now) es k
        (alive_url-HasFailures t (normalize_url parse url) now k h) few
  history-HasFailures t ((now, fails) ∷ es) k h few =
      let counted = failure_url-counts t (normalize_url parse url) now k h (omega arith) in
      rw (let e : suc (failures es) + k ≡ failures es + (k + 1) = omega arith in e)
        (history-HasFailures (record_sync_failure parse t url now) es (k + 1) counted (omega arith))

  -- The third failure in a row demotes a verified peer that had none before and whose URL is not among
  -- the unverified peers, however many health checks it passed in between.
  pub history-IsDemoted :
      (t : PeerTable) (es : List (ℕ × Event)) (now : ℕ)
      → HasFailures 0 t (normalize_url parse url)
      → failures es ≡ 2
      → IsDemoted
          (record_sync_failure parse (history parse t url es) url now)
          (normalize_url parse url)
          now
  unfolding record_sync_failure
  history-IsDemoted t es now h two =
      failure_url-demotes (history parse t url es) (normalize_url parse url) now (failures es + 0)
        (history-HasFailures t es 0 h (omega arith)) (omega arith)

  -- A sync that succeeds forgets the failures of a verified peer.
  pub mark_synced-HasFailures :
      (t : PeerTable) (now k : ℕ)
      → HasFailures k t (normalize_url parse url)
      → HasFailures 0 (mark_synced parse t url now) (normalize_url parse url)
  unfolding mark_synced clear_failures mark_alive
  mark_synced-HasFailures t now k h =
      let u = normalize_url parse url in
      let (e, held, _, absent) = alive_url-HasFailures t u now k h in
      let cleared : PeerEntry → PeerEntry = λ v. record v { sync_failures = 0 } in
      (
        cleared e,
        ground (arith, lookup-modify u u cleared (alive_url t u now).verified),
        refl,
        absent,
      )

  -- A URL that has an unverified entry beside its verified one is never demoted: no number of
  -- failures changes the verified peers.
  pub verified-fail_all :
      (t : PeerTable) (times : List ℕ) (e : PeerEntry)
      → lookup (normalize_url parse url) t.unverified ≡ some e
      → (history parse t url (map (λ now. (now, fails)) times)).verified ≡ t.verified
  unfolding history record_sync_failure failure_url
  verified-fail_all t [] e h = refl
  verified-fail_all t (now ∷ times) e h =
      let u = normalize_url parse url in
      let seen : PeerEntry → PeerEntry = λ v. record v { last_seen = now } in
      ground (
        arith,
        lookup-modify u u seen t.unverified,
        verified-fail_all (failure_url t u now) times (seen e),
      )
