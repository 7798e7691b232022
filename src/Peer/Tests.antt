-- ===== src/Peer/Tests.antt =====
-- Tests of relay/src/peer.rs and instances of its theorems, over a small table.
use text.Mathlib.TextEquality.{eq_iff}
use certrelay.Prelude.{
  ℕ, ◌≤◌, ◌≡◌, ◌≢◌, refl, not, true, Option, none, some, List, [], ◌∷◌, map, String, string_dec_eq,
  string_discrete, ℕ_discrete, dec_lt, arith,
}
use certrelay.Map.{lookup, contains_key, insert, modify, remove, retain, min_by_key}
use certrelay.Peer.Address.{
  IpAddr, v4, unspecified, ip_dec_eq, ip_discrete, is_unspecified, ip_is_public,
}
use certrelay.Peer.Address.Ranges.{within, number, reserved, ip_is_public_v4}
use certrelay.Peer.Url.{normalize_url}
use certrelay.Peer.Policy.{Url, domain}
use certrelay.Peer.State.{
  PeerConfig, PeerEntry, PeerInfo, PeerTable, new, fresh_entry, is_self, still_unverified,
  evict_unverified, evict_verified,
}
use certrelay.Peer.State.Invariant.{Inv}
use certrelay.Peer.Announce.{announce}
use certrelay.Peer.Announce.Known.{SeenBefore}
use certrelay.Peer.Liveness.{mark_alive, record_sync_failure}
use certrelay.Peer.Liveness.Demotion.{
  HasFailures, IsDemoted, passes, fails, history, history-HasFailures, history-IsDemoted,
  verified-fail_all,
}
use certrelay.Peer.Views.{peers, peers_info, next_candidates}
use certrelay.Peer.Views.Listed.{has, map-url-peers_info}
use certrelay.Peer.Views.Candidates.{next_candidates-oldest}
use certrelay.Peer.Calls.{announces, alive, failed, run, run-Inv}

-- A parser that accepts every text as it is.
abbrev parse : String → Option String
parse s = some s

abbrev config : PeerConfig
config = record {
  max_unverified = 3;
  max_verified = 2;
  verified_ttl = 600;
  unverified_ttl = 259200;
}

normalized : normalize_url parse " https://relay1.com// " ≡ "https://relay1.com"
unfolding normalize_url
normalized = refl

abbrev one : PeerEntry
one = fresh_entry (v4 10 0 0 1) 0 5

abbrev two : PeerEntry
two = fresh_entry (v4 10 0 0 2) 0 7

abbrev table : PeerTable
table = record {
  ip_slots = (v4 10 0 0 1, "a") ∷ (v4 10 0 0 2, "b") ∷ [];
  unverified = ("a", one) ∷ ("b", two) ∷ [];
  verified = ("c", one) ∷ [];
  config = config;
  self_url = some "self";
}

table-Inv : Inv table
unfolding lookup string_discrete ip_discrete ℕ_discrete
table-Inv = record {
  shape = record {
    slots_distinct = (refl, (refl, tt));
    unverified_distinct = (refl, (refl, tt));
    verified_distinct = (refl, tt);
    verified_bound = omega arith;
  };
  total_bound = omega arith;
}

abbrev later : PeerInfo
later = record { source_ip = v4 10 0 0 1; url = "d"; capabilities = 9 }

abbrev unattributed : PeerInfo
unattributed = record { source_ip = unspecified; url = "d"; capabilities = 9 }

table-SeenBefore : SeenBefore 100 table.unverified
unfolding lookup
table-SeenBefore u e h = ground arith

differs : ◌≢◌ {A = String} "a" (normalize_url parse "d")
unfolding normalize_url
differs = ground (arith, eq_iff "a" "d")

result : (announce parse table later 100).1 ≡ still_unverified
unfolding announce is_self lookup normalize_url string_discrete
result = refl

verified_c : HasFailures 0 table (normalize_url parse "c")
unfolding normalize_url lookup string_discrete
verified_c = (one, refl, refl, refl)

history-IsDemoted_example :
    IsDemoted
      (record_sync_failure parse
        (history parse table "c" ((10, fails) ∷ (11, passes) ∷ (12, fails) ∷ []))
        "c"
        13)
      (normalize_url parse "c")
      13
history-IsDemoted_example =
    history-IsDemoted parse "c" table ((10, fails) ∷ (11, passes) ∷ (12, fails) ∷ []) 13 verified_c
      refl

history-HasFailures_example :
    HasFailures 1
      (history parse table "c" ((10, fails) ∷ (11, passes) ∷ []))
      (normalize_url parse "c")
history-HasFailures_example =
    history-HasFailures parse "c" table ((10, fails) ∷ (11, passes) ∷ []) 0 verified_c (omega arith)

-- A peer that announced itself after its TTL, before the maintenance tick, is in both tables.
abbrev both : PeerTable
both = record table { verified = ("a", one) ∷ [] }

verified-fail_all_example :
    (history parse both "a" (map (λ now. (now, fails)) (10 ∷ 11 ∷ 12 ∷ []))).verified
    ≡ both.verified
unfolding normalize_url lookup string_discrete
verified-fail_all_example = verified-fail_all parse "a" both (10 ∷ 11 ∷ 12 ∷ []) one refl

next_candidates-oldest_example :
    (e : PeerEntry) × (lookup "a" table.unverified ≡ some e) × (e.last_seen ≤ two.last_seen)
unfolding next_candidates has lookup string_discrete
next_candidates-oldest_example = next_candidates-oldest table 1 "a" "b" two table-Inv refl refl refl

run-Inv_example :
    Inv (run parse (new config) ((1, announces later) ∷ (2, alive "d") ∷ (3, failed "d") ∷ []))
run-Inv_example =
    run-Inv parse config ((1, announces later) ∷ (2, alive "d") ∷ (3, failed "d") ∷ [])

ip_is_public_v4_example : ip_is_public (v4 100 64 0 1) ≡ not (within (number 100 64 0 1) reserved)
ip_is_public_v4_example =
    ip_is_public_v4 100 64 0 1 (omega arith) (omega arith) (omega arith) (omega arith)

abbrev a_peer : PeerInfo
a_peer = record { source_ip = v4 10 0 0 1; url = "a"; capabilities = 0 }

-- The calls below lead from a new table to one where the URL "a" is in both tables.
abbrev in_both : PeerTable
in_both =
    mark_alive parse
      (announce parse (mark_alive parse (announce parse (new config) a_peer 0).0 "a" 1) a_peer
        700).0
      "a" 701

in_both_lem :
    (contains_key "a" in_both.unverified ≡ true) × (contains_key "a" in_both.verified ≡ true)
unfolding new announce mark_alive normalize_url evict_unverified evict_verified lookup insert modify
    remove retain is_self is_unspecified string_discrete ip_discrete ℕ_discrete dec_lt min_by_key
in_both_lem = (refl, refl)

abbrev relay_url : Url
relay_url = record {
  scheme = "https";
  username = "";
  password = none;
  host = some (domain "relay1.com");
  port_or_known_default = some 443;
}

abbrev read_url : String → Option Url
read_url s = some relay_url

abbrev resolve : String → ℕ → Option (List IpAddr)
resolve name port = some (v4 8 8 8 8 ∷ [])

map-url-peers_info_example : map (λ p. p.url) (peers_info table 100) ≡ peers table 100
map-url-peers_info_example = map-url-peers_info table 100
