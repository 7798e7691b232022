-- ===== src/Lib.antt =====
-- The relay of certrelay and its client library: the peer table, the storage, the retention, the
-- message handler with its answers, the synchronization, the HTTP handlers, the anchors, the hints, and
-- the anchors and queries of the client, as functions on explicit states, with theorems about them.
--
-- The program is a relay that stores certificates and zones of handles, serves them to clients, and
-- pulls them from other relays. Paths below are from the repository's root.
--
-- Prelude, Map: Boolean tests, lists and decided equality over the native numbers; the hash maps
-- of the program as association lists, whose order stands for the unspecified iteration order.
-- Peer: relay/src/peer.rs. Peer/Address is `ip_is_public`, Peer/Policy is `validate_peer_url` and
-- `peer_addr_allowed`, Peer/Url is `normalize_url`. Peer/State is `PeerTable` with its loops
-- `while len > max { remove the oldest }`; the fuel of these loops is the number of entries, and
-- each round removes one. Peer/Announce is `announce`, `ensure_seed` and `set_self_url`,
-- Peer/Liveness is `mark_alive`, `mark_synced`, `remove`, `record_sync_failure`,
-- `expire_unverified` and `demote_expired`, Peer/Views is what callers read, and Peer/Calls is the
-- table under any sequence of calls. A call reads the clock once and takes the reading as its
-- argument `now`; `needs_peers`, which reads it once for each entry, takes a sequence of readings.
-- The url crate is a parameter, and so is the resolver, with the answer that it gives at the check; a
-- later connection resolves the name again, which is not modelled.
--
-- Store: relay/src/store.rs. Store/Types is the data, Store/State the tables with the triggers
-- `handles_count_insert` and `handles_count_delete`, Store/Update is `update_handles` from the
-- serialization to the INSERT, Store/Pages is `sync_page` with `SyncRecord::space_name` of
-- fabric/rust/src/lib.rs, and the summary and the watermarks. A table is a map by its key; a
-- subquery of an INSERT reads the table before the statement. Counters are natural numbers, which
-- the accounting shows to be exact, and cursors are the numbers that the program prints. The loop
-- that shrinks a page has the number of rows as its fuel, since each round drops a row. borsh, sha2
-- and `Zone::is_better_than` are the fields of `Codec`, a parameter, and so is whether SQLite runs the
-- statements of `update_handles` and of the index writes after it (`sql_runs`). The other statements
-- are taken to run. A failed operation of the store returns an error in place of a state, since its
-- transaction is not committed. The cursor of a page is below 2^63, where the program's cast to an i64
-- keeps it. Store/Delete is
-- `delete_handles`, and Store/Rows the readers of zones, handles, hints, reverse names and addresses,
-- with `set_revs` and `set_addrs`.
-- Retention: relay/src/retention.rs, `QueryHeat` and `first_insert_gated`, with `storage_totals`,
-- `space_usage` and `eviction_candidates` of relay/src/store.rs. A HashSet is a list without
-- repetitions. Retention/Sweep is `sweep`, with `space_usage_all`; the loop runs over the batches that
-- the configuration allows, and the comparison of floating-point ratios is a parameter.
--
-- Handler: relay/src/handler.rs. Handler/Pass is the closure that `handle_message_opts` runs on each
-- certificate, with what it reads (`Batch`) and what it changes (`Pass`); Handler/Message is the
-- method and its two short forms. governor and libveritas are the parameters `Governor` and
-- `Veritas`. A message reads the clock once. When an index write fails, the message ends with an error, and
-- the rows that were committed before stay.
-- Handler/Hints is `hints`, with the order of strings in Handler/Strings, and Handler/Resolve is
-- `resolve`, which puts the certificates of a message together; the names and the building of a message
-- are libveritas's (`Resolver`).
-- Hints: the hints of fabric/rust/src/lib.rs and their order. A score is kept as the points of both
-- sides in place of their difference.
-- Anchors: fabric/rust/src/anchor.rs, and in Anchors/Serve relay/src/identity.rs with `refresh_anchors`
-- of relay/src/app.rs and the answer of `handle_anchors`. secp256k1 and `compute_trust_set` are
-- parameters.
-- Sync: relay/src/sync.rs. Sync/Ingest is `ingest_sync_records`, Sync/Pull is `sync_with_peer`. The
-- builder of messages with the prover is the parameter `Builder`, and the other relay is a function
-- that answers each round of requests (`Peer`). Cursors are parsed already. The loop runs over the
-- pages that the configuration allows, and the loop over the groups of a batch takes the spaces in the
-- order in which they first appear.
-- Http: relay/src/http.rs. Http.antt is `AppState` with the address of a request and its limits,
-- Http/Handlers the handlers for messages, pokes, announcements, peers, pages and summaries, Http/Peers
-- `peer_client`, `bootstrap_from` and the loops of relay/src/sync.rs that call `sync_with_peer` and
-- maintain the peer table, Http/Query what `handle_query` reads and its version, Http/Reads the handlers
-- that read, with `handle_peek` in Http/Reads/Peek, and Http/Events the relay under any sequence of
-- events. A handler runs as one step, also where the program lets another task in between; the counters of the statistics are left
-- out. Header values and addresses are parsed by parameters.
--
-- Client: fabric/rust/src/client.rs. Client/Relays is `RelayPool`, Client/Anchors the anchors of the
-- three sources, their merge, the fetch of a set and the badges, Client/Votes the signed heads,
-- `refresh_semi_trusted` and `fetch_latest_trust_id`, Client/Trust the changes of the trusted sets and
-- of the pool, Client/Query `pick_relays`, `send_query`, `prove` and `broadcast`, and Client/Session
-- `query`. What the network answers, the order of hints, what the random generator does to the pool,
-- libveritas and spaces_nums are parameters there; errors have no texts.
--
-- Not modelled: the health check, the statistics and the version header, nested lookups and exports of
-- the client, which are loops over libveritas's `Lookup`, the key file and the signing of records, the
-- command line, startup and settings, the SQL engine but for the failures of the
-- statements above, and the libraries libveritas, governor, reqwest and tokio.
pub mod Prelude
pub mod Map
pub mod Peer
pub mod Anchors
pub mod Client
pub mod Handler
pub mod Hints
pub mod Http
pub mod Retention
pub mod Store
pub mod Sync
