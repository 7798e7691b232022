-- ===== src/Http/Handlers.antt =====
-- The handlers of relay/src/http.rs for messages, pokes, announcements, peers and pages.
pub mod Keeps
pub mod Poke
use Prim.Native.Nat.{min, max}
use certrelay.Prelude.{
  ℕ, ◌+◌, ◌*◌, Bool, true, false, not, ◌&&◌, ◌||◌, ◌==◌, Option, none, some, List, [], ◌∷◌, ◌++◌,
  ltb, leb, eqb, if◌then◌else◌, length, String, string_dec_eq,
}
use certrelay.Store.Types.{Bytes, BulkStoreResult, StoreError, Result, ok, err}
use certrelay.Store.State.{Store}
use certrelay.Store.Pages.{contains, get_watermark, SyncPage, sync_page, SyncSummary, sync_summary}
use certrelay.Retention.{RetentionConfig, first_insert_gated}
use certrelay.Peer.Url.{normalize_url}
use certrelay.Peer.Policy.{Checked, UrlError, validate_peer_url, is_ok}
use certrelay.Peer.State.{PeerInfo}
use certrelay.Peer.Announce.{announce}
use certrelay.Peer.Views.{is_verified, peers_info}
use certrelay.Handler.{Handler}
use certrelay.Handler.Message.{handle_message_gated}
use certrelay.Http.{
  AppState, Setup, Request, Status, accepted, too_many_requests, bad_request, payload_too_large,
  service_unavailable, internal_error, client_ip, is_rate_limited,
}

-- The loop over the spaces of a message.
unfoldable pub gated_among : RetentionConfig → Store → List String → List String → List String
gated_among c s [] gated = gated
gated_among c s (x ∷ xs) gated =
    gated_among c s xs
      (if not (contains gated x) && first_insert_gated c x s then gated ++ (x ∷ []) else gated)

-- A cursor at or behind the watermark brings nothing new.
abbrev pub is_behind : Option ℕ → ℕ → Bool
is_behind none cursor = false
is_behind (some w) cursor = leb cursor w

abbrev pub max_sync_page_rows : ℕ
max_sync_page_rows = 1000

abbrev pub max_sync_page_bytes : ℕ
max_sync_page_bytes = 2 * 1024 * 1024

-- `clamp(1, MAX_SYNC_PAGE_ROWS)`.
unfoldable pub clamped : Option ℕ → ℕ
clamped none = max_sync_page_rows
clamped (some n) = max 1 (min n max_sync_page_rows)

-- The cursor is absent, no number, or a number; a limit that is no number is absent.
unfoldable pub page_for : Option (Option ℕ) → Option ℕ → Store → Option SyncPage
unfolding clamped
page_for none limit s = some (sync_page none (clamped limit) max_sync_page_bytes s)
page_for (some none) limit s = none
page_for (some (some c)) limit s = some (sync_page (some c) (clamped limit) max_sync_page_bytes s)

module _ {L C M P : Type 0} (k : Setup L C M P) where
  unfoldable pub stored_message :
      AppState L C → Handler L × Result BulkStoreResult → AppState L C × Status
  stored_message s (h, err e) = (record s { handler = h }, bad_request)
  stored_message s (h, ok r) =
      (record s { handler = h; poke_dirty = s.poke_dirty || ltb 0 r.stored }, accepted)

  -- `permit` says whether the semaphore of verifications has room.
  unfoldable pub verify_and_store : ℕ → Bool → Option M → AppState L C → AppState L C × Status
  unfolding gated_among stored_message
  verify_and_store now permit none s = (s, bad_request)
  verify_and_store now permit (some msg) s =
      if not permit
      then (s, service_unavailable)
      else (if k.puller.builder.runs msg
          then stored_message s (
              handle_message_gated k.puller.env now msg
                (gated_among k.puller.retention s.handler.store (k.puller.env.ver.spaces msg) [])
                s.handler)
          else (s, internal_error))

  unfoldable pub post_message : ℕ → Request → Bool → Bytes → AppState L C → AppState L C × Status
  unfolding is_rate_limited client_ip verify_and_store
  post_message now r permit body s =
      let (limited, c) = is_rate_limited k s.message_limit (client_ip k r) in
      let s' = record s { message_limit = c } in
      if limited
      then (s', too_many_requests)
      else (if ltb k.max_message_size (length body)
          then (s', payload_too_large)
          else verify_and_store now permit (k.from_slice body) s')

  -- `url` is normalized, and it is queued when the peer is verified and ahead.
  unfoldable pub queue_poke : ℕ → String → ℕ → AppState L C → AppState L C
  queue_poke now url cursor s =
      if is_verified k.as_str s.peers url now
        && not (is_behind (get_watermark url s.handler.store) cursor)
      then record s { poke_queue = s.poke_queue ++ (url ∷ []) }
      else s

  unfoldable pub read_poke : ℕ → Option (String × Option ℕ) → AppState L C → AppState L C × Status
  unfolding queue_poke
  read_poke now none s = (s, bad_request)
  read_poke now (some (url, none)) s = (s, bad_request)
  read_poke now (some (url, some cursor)) s =
      if ltb 256 (k.url_len url)
      then (s, bad_request)
      else (queue_poke now (normalize_url k.as_str url) cursor s, accepted)

  -- A poke that can be decoded has a URL and a cursor, which may be no number.
  unfoldable pub handle_poke :
      ℕ → Request → Option (String × Option ℕ) → AppState L C → AppState L C × Status
  unfolding is_rate_limited client_ip read_poke
  handle_poke now r poke s =
      let (limited, c) = is_rate_limited k s.poke_limit (client_ip k r) in
      let s' = record s { poke_limit = c } in
      if limited then (s', too_many_requests) else read_poke now poke s'

  unfoldable pub read_announcement :
      ℕ → Request → Option (String × ℕ) → AppState L C → AppState L C × Status
  unfolding client_ip
  read_announcement now r none s = (s, bad_request)
  read_announcement now r (some (url, capabilities)) s =
      if k.url_len url == 0
        || ltb 256 (k.url_len url)
        || not (is_ok (validate_peer_url k.parse_url url k.allow_private_peers))
      then (s, bad_request)
      else (
        record s {
          peers =
              (announce k.as_str s.peers
                (record { source_ip = client_ip k r; url = url; capabilities = capabilities })
                now).0;
        },
        accepted,
      )

  unfoldable pub handle_announce :
      ℕ → Request → Option (String × ℕ) → AppState L C → AppState L C × Status
  unfolding is_rate_limited client_ip read_announcement
  handle_announce now r a s =
      let (limited, c) = is_rate_limited k s.announce_limit (client_ip k r) in
      let s' = record s { announce_limit = c } in
      if limited then (s', too_many_requests) else read_announcement now r a s'

  unfoldable pub handle_peers : ℕ → Request → AppState L C → AppState L C × Option (List PeerInfo)
  unfolding is_rate_limited client_ip
  handle_peers now r s =
      let (limited, c) = is_rate_limited k s.read_limit (client_ip k r) in
      (record s { read_limit = c }, if limited then none else some (peers_info s.peers now))

  unfoldable pub handle_sync :
      Request → Option (Option ℕ) → Option ℕ → AppState L C → AppState L C × Option SyncPage
  unfolding is_rate_limited client_ip page_for
  handle_sync r cursor limit s =
      let (limited, c) = is_rate_limited k s.sync_limit (client_ip k r) in
      (record s { sync_limit = c }, if limited then none else page_for cursor limit s.handler.store)

  unfoldable pub handle_sync_summary : Request → AppState L C → AppState L C × Option SyncSummary
  unfolding is_rate_limited client_ip
  handle_sync_summary r s =
      let (limited, c) = is_rate_limited k s.sync_limit (client_ip k r) in
      (record s { sync_limit = c }, if limited then none else some (sync_summary s.handler.store))
