-- ===== src/Http/Handlers/Keeps.antt =====
-- The handlers of relay/src/http.rs keep the store and the peer table sound.
use certrelay.Prelude.{
  ℕ, Bool, true, false, Option, none, some, [], ltb, length, String, string_dec_eq, arith,
  Bool-cases, inl, inr,
}
use certrelay.Store.Types.{Bytes, BulkStoreResult, Result, ok, err}
use certrelay.Store.Update.Sequence.{IsSound}
use certrelay.Peer.State.Invariant.{Inv}
use certrelay.Peer.Announce.Keeps.{announce-Inv}
use certrelay.Peer.Url.{normalize_url}
use certrelay.Handler.{Handler}
use certrelay.Handler.Message.{handle_message_opts, handle_message_gated}
use certrelay.Handler.Message.Sound.{handle_message_opts-IsSound}
use certrelay.Http.{AppState, Setup, Request, client_ip, is_rate_limited, IsRunning}
use certrelay.Http.Handlers.{
  gated_among, stored_message, verify_and_store, post_message, queue_poke, read_poke, handle_poke,
  read_announcement, handle_announce,
}

module _ {L C M P : Type 0} (k : Setup L C M P) where
  pub stored_message-IsRunning :
      (s : AppState L C) (end : Handler L × Result BulkStoreResult)
      → IsSound end.0.store
      → Inv s.peers
      → IsRunning (stored_message k s end).0
  unfolding stored_message
  stored_message-IsRunning s (h, err e) v w = (v, w)
  stored_message-IsRunning s (h, ok r) v w = (v, w)

  pub verify_and_store-IsRunning :
      (now : ℕ) (permit : Bool) (o : Option M) (s : AppState L C)
      → IsRunning s
      → IsRunning (verify_and_store k now permit o s).0
  unfolding verify_and_store handle_message_gated
  verify_and_store-IsRunning now permit none s v = v
  verify_and_store-IsRunning now false (some msg) s v = v
  verify_and_store-IsRunning now true (some msg) s v =
      elim (Bool-cases (k.puller.builder.runs msg)) [
        | inr b ↦ rw (b, verify_and_store) v
        | inl b ↦
            let gated =
              gated_among k.puller.retention s.handler.store (k.puller.env.ver.spaces msg) [] in
            rw (b, verify_and_store)
              (stored_message-IsRunning s
                (handle_message_opts k.puller.env now msg gated true s.handler)
                (handle_message_opts-IsSound k.puller.env now msg gated true s.handler v.0).0 v.1)
      ]

  pub post_message-IsRunning :
      (now : ℕ) (r : Request) (permit : Bool) (b : Bytes) (s : AppState L C)
      → IsRunning s
      → IsRunning (post_message k now r permit b s).0
  unfolding post_message
  post_message-IsRunning now r permit b s v =
      let c = is_rate_limited k s.message_limit (client_ip k r) in
      let s' : AppState L C = record s { message_limit = c.1 } in
      elim (Bool-cases c.0) [
        | inl x ↦ rw (x, post_message) v
        | inr x ↦ elim (Bool-cases (ltb k.max_message_size (length b))) [
          | inl y ↦ rw (x, y, post_message) v
          | inr y ↦
              rw (x, y, post_message) (verify_and_store-IsRunning now permit (k.from_slice b) s' v)
        ]
      ]

  pub queue_poke-IsRunning :
      (now : ℕ) (url : String) (cursor : ℕ) (s : AppState L C)
      → IsRunning s
      → IsRunning (queue_poke k now url cursor s)
  unfolding queue_poke
  queue_poke-IsRunning now url cursor s v = ground arith

  pub read_poke-IsRunning :
      (now : ℕ) (o : Option (String × Option ℕ)) (s : AppState L C)
      → IsRunning s
      → IsRunning (read_poke k now o s).0
  unfolding read_poke
  read_poke-IsRunning now none s v = v
  read_poke-IsRunning now (some (url, none)) s v = v
  read_poke-IsRunning now (some (url, some cursor)) s v =
      ground (arith, queue_poke-IsRunning now (normalize_url k.as_str url) cursor s v)

  pub handle_poke-IsRunning :
      (now : ℕ) (r : Request) (o : Option (String × Option ℕ)) (s : AppState L C)
      → IsRunning s
      → IsRunning (handle_poke k now r o s).0
  unfolding handle_poke
  handle_poke-IsRunning now r o s v =
      let c = is_rate_limited k s.poke_limit (client_ip k r) in
      let s' : AppState L C = record s { poke_limit = c.1 } in
      ground (arith, read_poke-IsRunning now o s' v)

  pub read_announcement-IsRunning :
      (now : ℕ) (r : Request) (o : Option (String × ℕ)) (s : AppState L C)
      → IsRunning s
      → IsRunning (read_announcement k now r o s).0
  unfolding read_announcement
  read_announcement-IsRunning now r none s v = v
  read_announcement-IsRunning now r (some (url, capabilities)) s v = ground (
    arith,
    announce-Inv k.as_str s.peers
        (record { source_ip = client_ip k r; url = url; capabilities = capabilities }) now v.1,
  )

  pub handle_announce-IsRunning :
      (now : ℕ) (r : Request) (o : Option (String × ℕ)) (s : AppState L C)
      → IsRunning s
      → IsRunning (handle_announce k now r o s).0
  unfolding handle_announce
  handle_announce-IsRunning now r o s v =
      let c = is_rate_limited k s.announce_limit (client_ip k r) in
      let s' : AppState L C = record s { announce_limit = c.1 } in
      ground (arith, read_announcement-IsRunning now r o s' v)
