-- ===== src/Http/Handlers/Poke.antt =====
-- What a poke can do to a relay (`handle_poke` of relay/src/http.rs).
use certrelay.Prelude.{
  ℕ, ◌≡◌, ◌⊎◌, refl, inl, inr, true, false, not, ◌&&◌, Option, none, some, [], ◌∷◌, ◌++◌, ltb,
  String, string_dec_eq, arith, Bool-cases,
}
use certrelay.Store.Pages.{get_watermark}
use certrelay.Peer.Url.{normalize_url}
use certrelay.Peer.Views.{is_verified}
use certrelay.Http.{AppState, Setup, Request, client_ip, is_rate_limited}
use certrelay.Http.Handlers.{is_behind, queue_poke, read_poke, handle_poke}

module _ {L C M P : Type 0} (k : Setup L C M P) where
  -- Why a URL may be queued: it is that of a peer verified at this time, and the poke claims a cursor
  -- past the watermark.
  abbrev pub IsAhead : ℕ → Option (String × Option ℕ) → String → AppState L C → Type 0
  IsAhead now poke url s =
      (raw : String) × (cursor : ℕ) × (poke ≡ some (raw, some cursor))
      × (url ≡ normalize_url k.as_str raw)
      × (is_verified k.as_str s.peers url now ≡ true)
      × (is_behind (get_watermark url s.handler.store) cursor ≡ false)

  pub record Quiet (now : ℕ) (poke : Option (String × Option ℕ)) (s after : AppState L C)
      : Type 0 where
    pub handler : after.handler ≡ s.handler
    pub peers : after.peers ≡ s.peers
    pub dirty : after.poke_dirty ≡ s.poke_dirty
    pub queue :
        (after.poke_queue ≡ s.poke_queue)
        ⊎ ((url : String) × (after.poke_queue ≡ s.poke_queue ++ (url ∷ []))
            × IsAhead now poke url s)

  Quiet-same : (now : ℕ) (poke : Option (String × Option ℕ)) (s : AppState L C) → Quiet now poke s s
  Quiet-same now poke s = record { handler = refl; peers = refl; dirty = refl; queue = inl refl }

  queue_poke-Quiet :
      (now : ℕ) (raw : String) (cursor : ℕ) (s : AppState L C)
      → Quiet now
          (some (raw, some cursor))
          s
          (queue_poke k now (normalize_url k.as_str raw) cursor s)
  unfolding queue_poke
  queue_poke-Quiet now raw cursor s =
      let url = normalize_url k.as_str raw in
      elim (Bool-cases (
        is_verified k.as_str s.peers url now
        && not (is_behind (get_watermark url s.handler.store) cursor))) [
          | inr b ↦ rw (b, queue_poke) (Quiet-same now (some (raw, some cursor)) s)
          | inl b ↦
              rw (b, queue_poke)
                (record {
                  handler = refl;
                  peers = refl;
                  dirty = refl;
                  queue =
                      inr (
                        url,
                        refl,
                        (raw, cursor, refl, refl, ground (arith, b), ground (arith, b)),
                      );
                })
        ]

  read_poke-Quiet :
      (now : ℕ) (poke : Option (String × Option ℕ)) (s : AppState L C)
      → Quiet now poke s (read_poke k now poke s).0
  unfolding read_poke
  read_poke-Quiet now none s = Quiet-same now none s
  read_poke-Quiet now (some (raw, none)) s = Quiet-same now (some (raw, none)) s
  read_poke-Quiet now (some (raw, some cursor)) s = elim (Bool-cases (ltb 256 (k.url_len raw))) [
    | inl b ↦ rw (b, read_poke) (Quiet-same now (some (raw, some cursor)) s)
    | inr b ↦ rw (b, read_poke) (queue_poke-Quiet now raw cursor s)
  ]

  -- A poke changes neither the store nor the peer table, and it announces nothing. It queues at most
  -- one URL, the normalized one that it names, and only when this is a verified peer whose claimed
  -- cursor is past the watermark.
  pub handle_poke-Quiet :
      (now : ℕ) (r : Request) (poke : Option (String × Option ℕ)) (s : AppState L C)
      → Quiet now poke s (handle_poke k now r poke s).0
  unfolding handle_poke
  handle_poke-Quiet now r poke s =
      let c = is_rate_limited k s.poke_limit (client_ip k r) in
      let s' : AppState L C = record s { poke_limit = c.1 } in
      let q = read_poke-Quiet now poke s' in
      elim (Bool-cases c.0) [
        | inl b ↦
            rw (b, handle_poke)
              (record { handler = refl; peers = refl; dirty = refl; queue = inl refl })
        | inr b ↦
            rw (b, handle_poke)
              (record { handler = q.handler; peers = q.peers; dirty = q.dirty; queue = q.queue })
      ]
