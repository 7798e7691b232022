-- ===== src/Sync/Pull/Watermark.antt =====
-- Where `sync_with_peer` of relay/src/sync.rs may put a watermark.
use certrelay.Prelude.{
  ℕ, ◌≡◌, ◌≢◌, ◌≤◌, ◌<◌, refl, ◌⊎◌, inl, inr, ◌==◌, Option, none, some, ltb, String, string_dec_eq,
  arith, Bool-cases,
}
use certrelay.Store.State.{Store}
use certrelay.Store.Update.Sequence.{IsSound}
use certrelay.Store.Pages.{get_watermark}
use certrelay.Handler.{Handler}
use certrelay.Sync.{no_ingest, SyncConfig, Puller}
use certrelay.Sync.Pull.{
  Peer, or_zero, mark, rounds, pull, compare_marks, on_summary, sync_with_peer,
}
use certrelay.Sync.Pull.Marks.{Marked, get-set_watermark, set_watermark-IsSound, rounds-Marked}

-- How a run may end: a sound store, the watermarks of the other peers as they were, and the peer's own
-- as it was, reset to zero because the peer advertises less, or moved on within what it advertises.
pub record Synced {L : Type 0} (url : String) (peer : Peer) (s : Store) (h : Handler L)
    : Type 0 where
  pub sound : IsSound h.store
  pub others : (u : String) → url ≢ u → get_watermark u h.store ≡ get_watermark u s
  pub own :
      (get_watermark url h.store ≡ get_watermark url s)
      ⊎ ((latest : ℕ) × (peer.summary ≡ some (some latest))
          × (((get_watermark url h.store ≡ some 0) × (latest < or_zero (get_watermark url s)))
              ⊎ ((c : ℕ) × (get_watermark url h.store ≡ some c)
                  × (or_zero (get_watermark url s) ≤ c)
                  × (c ≤ latest))))

Synced-same :
    {L : Type 0} (url : String) (peer : Peer) (h : Handler L)
    → IsSound h.store
    → Synced url peer h.store h
Synced-same url peer h v = record { sound = v; others = λ u other. refl; own = inl refl }

Synced-Marked :
    {L : Type 0} (url : String) (peer : Peer) (latest : ℕ) (s : Store) (h : Handler L)
    → peer.summary ≡ some (some latest)
    → Marked url latest s h
    → Synced url peer s h
Synced-Marked url peer latest s h e v = record {
  sound = v.sound;
  others = v.others;
  own = elim v.own [ inl w ↦ inl w | inr w ↦ inr (latest, e, inr w) ];
}

module _ {L M P : Type 0} (k : Puller L M P) (config : SyncConfig) (peer : Peer) where
  pull-Synced :
      (now : ℕ) (url : String) (latest : ℕ) (cursor : Option ℕ) (h : Handler L)
      → peer.summary ≡ some (some latest)
      → get_watermark url h.store ≡ cursor
      → or_zero cursor ≤ latest
      → IsSound h.store
      → Synced url peer h.store (pull k config peer now url latest cursor h).0
  unfolding pull
  pull-Synced now url latest cursor h e w b v =
      Synced-Marked url peer latest h.store
        (rounds k config peer config.max_pages_per_peer now url latest 0 cursor no_ingest h).0 e
        (rounds-Marked k config peer config.max_pages_per_peer now url latest 0 cursor no_ingest h
          h.store (rw w b) (rw w (omega arith))
          (record { sound = v; others = λ u other. refl; own = inl refl }))

  compare_marks-Synced :
      (now : ℕ) (url : String) (watermark latest : Option ℕ) (h : Handler L)
      → peer.summary ≡ some latest
      → get_watermark url h.store ≡ watermark
      → IsSound h.store
      → Synced url peer h.store (compare_marks k config peer now url watermark latest h).0
  unfolding compare_marks mark
  compare_marks-Synced now url watermark none h e w v = Synced-same url peer h v
  compare_marks-Synced now url none (some latest) h e w v =
      pull-Synced now url latest none h e w (omega arith) v
  compare_marks-Synced now url (some c) (some latest) h e w v = elim (Bool-cases (ltb latest c)) [
    | inl b ↦ rw b (record {
      sound = set_watermark-IsSound now url 0 h.store v;
      others = λ u other. ground (arith, get-set_watermark u url now 0 h.store);
      own = inr (
        latest,
        e,
        inl (ground (arith, get-set_watermark url url now 0 h.store), rw w (ground arith)),
      );
    })
    | inr b ↦ elim (Bool-cases (latest == c)) [
      | inl q ↦ rw (b, q) (Synced-same url peer h v)
      | inr q ↦ rw (b, q) (pull-Synced now url latest (some c) h e w (ground arith) v)
    ]
  ]

  on_summary-Synced :
      (now : ℕ) (url : String) (o : Option (Option ℕ)) (h : Handler L)
      → peer.summary ≡ o
      → IsSound h.store
      → Synced url peer h.store (on_summary k config peer now url o h).0
  unfolding on_summary
  on_summary-Synced now url none h e v = Synced-same url peer h v
  on_summary-Synced now url (some latest) h e v =
      compare_marks-Synced now url (get_watermark url h.store) latest h e refl v

  -- A run with a peer keeps the store sound and can move no other peer's watermark. Whatever the peer
  -- answers, its own watermark never passes the cursor that its summary advertises, and it never goes
  -- back, save for the reset to zero when the peer advertises less than the watermark.
  pub sync_with_peer-Synced :
      (now : ℕ) (url : String) (h : Handler L)
      → IsSound h.store
      → Synced url peer h.store (sync_with_peer k config peer now url h).0
  unfolding sync_with_peer
  sync_with_peer-Synced now url h v = on_summary-Synced now url peer.summary h refl v
