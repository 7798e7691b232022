-- ===== src/Sync/Pull/Marks.antt =====
-- The rounds of `sync_with_peer` of relay/src/sync.rs and the watermark of the peer.
use mathlib.Core.Option
use Prim.Native.Nat.{min}
use certrelay.Prelude.{
  ℕ, zero, suc, ◌+◌, ◌-◌, ◌≡◌, ◌≢◌, ◌≤◌, ◌∙◌, ap, refl, ◌⊎◌, inl, inr, Bool, true, false, ◌||◌,
  Option, none, some, List, [], ◌∷◌, ltb, leb, if◌then◌else◌, ite, dec_eq, String, string_dec_eq,
  arith, Bool-cases,
}
use certrelay.Map.{lookup}
use certrelay.Map.Laws.{lookup-insert}
use certrelay.Store.State.{Store}
use certrelay.Store.Update.Sequence.{IsSound}
use certrelay.Store.Pages.{get_watermark, set_watermark}
use certrelay.Handler.{Handler}
use certrelay.Sync.{SyncRecord, SyncIngest, SyncConfig, Outcome, done, failed, Puller}
use certrelay.Sync.Ingest.{ingest_sync_records}
use certrelay.Sync.Ingest.Keeps.{SoundMarks, ingest_sync_records-SoundMarks}
use certrelay.Sync.Pull.{
  WirePage, Peer, max_failed_spaces_per_round, fetch, next_of, stuck, or_zero, add_stats, Turn,
  stop, go, mark, catch_up, after_page, ingested, on_records, on_page, on_answer, turn, follow,
  rounds,
}

pub get-set_watermark :
    (u url : String) (now c : ℕ) (s : Store)
    → get_watermark u (set_watermark now url c s) ≡ ite (dec_eq url u) (some c) (get_watermark u s)
unfolding get_watermark set_watermark
get-set_watermark u url now c s = ground (arith, lookup-insert u url (c, now) s.sync_watermarks)

pub set_watermark-IsSound :
    (now : ℕ) (url : String) (c : ℕ) (s : Store) → IsSound s → IsSound (set_watermark now url c s)
unfolding set_watermark
set_watermark-IsSound now url c s v = record {
  accounts = record {
    distinct = v.accounts.distinct;
    rows = v.accounts.rows;
    bytes = v.accounts.bytes;
    counts = v.accounts.counts;
  };
  sequenced = v.sequenced;
}

-- The watermark `w` of a peer that advertises `latest`, from `old`: unchanged, or moved on and not
-- past `latest`.
abbrev pub MovedOn : ℕ → Option ℕ → Option ℕ → Type 0
MovedOn latest old w = (w ≡ old) ⊎ ((c : ℕ) × (w ≡ some c) × (or_zero old ≤ c) × (c ≤ latest))

-- A sound store in which only the watermark of `url` may have moved on from that of `s`.
pub record Marked {L : Type 0} (url : String) (latest : ℕ) (s : Store) (h : Handler L)
    : Type 0 where
  pub sound : IsSound h.store
  pub others : (u : String) → url ≢ u → get_watermark u h.store ≡ get_watermark u s
  pub own : MovedOn latest (get_watermark url s) (get_watermark url h.store)

not_stuck :
    (cursor : Option ℕ) (next old : ℕ)
    → stuck cursor next ≡ false
    → old ≤ or_zero cursor
    → old ≤ next
not_stuck none next old e b = omega (arith, b)
not_stuck (some c) next old e b = ground arith

module _ {L : Type 0} where
  mark-Marked :
      (now : ℕ) (url : String) (latest c : ℕ) (s : Store) (h : Handler L)
      → or_zero (get_watermark url s) ≤ c
      → c ≤ latest
      → Marked url latest s h
      → Marked url latest s (mark now url c h)
  unfolding mark
  mark-Marked now url latest c s h a b v = record {
    sound = set_watermark-IsSound now url c h.store v.sound;
    others = λ u other. ground (arith, get-set_watermark u url now c h.store, v.others u other);
    own = inr (c, ground (arith, get-set_watermark url url now c h.store), a, b);
  }

  SoundMarks-Marked :
      (url : String) (latest : ℕ) (s : Store) (h g : Handler L)
      → Marked url latest s h
      → SoundMarks h.store g
      → Marked url latest s g
  unfolding get_watermark
  SoundMarks-Marked url latest s h g v w = record {
    sound = w.0;
    others =
        λ u other. ap (λ m. Option.map (λ (x : ℕ × ℕ). x.0) (lookup u m)) w.1 ∙ v.others u other;
    own = rw w.1 v.own;
  }

  -- How a round ends: marked, and a cursor at which it goes on does not lie before the old watermark.
  abbrev TurnMarked : String → ℕ → Store → Turn L → Type 0
  TurnMarked url latest s (stop h o) = Marked url latest s h
  TurnMarked url latest s (go h next totals) =
      Marked url latest s h × (or_zero (get_watermark url s) ≤ next)

  if-TurnMarked :
      (url : String) (latest : ℕ) (s : Store) (b : Bool) (x y : Turn L)
      → TurnMarked url latest s x
      → TurnMarked url latest s y
      → TurnMarked url latest s (if b then x else y)
  if-TurnMarked url latest s true x y v w = v
  if-TurnMarked url latest s false x y v w = w

  after_turn :
      (t : Turn L) (s : Store) (url : String) (latest : ℕ)
      (f : Handler L → ℕ → SyncIngest → Handler L × Outcome SyncIngest)
      → TurnMarked url latest s t
      → ((h : Handler L) (next : ℕ) (totals : SyncIngest)
          → Marked url latest s h
          → or_zero (get_watermark url s) ≤ next
          → Marked url latest s (f h next totals).0)
      → Marked url latest s (follow t f).0
  unfolding follow
  after_turn (stop h o) s url latest f v g = v
  after_turn (go h next totals) s url latest f v g = g h next totals v.0 v.1

  catch_up-Marked :
      (now : ℕ) (url : String) (latest : ℕ) (cursor : Option ℕ) (s : Store) (h : Handler L)
      → or_zero (get_watermark url s) ≤ latest
      → Marked url latest s h
      → Marked url latest s (catch_up now url latest cursor h)
  unfolding catch_up
  catch_up-Marked now url latest cursor s h a v = elim (Bool-cases (ltb (or_zero cursor) latest)) [
    | inl e ↦ rw e (mark-Marked now url latest latest s h a (omega arith) v)
    | inr e ↦ rw e v
  ]

  after_page-Marked :
      (now : ℕ) (url : String) (latest next : ℕ) (totals stats : SyncIngest) (s : Store)
      (h : Handler L)
      → or_zero (get_watermark url s) ≤ latest
      → or_zero (get_watermark url s) ≤ next
      → Marked url latest s h
      → TurnMarked url latest s (after_page now url latest next totals stats h)
  unfolding after_page
  after_page-Marked now url latest next totals stats s h a b v =
      let moved = mark-Marked now url latest (min next latest) s h (omega arith) (omega arith) v in
      if-TurnMarked url latest s stats.incomplete _ _ v (
        if-TurnMarked url latest s
          (leb latest next || ltb max_failed_spaces_per_round totals.failed_spaces) _ _ moved
          (moved, b))

  ingested-Marked :
      (now : ℕ) (url : String) (latest next : ℕ) (totals : SyncIngest)
      (e : Handler L × Outcome SyncIngest) (s : Store)
      → or_zero (get_watermark url s) ≤ latest
      → or_zero (get_watermark url s) ≤ next
      → Marked url latest s e.0
      → TurnMarked url latest s (ingested now url latest next totals e)
  unfolding ingested
  ingested-Marked now url latest next totals (h, failed e) s a b v = v
  ingested-Marked now url latest next totals (h, done stats) s a b v =
      after_page-Marked now url latest next (add_stats totals stats) stats s h a b v

module _ {L M P : Type 0} (k : Puller L M P) (config : SyncConfig) (peer : Peer) where
  on_records-Marked :
      (now : ℕ) (url : String) (latest : ℕ) (cursor : Option ℕ) (totals : SyncIngest)
      (rs : List SyncRecord) (o : Outcome ℕ) (h : Handler L) (s : Store)
      → or_zero (get_watermark url s) ≤ latest
      → or_zero (get_watermark url s) ≤ or_zero cursor
      → Marked url latest s h
      → TurnMarked url latest s (on_records k config peer now url latest cursor totals rs o h)
  unfolding on_records
  on_records-Marked now url latest cursor totals rs (failed e) h s a b v = v
  on_records-Marked now url latest cursor totals rs (done next) h s a b v =
      let budget = (max_failed_spaces_per_round - totals.failed_spaces) + 1 in
      let r = ingest_sync_records k now rs budget h in
      elim (Bool-cases (stuck cursor next)) [
        | inl e ↦ rw e v
        | inr e ↦ rw e (
            ingested-Marked now url latest next totals r s a (not_stuck cursor next _ e b) (
              SoundMarks-Marked url latest s h r.0 v
                (ingest_sync_records-SoundMarks k h.store now rs budget h (v.sound, refl))))
      ]

  on_page-Marked :
      (now : ℕ) (url : String) (latest : ℕ) (cursor : Option ℕ) (totals : SyncIngest)
      (rs : List SyncRecord) (next : Option (Option ℕ)) (h : Handler L) (s : Store)
      → or_zero (get_watermark url s) ≤ latest
      → or_zero (get_watermark url s) ≤ or_zero cursor
      → Marked url latest s h
      → TurnMarked url latest s (on_page k config peer now url latest cursor totals rs next h)
  unfolding on_page
  on_page-Marked now url latest cursor totals [] next h s a b v =
      catch_up-Marked now url latest cursor s h a v
  on_page-Marked now url latest cursor totals (r ∷ rs) next h s a b v =
      on_records-Marked now url latest cursor totals (r ∷ rs) (next_of next) h s a b v

  on_answer-Marked :
      (now : ℕ) (url : String) (latest : ℕ) (cursor : Option ℕ) (totals : SyncIngest)
      (o : Outcome WirePage) (h : Handler L) (s : Store)
      → or_zero (get_watermark url s) ≤ latest
      → or_zero (get_watermark url s) ≤ or_zero cursor
      → Marked url latest s h
      → TurnMarked url latest s (on_answer k config peer now url latest cursor totals o h)
  unfolding on_answer
  on_answer-Marked now url latest cursor totals (failed e) h s a b v = v
  on_answer-Marked now url latest cursor totals (done page) h s a b v =
      on_page-Marked now url latest cursor totals page.records page.next_cursor h s a b v

  pub rounds-Marked :
      (n now : ℕ) (url : String) (latest i : ℕ) (cursor : Option ℕ) (totals : SyncIngest)
      (h : Handler L) (s : Store)
      → or_zero (get_watermark url s) ≤ latest
      → or_zero (get_watermark url s) ≤ or_zero cursor
      → Marked url latest s h
      → Marked url latest s (rounds k config peer n now url latest i cursor totals h).0
  unfolding rounds turn
  rounds-Marked zero now url latest i cursor totals h s a b v = v
  rounds-Marked (suc n) now url latest i cursor totals h s a b v =
      after_turn (turn k config peer now url latest i cursor totals h) s url latest
        (λ h' next totals'. rounds k config peer n now url latest (suc i) (some next) totals' h')
        (on_answer-Marked now url latest cursor totals
          (fetch config.max_page_bytes (peer.answer i cursor)) h s a b v)
        (λ h' next totals' w c.
          rounds-Marked n now url latest (suc i) (some next) totals' h' s a c w)
