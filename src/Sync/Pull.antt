-- ===== src/Sync/Pull.antt =====
-- `sync_with_peer` of relay/src/sync.rs. The peer is a function: what it answers in each round to each
-- cursor. Cursors are numbers, already parsed.
pub mod Marks
pub mod Watermark
use Prim.Native.Nat.{min}
use certrelay.Prelude.{
  ℕ, zero, suc, ◌+◌, ◌-◌, Bool, true, false, ◌||◌, ◌==◌, Option, none, some, List, [], ◌∷◌, ltb,
  leb, if◌then◌else◌, String,
}
use certrelay.Store.State.{Store}
use certrelay.Store.Pages.{get_watermark, set_watermark}
use certrelay.Handler.{Handler}
use certrelay.Sync.{
  SyncRecord, SyncIngest, no_ingest, SyncConfig, SyncError, undecodable, unreachable,
  page_too_large, missing_cursor, bad_cursor, stuck_cursor, budget_spent, Outcome, done, failed,
  Puller,
}
use certrelay.Sync.Ingest.{ingest_sync_records}

-- A decoded page. `next_cursor` is absent, unparsable, or a number.
pub record WirePage : Type 0 where
  pub records : List SyncRecord
  pub next_cursor : Option (Option ℕ)

-- An answer to a request for a page, with the page when the body can be decoded.
pub record Response : Type 0 where
  pub content_length : Option ℕ
  pub body_len : ℕ
  pub page : Option WirePage

-- The newest cursor that the summary of a peer names, if its summary can be had; and the answer of
-- the peer in a round.
pub record Peer : Type 0 where
  pub summary : Option (Option ℕ)
  pub answer : ℕ → Option ℕ → Option Response

abbrev pub max_failed_spaces_per_round : ℕ
max_failed_spaces_per_round = 32

abbrev pub too_long : ℕ → Option ℕ → Bool
too_long most none = false
too_long most (some n) = ltb most n

abbrev pub decoded : Option WirePage → Outcome WirePage
decoded none = failed undecodable
decoded (some p) = done p

unfoldable pub fetch : ℕ → Option Response → Outcome WirePage
fetch most none = failed unreachable
fetch most (some r) =
    if too_long most r.content_length || ltb most r.body_len
    then failed page_too_large
    else decoded r.page

unfoldable pub next_of : Option (Option ℕ) → Outcome ℕ
next_of none = failed missing_cursor
next_of (some none) = failed bad_cursor
next_of (some (some n)) = done n

abbrev pub stuck : Option ℕ → ℕ → Bool
stuck none next = false
stuck (some c) next = leb next c

abbrev pub or_zero : Option ℕ → ℕ
or_zero none = 0
or_zero (some n) = n

unfoldable pub add_stats : SyncIngest → SyncIngest → SyncIngest
add_stats t s = record t {
  stored = t.stored + s.stored;
  prefiltered = t.prefiltered + s.prefiltered;
  failed_spaces = t.failed_spaces + s.failed_spaces;
}

-- A round ends the run, or goes on behind a cursor.
pub data Turn (L : Type 0) : Type 0 where
  stop : Handler L → Outcome SyncIngest → Turn L
  go : Handler L → ℕ → SyncIngest → Turn L

module _ {L : Type 0} where
  unfoldable pub mark : ℕ → String → ℕ → Handler L → Handler L
  mark now url c h = record h { store = set_watermark now url c h.store }

  -- An empty page: nothing is left up to the advertised cursor.
  unfoldable pub catch_up : ℕ → String → ℕ → Option ℕ → Handler L → Handler L
  unfolding mark
  catch_up now url latest cursor h =
      if ltb (or_zero cursor) latest then mark now url latest h else h

  -- What follows the ingest of a page.
  unfoldable pub after_page : ℕ → String → ℕ → ℕ → SyncIngest → SyncIngest → Handler L → Turn L
  unfolding mark
  after_page now url latest next totals stats h =
      if stats.incomplete
      then stop h (failed budget_spent)
      else (if leb latest next || ltb max_failed_spaces_per_round totals.failed_spaces
          then stop (mark now url (min next latest) h) (done totals)
          else go (mark now url (min next latest) h) next totals)

  unfoldable pub ingested :
      ℕ → String → ℕ → ℕ → SyncIngest → Handler L × Outcome SyncIngest → Turn L
  unfolding after_page add_stats
  ingested now url latest next totals (h, failed e) = stop h (failed e)
  ingested now url latest next totals (h, done stats) =
      after_page now url latest next (add_stats totals stats) stats h

  unfoldable pub follow :
      Turn L
      → (Handler L → ℕ → SyncIngest → Handler L × Outcome SyncIngest)
      → Handler L × Outcome SyncIngest
  follow (stop h o) f = (h, o)
  follow (go h next totals) f = f h next totals

module _ {L M P : Type 0} (k : Puller L M P) (config : SyncConfig) (peer : Peer) where
  unfoldable pub on_records :
      ℕ → String → ℕ → Option ℕ → SyncIngest → List SyncRecord → Outcome ℕ → Handler L → Turn L
  unfolding ingested
  on_records now url latest cursor totals rs (failed e) h = stop h (failed e)
  on_records now url latest cursor totals rs (done next) h =
      if stuck cursor next
      then stop h (failed stuck_cursor)
      else ingested now url latest next totals (
          ingest_sync_records k now rs ((max_failed_spaces_per_round - totals.failed_spaces) + 1) h)

  unfoldable pub on_page :
      ℕ
      → String
      → ℕ
      → Option ℕ
      → SyncIngest
      → List SyncRecord
      → Option (Option ℕ)
      → Handler L
      → Turn L
  unfolding catch_up on_records next_of
  on_page now url latest cursor totals [] next h =
      stop (catch_up now url latest cursor h) (done totals)
  on_page now url latest cursor totals (r ∷ rs) next h =
      on_records now url latest cursor totals (r ∷ rs) (next_of next) h

  unfoldable pub on_answer :
      ℕ → String → ℕ → Option ℕ → SyncIngest → Outcome WirePage → Handler L → Turn L
  unfolding on_page
  on_answer now url latest cursor totals (failed e) h = stop h (failed e)
  on_answer now url latest cursor totals (done page) h =
      on_page now url latest cursor totals page.records page.next_cursor h

  -- One round of the loop.
  unfoldable pub turn : ℕ → String → ℕ → ℕ → Option ℕ → SyncIngest → Handler L → Turn L
  unfolding fetch on_answer
  turn now url latest i cursor totals h =
      on_answer now url latest cursor totals (fetch config.max_page_bytes (peer.answer i cursor)) h

  -- The loop, with the rounds that are left.
  unfoldable pub rounds :
      ℕ → ℕ → String → ℕ → ℕ → Option ℕ → SyncIngest → Handler L → Handler L × Outcome SyncIngest
  unfolding turn follow
  rounds zero now url latest i cursor totals h = (h, done totals)
  rounds (suc n) now url latest i cursor totals h =
      follow (turn now url latest i cursor totals h)
        (λ h' next totals'. rounds n now url latest (suc i) (some next) totals' h')

  unfoldable pub pull : ℕ → String → ℕ → Option ℕ → Handler L → Handler L × Outcome SyncIngest
  unfolding rounds
  pull now url latest cursor h =
      rounds config.max_pages_per_peer now url latest 0 cursor no_ingest h

  -- The comparison of the watermark with the summary.
  unfoldable pub compare_marks :
      ℕ → String → Option ℕ → Option ℕ → Handler L → Handler L × Outcome SyncIngest
  unfolding pull mark
  compare_marks now url watermark none h = (h, done no_ingest)
  compare_marks now url none (some latest) h = pull now url latest none h
  compare_marks now url (some c) (some latest) h =
      if ltb latest c
      then (mark now url 0 h, done no_ingest)
      else (if latest == c then (h, done no_ingest) else pull now url latest (some c) h)

  unfoldable pub on_summary :
      ℕ → String → Option (Option ℕ) → Handler L → Handler L × Outcome SyncIngest
  unfolding compare_marks
  on_summary now url none h = (h, failed unreachable)
  on_summary now url (some latest) h = compare_marks now url (get_watermark url h.store) latest h

  unfoldable pub sync_with_peer : ℕ → String → Handler L → Handler L × Outcome SyncIngest
  unfolding on_summary
  sync_with_peer now url h = on_summary now url peer.summary h
