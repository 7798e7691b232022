-- ===== src/Sync/Ingest/Budget.antt =====
-- The budget of failed spaces of `ingest_sync_records` of relay/src/sync.rs.
use certrelay.Prelude.{ℕ, suc, ◌-◌, ◌≡◌, ◌≤◌, ◌⊎◌, true, List, [], length, string_dec_eq}
use certrelay.Map.{Map}
use certrelay.Handler.{Handler}
use certrelay.Sync.{SyncError, SyncRecord, SyncIngest, no_ingest, Outcome, done, failed, Puller}
use certrelay.Sync.Ingest.Attempts.{Attempted}
use certrelay.Sync.Ingest.{Group, existing_of, survivors, decode_all, group_from, Step}

-- One more failure at most, and the mark of an incomplete batch as it was.
abbrev pub OneMore : SyncIngest → Outcome SyncIngest → Type 0
OneMore out (failed e) = Unit
OneMore out (done o) = (o.failed_spaces ≤ suc out.failed_spaces) × (o.incomplete ≡ out.incomplete)

-- The failures stay within the budget, and they fill it when the batch is incomplete.
abbrev pub InBudget : ℕ → Outcome SyncIngest → Type 0
InBudget budget (failed e) = Unit
InBudget budget (done o) =
    (o.failed_spaces ≤ budget) × (o.incomplete ≡ true → o.failed_spaces ≡ budget)

module _ {L M P : Type 0} (k : Puller L M P) where
  -- What becomes of a batch: a record that cannot be decoded ends it, or its groups are attempted.
  abbrev pub Batch : ℕ → List SyncRecord → ℕ → Handler L → Step k → Type 0
  Batch now rs budget h r =
      let existing = existing_of rs h.store in
      let kept = survivors k.env.codec existing rs in
      ((e : SyncError) × (decode_all k.env.codec kept ≡ failed e) × (r ≡ (h, failed e)))
      ⊎ ((xs : Group) × (decode_all k.env.codec kept ≡ done xs)
          × Attempted k now existing budget (group_from xs [])
              (record no_ingest { prefiltered = length rs - length kept }) h r)
