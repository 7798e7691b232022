-- ===== src/Sync/Ingest.antt =====
-- `ingest_sync_records` of relay/src/sync.rs. A `HashMap` of groups is a list, in the order in which
-- the spaces first appear.
pub mod Keeps
pub mod Attempts
pub mod Budget
use mathlib.Core.Option
use certrelay.Prelude.{
  ℕ, zero, suc, ◌+◌, ◌-◌, Bool, true, false, not, ◌&&◌, ◌==◌, Option, none, some, List, [], ◌∷◌,
  ◌++◌, map, filter, ltb, leb, eqb, if◌then◌else◌, length, is_some, String, string_dec_eq,
}
use certrelay.Map.{Map, lookup, insert}
use certrelay.Store.Types.{
  Bytes, Zone, Certificate, Codec, HandleRecord, HandleHintRow, BulkStoreResult, StoreError, Result,
  ok, err,
}
use certrelay.Store.State.{Store}
use certrelay.Store.Update.{bytes_dec_eq, bytes_discrete}
use certrelay.Store.Rows.{get_handle, get_handle_hints}
use certrelay.Retention.{first_insert_gated}
use certrelay.Handler.{Env, Handler}
use certrelay.Handler.Message.{handle_message_opts}
use certrelay.Sync.{
  SyncRecord, SyncIngest, no_ingest, SyncError, store_error, infra_failed, undecodable,
  handle_mismatch, Outcome, done, failed, DataUpdate, Builder, Puller,
}

abbrev pub Group : Type 0
Group = List (Certificate × Zone)

unfoldable pub same_row : Codec → SyncRecord → Option HandleHintRow → Bool
same_row c r none = false
same_row c r (some x) =
    x.epoch_height == r.epoch_height
    && x.offchain_seq == r.seq
    && x.delegate_offchain_seq == r.delegate_seq
    && eqb (c.zone_hash r.zone) x.zone_hash

-- The claimed metadata and the zone are those of the stored row.
unfoldable pub is_dup : Codec → Map String HandleHintRow → SyncRecord → Bool
unfolding same_row
is_dup c existing r = same_row c r (lookup r.handle existing)

unfoldable pub existing_of : List SyncRecord → Store → Map String HandleHintRow
existing_of rs s = map (λ r. (r.handle, r)) (get_handle_hints (map (λ r. r.handle) rs) s)

unfoldable pub survivors : Codec → Map String HandleHintRow → List SyncRecord → List SyncRecord
unfolding is_dup
survivors c existing rs = filter (λ r. not (is_dup c existing r)) rs

unfoldable pub checked :
    SyncRecord → Option Certificate → Option Zone → Outcome (Certificate × Zone)
checked r none z = failed undecodable
checked r (some cert) none = failed undecodable
checked r (some cert) (some z) =
    if eqb cert.subject r.handle then done (cert, z) else failed handle_mismatch

unfoldable pub decode : Codec → SyncRecord → Outcome (Certificate × Zone)
unfolding checked
decode c r = checked r (c.cert_from_slice r.cert) (c.zone_from_slice r.zone)

unfoldable pub decode_all : Codec → List SyncRecord → Outcome Group
unfolding decode
decode_all c [] = done []
decode_all c (r ∷ rs) =
    let rest = decode_all c rs in
    elim (decode c r) [
      | failed e ↦ failed e
      | done x ↦ elim rest [ failed e ↦ failed e | done xs ↦ done (x ∷ xs) ]
    ]

unfoldable pub push : Option String → Certificate × Zone → Map String Group → Map String Group
push none x m = m
push (some space) x m = insert space (Option.get_or (lookup space m) [] ++ (x ∷ [])) m

-- The records by space; a certificate without a space is passed over.
unfoldable pub group_from : Group → Map String Group → Map String Group
unfolding push
group_from [] m = m
group_from (x ∷ xs) m = group_from xs (push x.0.space x m)

-- `position` and `remove`: the record of this subject, and the others.
unfoldable pub take_root : String → Group → Option ((Certificate × Zone) × Group)
take_root space [] = none
take_root space (x ∷ xs) =
    let rest = take_root space xs in
    if eqb x.0.subject space then some (x, xs) else Option.map (λ p. (p.0, x ∷ p.1)) rest

abbrev pub update_of : Certificate × Zone → DataUpdate
update_of (cert, z) = record { cert = cert; records = z.records; delegate_records = z.delegate }

abbrev pub failed_one : SyncIngest → SyncIngest
failed_one out = record out { failed_spaces = suc out.failed_spaces }

module _ {L M P : Type 0} (k : Puller L M P) where
  abbrev pub Step : Type 0
  Step = Handler L × Outcome SyncIngest

  -- The result of the verification.
  unfoldable pub counted : SyncIngest → Handler L × Result BulkStoreResult → Step
  counted out (h, err e) = (h, done (failed_one out))
  counted out (h, ok r) = (h, done (record out { stored = out.stored + r.stored }))

  unfoldable pub built : ℕ → Option M → SyncIngest → Handler L → Step
  unfolding counted
  built now none out h = (h, done (failed_one out))
  built now (some msg) out h =
      if k.builder.runs msg
      then counted out (handle_message_opts k.env now msg [] false h)
      else (h, failed infra_failed)

  unfoldable pub proved : ℕ → List DataUpdate → Option P → SyncIngest → Handler L → Step
  unfolding built
  proved now us none out h = (h, failed infra_failed)
  proved now us (some proof) out h = built now (k.builder.build us proof) out h

  -- One message: the root first, then the rest of the group.
  unfoldable pub submit : ℕ → Group → SyncIngest → Handler L → Step
  unfolding proved
  submit now group out h = let us = map update_of group in proved now us (k.builder.prove us) out h

  -- The root of the batch, or else the stored one.
  unfoldable pub with_stored :
      ℕ → Group → Result (Option HandleRecord) → SyncIngest → Handler L → Step
  unfolding submit
  with_stored now group (err e) out h = (h, failed (store_error e))
  with_stored now group (ok none) out h = (h, done (failed_one out))
  with_stored now group (ok (some r)) out h = submit now ((r.cert, r.zone) ∷ group) out h

  unfoldable pub with_root :
      ℕ → String → Group → Option ((Certificate × Zone) × Group) → SyncIngest → Handler L → Step
  unfolding submit with_stored
  with_root now space group (some (root, rest)) out h = submit now (root ∷ rest) out h
  with_root now space group none out h =
      with_stored now group (get_handle k.env.codec space h.store) out h

  unfoldable pub known : Map String HandleHintRow → Group → Group
  known existing group = filter (λ x. is_some (lookup x.0.subject existing)) group

  unfoldable pub after_gate : ℕ → String → Group → SyncIngest → Handler L → Step
  unfolding with_root
  after_gate now space [] out h = (h, done out)
  after_gate now space (x ∷ xs) out h =
      with_root now space (x ∷ xs) (take_root space (x ∷ xs)) out h

  -- One space, behind the admission gate.
  unfoldable pub ingest_space :
      ℕ → Map String HandleHintRow → String → Group → SyncIngest → Handler L → Step
  unfolding after_gate known with_root
  ingest_space now existing space group out h =
      if first_insert_gated k.retention space h.store
      then after_gate now space (known existing group)
          (record out { gated = out.gated + (length group - length (known existing group)) }) h
      else with_root now space group (take_root space group) out h

  -- The end of a round of the loop: a budget that was spent before the round ends the loop, with the
  -- batch marked incomplete, and so does an error.
  unfoldable pub next_space :
      Bool → SyncIngest → Handler L → Step → (SyncIngest → Handler L → Step) → Step
  next_space true out h r f = (h, done (record out { incomplete = true }))
  next_space false out h (h', failed e) f = (h', failed e)
  next_space false out h (h', done out') f = f out' h'

  -- The loop over the spaces.
  unfoldable pub ingest_spaces :
      ℕ → Map String HandleHintRow → ℕ → Map String Group → SyncIngest → Handler L → Step
  unfolding ingest_space next_space
  ingest_spaces now existing budget [] out h = (h, done out)
  ingest_spaces now existing budget ((space, group) ∷ m) out h =
      next_space (leb budget out.failed_spaces) out h (ingest_space now existing space group out h)
        (ingest_spaces now existing budget m)

  unfoldable pub ingest_sync_records : ℕ → List SyncRecord → ℕ → Handler L → Step
  unfolding ingest_spaces existing_of survivors decode_all group_from
  ingest_sync_records now rs budget h =
      let existing = existing_of rs h.store in
      let kept = survivors k.env.codec existing rs in
      elim (decode_all k.env.codec kept) [
        | failed e ↦ (h, failed e)
        | done xs ↦
            ingest_spaces now existing budget (group_from xs [])
              (record no_ingest { prefiltered = length rs - length kept }) h
      ]
