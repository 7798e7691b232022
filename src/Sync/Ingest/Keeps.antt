-- ===== src/Sync/Ingest/Keeps.antt =====
-- `ingest_sync_records` of relay/src/sync.rs keeps the store sound and leaves the watermarks alone.
use certrelay.Prelude.{
  ℕ, ◌+◌, ◌-◌, ◌≡◌, ◌∙◌, inl, inr, Bool, true, false, Option, none, some, List, [], ◌∷◌, map, leb,
  length, String, string_dec_eq, Bool-cases,
}
use certrelay.Map.{Map}
use certrelay.Store.Types.{
  Certificate, Zone, HandleRecord, HandleHintRow, BulkStoreResult, Result, ok, err,
}
use certrelay.Store.State.{Store}
use certrelay.Store.Rows.{get_handle}
use certrelay.Store.Update.Sequence.{IsSound}
use certrelay.Retention.{first_insert_gated}
use certrelay.Handler.{Handler}
use certrelay.Handler.Message.{handle_message_opts}
use certrelay.Handler.Message.Sound.{handle_message_opts-IsSound}
use certrelay.Sync.{
  SyncRecord, SyncIngest, no_ingest, done, failed, Outcome-cases, DataUpdate, Puller,
}
use certrelay.Sync.Ingest.{
  Group, existing_of, survivors, decode_all, group_from, take_root, update_of, counted, built,
  proved, submit, with_stored, with_root, known, after_gate, ingest_space, next_space, Step,
  ingest_spaces, ingest_sync_records,
}

-- The store is sound, and its watermarks are those of `s`.
abbrev pub SoundMarks : {L : Type 0} → Store → Handler L → Type 0
SoundMarks s h = IsSound h.store × (h.store.sync_watermarks ≡ s.sync_watermarks)

module _ {L M P : Type 0} (k : Puller L M P) (s : Store) where
  counted-SoundMarks :
      (out : SyncIngest) (e : Handler L × Result BulkStoreResult)
      → SoundMarks s e.0
      → SoundMarks s (counted k out e).0
  unfolding counted
  counted-SoundMarks out (h, err x) v = v
  counted-SoundMarks out (h, ok r) v = v

  built-SoundMarks :
      (now : ℕ) (o : Option M) (out : SyncIngest) (h : Handler L)
      → SoundMarks s h
      → SoundMarks s (built k now o out h).0
  unfolding built
  built-SoundMarks now none out h v = v
  built-SoundMarks now (some msg) out h v =
      let w = handle_message_opts-IsSound k.env now msg [] false h v.0 in
      let step =
        counted-SoundMarks out (handle_message_opts k.env now msg [] false h) (w.0, w.2 ∙ v.1) in
      elim (Bool-cases (k.builder.runs msg)) [ inl e ↦ rw e step | inr e ↦ rw e v ]

  proved-SoundMarks :
      (now : ℕ) (us : List DataUpdate) (o : Option P) (out : SyncIngest) (h : Handler L)
      → SoundMarks s h
      → SoundMarks s (proved k now us o out h).0
  unfolding proved
  proved-SoundMarks now us none out h v = v
  proved-SoundMarks now us (some proof) out h v =
      built-SoundMarks now (k.builder.build us proof) out h v

  submit-SoundMarks :
      (now : ℕ) (group : Group) (out : SyncIngest) (h : Handler L)
      → SoundMarks s h
      → SoundMarks s (submit k now group out h).0
  unfolding submit
  submit-SoundMarks now group out h v =
      proved-SoundMarks now (map update_of group) (k.builder.prove (map update_of group)) out h v

  with_stored-SoundMarks :
      (now : ℕ) (group : Group) (r : Result (Option HandleRecord)) (out : SyncIngest)
      (h : Handler L)
      → SoundMarks s h
      → SoundMarks s (with_stored k now group r out h).0
  unfolding with_stored
  with_stored-SoundMarks now group (err e) out h v = v
  with_stored-SoundMarks now group (ok none) out h v = v
  with_stored-SoundMarks now group (ok (some r)) out h v =
      submit-SoundMarks now ((r.cert, r.zone) ∷ group) out h v

  with_root-SoundMarks :
      (now : ℕ) (space : String) (group : Group) (o : Option ((Certificate × Zone) × Group))
      (out : SyncIngest) (h : Handler L)
      → SoundMarks s h
      → SoundMarks s (with_root k now space group o out h).0
  unfolding with_root
  with_root-SoundMarks now space group (some (root, rest)) out h v =
      submit-SoundMarks now (root ∷ rest) out h v
  with_root-SoundMarks now space group none out h v =
      with_stored-SoundMarks now group (get_handle k.env.codec space h.store) out h v

  after_gate-SoundMarks :
      (now : ℕ) (space : String) (group : Group) (out : SyncIngest) (h : Handler L)
      → SoundMarks s h
      → SoundMarks s (after_gate k now space group out h).0
  unfolding after_gate
  after_gate-SoundMarks now space [] out h v = v
  after_gate-SoundMarks now space (x ∷ xs) out h v =
      with_root-SoundMarks now space (x ∷ xs) (take_root space (x ∷ xs)) out h v

  ingest_space-SoundMarks :
      (now : ℕ) (existing : Map String HandleHintRow) (space : String) (group : Group)
      (out : SyncIngest) (h : Handler L)
      → SoundMarks s h
      → SoundMarks s (ingest_space k now existing space group out h).0
  unfolding ingest_space
  ingest_space-SoundMarks now existing space group out h v =
      let kept = known k existing group in
      let out' = record out { gated = out.gated + (length group - length kept) } in
      elim (Bool-cases (first_insert_gated k.retention space h.store)) [
        | inl e ↦ rw e (after_gate-SoundMarks now space kept out' h v)
        | inr e ↦ rw e (with_root-SoundMarks now space group (take_root space group) out h v)
      ]

  next_space-SoundMarks :
      (spent : Bool) (out : SyncIngest) (h : Handler L) (r : Step k)
      (f : SyncIngest → Handler L → Step k)
      → SoundMarks s h
      → SoundMarks s r.0
      → ((out' : SyncIngest) (h' : Handler L) → SoundMarks s h' → SoundMarks s (f out' h').0)
      → SoundMarks s (next_space k spent out h r f).0
  unfolding next_space
  next_space-SoundMarks true out h r f v w g = v
  next_space-SoundMarks false out h (h', failed e) f v w g = w
  next_space-SoundMarks false out h (h', done out') f v w g = g out' h' w

  ingest_spaces-SoundMarks :
      (now : ℕ) (existing : Map String HandleHintRow) (budget : ℕ) (m : Map String Group)
      (out : SyncIngest) (h : Handler L)
      → SoundMarks s h
      → SoundMarks s (ingest_spaces k now existing budget m out h).0
  unfolding ingest_spaces
  ingest_spaces-SoundMarks now existing budget [] out h v = v
  ingest_spaces-SoundMarks now existing budget ((space, group) ∷ m) out h v =
      next_space-SoundMarks (leb budget out.failed_spaces) out h
        (ingest_space k now existing space group out h) (ingest_spaces k now existing budget m) v
        (ingest_space-SoundMarks now existing space group out h v)
        (λ out' h' w. ingest_spaces-SoundMarks now existing budget m out' h' w)

  -- A batch keeps the store sound and leaves the watermarks as they were, however it ends.
  pub ingest_sync_records-SoundMarks :
      (now : ℕ) (rs : List SyncRecord) (budget : ℕ) (h : Handler L)
      → SoundMarks s h
      → SoundMarks s (ingest_sync_records k now rs budget h).0
  unfolding ingest_sync_records
  ingest_sync_records-SoundMarks now rs budget h v =
      let existing = existing_of rs h.store in
      let kept = survivors k.env.codec existing rs in
      elim (Outcome-cases (decode_all k.env.codec kept)) [
        | inr (e, p) ↦ rw (p, ingest_sync_records) v
        | inl (xs, p) ↦
            rw (p, ingest_sync_records)
              (ingest_spaces-SoundMarks now existing budget (group_from xs [])
                (record no_ingest { prefiltered = length rs - length kept }) h v)
      ]
