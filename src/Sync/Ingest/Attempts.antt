-- ===== src/Sync/Ingest/Attempts.antt =====
-- Which spaces of a batch the loop of `ingest_sync_records` of relay/src/sync.rs attempts.
use certrelay.Prelude.{
  ℕ, ◌≡◌, ◌≢◌, ◌≤◌, ◌⊎◌, ◌∙◌, sym, refl, ap, inl, inr, Bool, true, false, [], ◌∷◌, ◌++◌, leb,
  String, string_dec_eq, arith, Bool-cases,
}
use certrelay.Map.{Map}
use certrelay.Store.Types.{HandleHintRow}
use certrelay.Handler.{Handler}
use certrelay.Sync.{SyncIngest, SyncError, done, failed, Puller}
use certrelay.Sync.Ingest.{Group, ingest_space, next_space, Step, ingest_spaces}

module _ {L M P : Type 0} (k : Puller L M P) (now : ℕ) (existing : Map String HandleHintRow) where
  abbrev pub on_done : Step k → (SyncIngest → Handler L → Step k) → Step k
  on_done (h, failed e) f = (h, failed e)
  on_done (h, done out) f = f out h

  -- Every space in turn, whatever the number of failures, up to an error.
  unfoldable pub attempt_all : Map String Group → SyncIngest → Handler L → Step k
  attempt_all [] out h = (h, done out)
  attempt_all ((space, group) ∷ m) out h =
      on_done (ingest_space k now existing space group out h) (attempt_all m)

  -- The spaces are those tried and the rest. Either the rest is empty, or an error ended the loop, and
  -- the result is that of the spaces tried; or these leave no budget, and the batch is incomplete.
  abbrev pub Attempted : ℕ → Map String Group → SyncIngest → Handler L → Step k → Type 0
  Attempted budget m out h r =
      (tried : Map String Group) × (rest : Map String Group) × (m ≡ tried ++ rest)
      × (((r ≡ attempt_all tried out h)
            × ((rest ≡ []) ⊎ ((h' : Handler L) × (e : SyncError) × (r ≡ (h', failed e)))))
          ⊎ ((rest ≢ [])
              × (out' : SyncIngest) × (h' : Handler L) × (attempt_all tried out h ≡ (h', done out'))
              × (budget ≤ out'.failed_spaces)
              × (r ≡ (h', done (record out' { incomplete = true })))))

  step-cases :
      (r : Step k)
      → ((h : Handler L) × (e : SyncError) × (r ≡ (h, failed e)))
        ⊎ ((h : Handler L) × (out : SyncIngest) × (r ≡ (h, done out)))
  step-cases (h, failed e) = inl (h, e, refl)
  step-cases (h, done out) = inr (h, out, refl)

  attempt_all-cons :
      (space : String) (group : Group) (m : Map String Group) (out out' : SyncIngest)
      (h h' : Handler L)
      → ingest_space k now existing space group out h ≡ (h', done out')
      → attempt_all ((space, group) ∷ m) out h ≡ attempt_all m out' h'
  unfolding attempt_all
  attempt_all-cons space group m out out' h h' e = rw (e, attempt_all) refl

  Attempted-cons :
      (budget : ℕ) (space : String) (group : Group) (m : Map String Group) (out out' : SyncIngest)
      (h h' : Handler L) (r : Step k)
      → ingest_space k now existing space group out h ≡ (h', done out')
      → Attempted budget m out' h' r
      → Attempted budget ((space, group) ∷ m) out h r
  Attempted-cons budget space group m out out' h h' r e (tried, rest, split, cases) =
      let more = attempt_all-cons space group tried out out' h h' e in
      ((space, group) ∷ tried, rest, ap (λ xs. (space, group) ∷ xs) split, rw more cases)

  next-failed :
      (spent : Bool) (out : SyncIngest) (h h' : Handler L) (e : SyncError) (r : Step k)
      (f : SyncIngest → Handler L → Step k)
      → spent ≡ false
      → r ≡ (h', failed e)
      → next_space k spent out h r f ≡ (h', failed e)
  unfolding next_space
  next-failed spent out h h' e r f b same = rw (b, same) refl

  next-done :
      (spent : Bool) (out out' : SyncIngest) (h h' : Handler L) (r : Step k)
      (f : SyncIngest → Handler L → Step k)
      → spent ≡ false
      → r ≡ (h', done out')
      → next_space k spent out h r f ≡ f out' h'
  unfolding next_space
  next-done spent out out' h h' r f b same = rw (b, same) refl

  on-failed :
      (r : Step k) (h : Handler L) (e : SyncError) (f : SyncIngest → Handler L → Step k)
      → r ≡ (h, failed e)
      → on_done r f ≡ (h, failed e)
  on-failed r h e f same = rw same refl

  round_failed :
      (budget : ℕ) (space : String) (group : Group) (m : Map String Group) (out : SyncIngest)
      (h h' : Handler L) (x : SyncError)
      → leb budget out.failed_spaces ≡ false
      → ingest_space k now existing space group out h ≡ (h', failed x)
      → ingest_spaces k now existing budget ((space, group) ∷ m) out h ≡ (h', failed x)
  unfolding ingest_spaces
  round_failed budget space group m out h h' x b e =
      next-failed (leb budget out.failed_spaces) out h h' x
        (ingest_space k now existing space group out h) (ingest_spaces k now existing budget m) b e

  round_done :
      (budget : ℕ) (space : String) (group : Group) (m : Map String Group) (out out' : SyncIngest)
      (h h' : Handler L)
      → leb budget out.failed_spaces ≡ false
      → ingest_space k now existing space group out h ≡ (h', done out')
      → ingest_spaces k now existing budget ((space, group) ∷ m) out h
        ≡ ingest_spaces k now existing budget m out' h'
  unfolding ingest_spaces
  round_done budget space group m out out' h h' b e =
      next-done (leb budget out.failed_spaces) out out' h h'
        (ingest_space k now existing space group out h) (ingest_spaces k now existing budget m) b e

  attempt_failed :
      (space : String) (group : Group) (m : Map String Group) (out : SyncIngest) (h h' : Handler L)
      (x : SyncError)
      → ingest_space k now existing space group out h ≡ (h', failed x)
      → attempt_all ((space, group) ∷ m) out h ≡ (h', failed x)
  unfolding attempt_all
  attempt_failed space group m out h h' x e =
      on-failed (ingest_space k now existing space group out h) h' x (attempt_all m) e

  pub ingest_spaces-Attempted :
      (budget : ℕ) (m : Map String Group) (out : SyncIngest) (h : Handler L)
      → Attempted budget m out h (ingest_spaces k now existing budget m out h)
  unfolding ingest_spaces attempt_all
  ingest_spaces-Attempted budget [] out h = ([], [], refl, inl (refl, inl refl))
  ingest_spaces-Attempted budget ((space, group) ∷ m) out h =
      elim (Bool-cases (leb budget out.failed_spaces)) [
        | inl b ↦
            rw (b, ingest_spaces, next_space)
              (
                [],
                (space, group) ∷ m,
                refl,
                inr (λ e. ground (arith, e), out, h, refl, ground (arith, b), refl),
              )
        | inr b ↦ elim (step-cases (ingest_space k now existing space group out h)) [
          | inl (h', x, e) ↦
              let same = round_failed budget space group m out h h' x b e in
              (
                (space, group) ∷ [],
                m,
                refl,
                inl (same ∙ sym (attempt_failed space group [] out h h' x e), inr (h', x, same)),
              )
          | inr (h', out', e) ↦ rw (round_done budget space group m out out' h h' b e) (
              Attempted-cons budget space group m out out' h h'
                (ingest_spaces k now existing budget m out' h') e
                (ingest_spaces-Attempted budget m out' h'))
        ]
      ]
