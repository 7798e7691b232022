-- ===== src/Handler/Message/Limits.antt =====
-- When `handle_message_opts` of relay/src/handler.rs spends content quotas.
use mathlib.Core.Option
use certrelay.Prelude.{
  ℕ, ◌≡◌, ◌<◌, none, refl, ◌⊎◌, inl, inr, Bool, false, Option, some, List, [], ◌∷◌, String,
  string_dec_eq, arith, Option-cases, All,
}
use certrelay.Map.{lookup}
use certrelay.Store.Types.{Zone, Certificate, HandleRecord, HandleHintRow, ok, Result-cases}
use certrelay.Store.Update.{update_handles}
use certrelay.Handler.{Env, Handler, charges_churn}
use certrelay.Handler.Pass.{
  Batch, Pass, collect_sig, collect, limited, admit, in_space, with_zone, bundle, bundle_all,
  record_with,
}
use certrelay.Handler.Message.{
  clean_up, verify_message, batch_of, start_pass, finish, store_verified, on_verified,
  handle_message_opts,
}

-- The limiters are as they were.
abbrev pub SameRates : {L : Type 0} → Pass L → Pass L → Type 0
SameRates p q = (q.space_rate ≡ p.space_rate) × (q.handle_rate ≡ p.handle_rate)

-- What is free: a first insert, or an epoch past the stored one.
abbrev pub IsFree : Batch → Certificate → Type 0
IsFree b cert =
    (space : String)
    → cert.space ≡ some space
    → (lookup cert.subject b.existing ≡ none)
      ⊎ ((r : HandleHintRow) × (lookup cert.subject b.existing ≡ some r)
          × (r.epoch_height < Option.get_or (lookup space b.epoch_map) 0))

uncharged :
    (o : Option HandleHintRow) (n : ℕ)
    → (o ≡ none) ⊎ ((r : HandleHintRow) × (o ≡ some r) × (r.epoch_height < n))
    → charges_churn (Option.map (λ r. r.epoch_height) o) n ≡ false
unfolding charges_churn
uncharged o n (inl e) = rw e refl
uncharged o n (inr (r, e, h)) = rw e (ground (arith, h))

module _ {L M : Type 0} (env : Env L M) where
  collect-SameRates : (h : String) (z : Zone) (p : Pass L) → SameRates p (collect env h z p)
  unfolding collect collect_sig
  collect-SameRates h z p = elim (Option-cases z.records.sig) [
    | inl n ↦ ground (arith, n)
    | inr (g, e) ↦ ground (arith, e)
  ]

  limited-SameRates :
      (b : Batch) (o : Option HandleHintRow) (space h : String) (u : HandleRecord) (p : Pass L)
      → (b.charge_content_limits ≡ false)
        ⊎ (charges_churn (Option.map (λ r. r.epoch_height) o) u.epoch_height ≡ false)
      → SameRates p (limited env b o space h u p).1
  unfolding limited
  limited-SameRates b o space h u p f = ground arith

  admit-SameRates :
      (b : Batch) (o : Option HandleHintRow) (space h : String) (u : HandleRecord) (p : Pass L)
      → (b.charge_content_limits ≡ false)
        ⊎ (charges_churn (Option.map (λ r. r.epoch_height) o) u.epoch_height ≡ false)
      → SameRates p (admit env b o space h u p).1
  unfolding admit
  admit-SameRates b o space h u p f = ground (arith, limited-SameRates b o space h u p)

  bundle-SameRates :
      (b : Batch) (cert : Certificate) (p : Pass L)
      → (b.charge_content_limits ≡ false) ⊎ IsFree b cert
      → SameRates p (bundle env b cert p).1
  unfolding bundle with_zone in_space record_with
  bundle-SameRates b cert p f = elim (Option-cases (lookup cert.subject b.zone_map)) [
    | inl n ↦ ground (arith, n)
    | inr (z, k) ↦
        let first = collect-SameRates cert.subject z p in
        elim (Option-cases cert.space) [
          | inl n ↦ ground (arith, k, n, first)
          | inr (space, q) ↦
              let w = record_with cert z (Option.get_or (lookup space b.epoch_map) 0) in
              let free : (b.charge_content_limits ≡ false)
                  ⊎ (charges_churn
                        (Option.map (λ r. r.epoch_height) (lookup cert.subject b.existing))
                        w.epoch_height
                      ≡ false) =
                elim f [
                  | inl a ↦ inl a
                  | inr a ↦
                      inr (uncharged (lookup cert.subject b.existing) w.epoch_height (a space q))
                ] in
              let step =
                admit-SameRates b (lookup cert.subject b.existing) space cert.subject w
                  (collect env cert.subject z p) free in
              ground (arith, k, q, first, step)
        ]
  ]

  bundle_all-SameRates :
      (b : Batch) (certs : List Certificate) (p : Pass L)
      → (b.charge_content_limits ≡ false) ⊎ All (IsFree b) certs
      → SameRates p (bundle_all env b certs p).1
  unfolding bundle_all
  bundle_all-SameRates b [] p f = (refl, refl)
  bundle_all-SameRates b (x ∷ xs) p f =
      let here = bundle-SameRates b x p (elim f [ inl a ↦ inl a | inr a ↦ inr a.0 ]) in
      let rest =
        bundle_all-SameRates b xs (bundle env b x p).1
          (elim f [ inl a ↦ inl a | inr a ↦ inr a.1 ]) in
      elim (Option-cases (bundle env b x p).0) [
        | inl n ↦ ground (arith, n, here, rest)
        | inr (u, e) ↦ ground (arith, e, here, rest)
      ]

  -- A call spends no quota on the ingest path, where `charge_content_limits` is false. Nor does it for
  -- a message whose certificates are all free: each names a handle without a row, or the verified
  -- commitment of its space lies higher than the epoch of the stored row. The limiters are then as the periodic clean-up leaves them.
  pub handle_message_opts-rates :
      (now : ℕ) (msg : M) (gated : List String) (charge : Bool) (h : Handler L)
      → (charge ≡ false)
        ⊎ ((res : List Zone × List Certificate)
            → verify_message env msg (clean_up env h) ≡ ok res
            → All (IsFree (batch_of env gated charge (clean_up env h) res)) res.1)
      → ((handle_message_opts env now msg gated charge h).0.space_rate
          ≡ (clean_up env h).space_rate)
        × ((handle_message_opts env now msg gated charge h).0.handle_rate
            ≡ (clean_up env h).handle_rate)
  unfolding handle_message_opts on_verified store_verified finish batch_of
  handle_message_opts-rates now msg gated charge h f =
      let h' = clean_up env h in
      elim (Result-cases (verify_message env msg h')) [
        | inr (x, e) ↦ ground (arith, e)
        | inl (res, e) ↦
            let b = batch_of env gated charge h' res in
            let same =
              bundle_all-SameRates b res.1 (start_pass h')
                (elim f [ inl a ↦ inl a | inr a ↦ inr (a res e) ]) in
            let p = bundle_all env b res.1 (start_pass h') in
            elim (Result-cases (update_handles env.codec now p.0 h'.store)) [
              | inr (x, k) ↦ rw (e, k) same
              | inl (y, k) ↦ rw (e, k) same
            ]
      ]
