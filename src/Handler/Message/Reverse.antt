-- ===== src/Handler/Message/Reverse.antt =====
-- What `handle_message_opts` of relay/src/handler.rs writes to the reverse table.
use mathlib.Core.Option
use certrelay.Prelude.{
  ℕ, ◌≡◌, ◌≤◌, ◌∙◌, ap, refl, sym, inl, inr, Bool, true, Option, some, List, [], ◌∷◌, ◌++◌, String,
  string_dec_eq, arith, length, Option-cases,
}
use certrelay.Map.{Map, lookup, insert}
use certrelay.Store.Types.{
  Zone, Sig, Codec, Certificate, HandleRecord, HandleHintRow, BulkStoreResult, Result, ok, err,
}
use certrelay.Store.State.{Store}
use certrelay.Store.Rows.{put_revs, set_revs, set_addrs}
use certrelay.Store.Rows.Indexes.{last_rev, name_of, put_revs-last_rev}
use certrelay.Handler.{Env, Handler}
use certrelay.Handler.Pass.{
  Batch, Pass, max_records_size, rev_of, collect_sig, collect, limited, charge, admit, in_space,
  with_zone, bundle, bundle_all, record_with,
}
use certrelay.Handler.Message.{
  clean_up, zone_map_from, verify_message, batch_of, start_pass, index_one, index_stored,
  handle_message_opts,
}
use certrelay.Handler.Message.Sound.{Ends, index_all_revs, handle_message_opts-Ends}

index_one-reverse :
    (c : Codec) (now : ℕ) (m : Map String (String × List (String × String))) (h : String)
    (s t : Store)
    → index_one c now m h s ≡ some t
    → t.reverse ≡ s.reverse
unfolding index_one set_addrs
index_one-reverse c now m h s t e = elim (Option-cases (lookup h m)) [
  | inl n ↦ ground (arith, n, e)
  | inr ((rev, addrs), n) ↦
      let same : set_addrs now h rev addrs s ≡ t = ground (arith, n, e) in rw (← same) refl
]

index_stored-reverse :
    (c : Codec) (now : ℕ) (m : Map String (String × List (String × String))) (hs : List String)
    (s : Store)
    → (index_stored c now m hs s).0.reverse ≡ s.reverse
unfolding index_stored
index_stored-reverse c now m [] s = refl
index_stored-reverse c now m (h ∷ hs) s = elim (Option-cases (index_one c now m h s)) [
  | inl e ↦ rw (e, index_stored) refl
  | inr (t, e) ↦
      rw (e, index_stored) (index_stored-reverse c now m hs t ∙ index_one-reverse c now m h s t e)
]

ok_same : {A : Type 0} {a b : A} → ok a ≡ ok b → a ≡ b
ok_same e = ground arith

module _ {L M : Type 0} (env : Env L M) where
  admit-revs :
      (b : Batch) (o : Option HandleHintRow) (space h : String) (u : HandleRecord) (p : Pass L)
      → (admit env b o space h u p).1.revs ≡ p.revs
  unfolding admit limited charge
  admit-revs b o space h u p = ground arith

  collect-revs :
      (h : String) (z : Zone) (g : Sig) (p : Pass L)
      → z.records.sig ≡ some g
      → (collect env h z p).revs ≡ p.revs ++ rev_of g z.num_id
  unfolding collect collect_sig
  collect-revs h z g p e = rw e refl

  bundle-revs :
      (b : Batch) (cert : Certificate) (z : Zone) (g : Sig) (p : Pass L)
      → lookup cert.subject b.zone_map ≡ some z
      → z.records.sig ≡ some g
      → length z.records.bytes ≤ max_records_size
      → (bundle env b cert p).1.revs ≡ p.revs ++ rev_of g z.num_id
  unfolding bundle with_zone in_space record_with
  bundle-revs b cert z g p k e size =
      let first = collect-revs cert.subject z g p e in
      elim (Option-cases cert.space) [
        | inl n ↦ ground (arith, k, n, first, size)
        | inr (space, q) ↦
            let w = record_with cert z (Option.get_or (lookup space b.epoch_map) 0) in
            ground (
              arith,
              k,
              q,
              size,
              first,
              admit-revs b (lookup cert.subject b.existing) space cert.subject w
                  (collect env cert.subject z p),
            )
      ]

  bundle_all-one :
      (b : Batch) (cert : Certificate) (p : Pass L)
      → (bundle_all env b (cert ∷ []) p).1 ≡ (bundle env b cert p).1
  unfolding bundle_all
  bundle_all-one b cert p = ground (arith, Option-cases (bundle env b cert p).0)

  one_rev :
      (gated : List String) (charge : Bool) (h : Handler L) (cert : Certificate) (z : Zone)
      (g : Sig) (id : String)
      → z.canonical ≡ cert.subject
      → z.records.sig ≡ some g
      → g.is_primary ≡ true
      → z.num_id ≡ some id
      → length z.records.bytes ≤ max_records_size
      → (bundle_all env
          (batch_of env gated charge h (z ∷ [], cert ∷ []))
          (cert ∷ [])
          (start_pass h)).1.revs
        ≡ (id, g.handle) ∷ []
  unfolding batch_of zone_map_from lookup insert
  one_rev gated charge h cert z g id c s q n size =
      let b = batch_of env gated charge h (z ∷ [], cert ∷ []) in
      let here : lookup cert.subject b.zone_map ≡ some z = ground (arith, c) in
      ap (λ (p : Pass L). p.revs) (bundle_all-one b cert (start_pass h))
      ∙ bundle-revs b cert z g (start_pass h) here s size
      ∙ ground (arith, q, n)

  rev_end :
      (now : ℕ) (msg : M) (gated : List String) (charge : Bool) (h : Handler L)
      (end : Handler L × Result BulkStoreResult) (r : BulkStoreResult) (cert : Certificate)
      (z : Zone) (g : Sig) (id : String)
      → Ends env now msg gated charge h end
      → end.1 ≡ ok r
      → verify_message env msg (clean_up env h) ≡ ok (z ∷ [], cert ∷ [])
      → z.canonical ≡ cert.subject
      → z.records.sig ≡ some g
      → g.is_primary ≡ true
      → z.num_id ≡ some id
      → length z.records.bytes ≤ max_records_size
      → name_of (lookup id end.0.store.reverse) ≡ some g.handle
  unfolding set_revs last_rev
  rev_end now msg gated charge h (after, err x) r cert z g id w e v c s q n size = ground arith
  rev_end now msg gated charge h (after, ok result) r cert z g id (w, _, i) e v c s q n size =
      let h' = clean_up env h in
      let names : List Zone × List Certificate → List (String × String) =
        λ res. (bundle_all env (batch_of env gated charge h' res) res.1 (start_pass h')).1.revs in
      let same : w.res ≡ (z ∷ [], cert ∷ []) = ok_same (sym w.verified ∙ v) in
      let revs : names w.res ≡ (id, g.handle) ∷ [] =
        ap names same ∙ one_rev gated charge h' cert z g id c s q n size in
      let p = bundle_all env (batch_of env gated charge h' w.res) w.res.1 (start_pass h') in
      let (t, put, stored) = index_all_revs env.codec now p.1 w.counts.stored_handles w.stored i in
      let left : after.store.reverse ≡ (set_revs now (names w.res) w.stored).reverse =
        ap (λ (t : Store). t.reverse) w.indexed
        ∙ ap (λ (r : Store × Bool). r.0.reverse) stored
        ∙ index_stored-reverse env.codec now p.1.addr_index w.counts.stored_handles t
        ∙ put in
      ap (λ m. name_of (lookup id m)) left
      ∙ ap (λ xs. name_of (lookup id (put_revs now xs w.stored.reverse))) revs
      ∙ put_revs-last_rev now id ((id, g.handle) ∷ []) w.stored.reverse
      ∙ ground arith

  -- A verified zone with a primary Sig record, whose records have at most 1024 bytes and which is sent
  -- alone, becomes the reverse name of its number in
  -- every call that succeeds, also when the zone itself is not stored: because the stored zone is better,
  -- because it is an exact duplicate, or because the gate or a rate limit stopped it.
  pub handle_message_opts_reverse :
      (now : ℕ) (msg : M) (gated : List String) (charge : Bool) (h : Handler L)
      (r : BulkStoreResult) (cert : Certificate) (z : Zone) (g : Sig) (id : String)
      → (handle_message_opts env now msg gated charge h).1 ≡ ok r
      → verify_message env msg (clean_up env h) ≡ ok (z ∷ [], cert ∷ [])
      → z.canonical ≡ cert.subject
      → z.records.sig ≡ some g
      → g.is_primary ≡ true
      → z.num_id ≡ some id
      → length z.records.bytes ≤ max_records_size
      → name_of (lookup id (handle_message_opts env now msg gated charge h).0.store.reverse)
        ≡ some g.handle
  handle_message_opts_reverse now msg gated charge h r cert z g id =
      rev_end now msg gated charge h (handle_message_opts env now msg gated charge h) r cert z g id
        (handle_message_opts-Ends env now msg gated charge h)
