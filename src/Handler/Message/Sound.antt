-- ===== src/Handler/Message/Sound.antt =====
-- `handle_message_opts` of relay/src/handler.rs leaves a sound store, whatever happens.
use certrelay.Prelude.{
  ℕ, ◌+◌, ◌≡◌, refl, ◌∙◌, ap, Bool, List, [], ◌∷◌, String, string_dec_eq, arith, inl, inr,
  Option-cases, Bool-cases, none, some, true, ◌⊎◌, length,
}
use certrelay.Map.{Map, lookup}
use certrelay.Store.Types.{
  Zone, Codec, HandleRecord, sql_failed, write_reverse, Certificate, BulkStoreResult, Result, ok,
  err, Result-cases,
}
use certrelay.Store.State.{Store}
use certrelay.Store.Update.{update_handles}
use certrelay.Store.Update.Sequence.{IsSound, update_handles-Updated}
use certrelay.Store.Update.Keeps.{update_handles-watermarks}
use certrelay.Store.Rows.{set_revs, set_addrs, put_revs}
use certrelay.Handler.{Env, Handler}
use certrelay.Handler.Pass.{Pass, bundle_all}
use certrelay.Handler.Message.{
  clean_up, verify_message, batch_of, start_pass, write_revs, index_one, index_stored, index_all,
  finish, store_verified, on_verified, handle_message_opts,
}

-- The rows, their counters and the watermarks are the same.
pub record SameRows (s t : Store) : Type 0 where
  pub handles : t.handles ≡ s.handles
  pub counter : t.sync_counter ≡ s.sync_counter
  pub watermarks : t.sync_watermarks ≡ s.sync_watermarks
  pub counts : t.space_epoch_counts ≡ s.space_epoch_counts
  pub rows : t.total_rows ≡ s.total_rows
  pub bytes : t.total_bytes ≡ s.total_bytes

set_addrs-SameRows :
    (now : ℕ) (h rev : String) (xs : List (String × String)) (s t : Store)
    → SameRows s t
    → SameRows s (set_addrs now h rev xs t)
unfolding set_addrs
set_addrs-SameRows now h rev xs s t v = ground arith

SameRows-trans : (s t u : Store) → SameRows s t → SameRows t u → SameRows s u
SameRows-trans s t u v w = record {
  handles = w.handles ∙ v.handles;
  counter = w.counter ∙ v.counter;
  watermarks = w.watermarks ∙ v.watermarks;
  counts = w.counts ∙ v.counts;
  rows = w.rows ∙ v.rows;
  bytes = w.bytes ∙ v.bytes;
}

SameRows-refl : (s : Store) → SameRows s s
SameRows-refl s = record {
  handles = refl;
  counter = refl;
  watermarks = refl;
  counts = refl;
  rows = refl;
  bytes = refl;
}

index_one-SameRows :
    (c : Codec) (now : ℕ) (m : Map String (String × List (String × String))) (h : String)
    (s t u : Store)
    → SameRows s t
    → index_one c now m h t ≡ some u
    → SameRows s u
unfolding index_one
index_one-SameRows c now m h s t u v e = elim (Option-cases (lookup h m)) [
  | inl n ↦ let same : t ≡ u = ground (arith, n, e) in rw (← same) v
  | inr ((rev, addrs), n) ↦
      let same : set_addrs now h rev addrs t ≡ u = ground (arith, n, e) in
      rw (← same) (set_addrs-SameRows now h rev addrs s t v)
]

index_stored-SameRows :
    (c : Codec) (now : ℕ) (m : Map String (String × List (String × String))) (hs : List String)
    (s t : Store)
    → SameRows s t
    → SameRows s (index_stored c now m hs t).0
unfolding index_stored
index_stored-SameRows c now m [] s t v = v
index_stored-SameRows c now m (h ∷ hs) s t v = elim (Option-cases (index_one c now m h t)) [
  | inl e ↦ rw (e, index_stored) v
  | inr (u, e) ↦
      rw (e, index_stored)
        (index_stored-SameRows c now m hs s u (index_one-SameRows c now m h s t u v e))
]

set_revs-SameRows :
    (now : ℕ) (xs : List (String × String)) (s : Store) → SameRows s (set_revs now xs s)
unfolding set_revs
set_revs-SameRows now xs s = ground arith

write_revs-cases :
    (c : Codec) (now : ℕ) (xs : List (String × String)) (s : Store)
    → (write_revs c now xs s ≡ none)
      ⊎ ((t : Store) × (write_revs c now xs s ≡ some t)
          × (t.reverse ≡ (set_revs now xs s).reverse)
          × SameRows s t)
unfolding write_revs set_revs put_revs
write_revs-cases c now [] s = inr (s, refl, refl, SameRows-refl s)
write_revs-cases c now (x ∷ xs) s =
    elim (Bool-cases (c.sql_runs now (write_reverse (length (x ∷ xs))))) [
      | inr e ↦ inl (rw (e, write_revs) refl)
      | inl e ↦
          inr (
            set_revs now (x ∷ xs) s,
            rw (e, write_revs) refl,
            refl,
            set_revs-SameRows now (x ∷ xs) s,
          )
    ]

pub SameRows-IsSound : (s t : Store) → SameRows s t → IsSound s → IsSound t
SameRows-IsSound s t v w = record {
  accounts = record {
    distinct = rw v.handles w.accounts.distinct;
    rows = rw (v.handles, v.rows) w.accounts.rows;
    bytes = rw (v.handles, v.bytes) w.accounts.bytes;
    counts = rw (v.handles, v.counts) w.accounts.counts;
  };
  sequenced = rw (v.handles, v.counter) w.sequenced;
}

-- The rows are what an update of `s` committed, which reports `r`.
abbrev pub Committed : Codec → ℕ → Store → Store → BulkStoreResult → Type 0
Committed c now s after r =
    (us : List HandleRecord) × (t : Store) × (update_handles c now us s ≡ ok (t, r))
    × SameRows t after

-- A failure leaves the store alone, unless SQLite failed on the reverse names or the addresses of
-- rows that were committed. A success has committed the rows that it reports.
abbrev pub Counted : {L : Type 0} → Codec → ℕ → Store → Handler L × Result BulkStoreResult → Type 0
Counted c now s (after, err e) =
    (after.store ≡ s)
    ⊎ ((e ≡ sql_failed)
        × (r : BulkStoreResult) × Committed c now s after.store r
        × (after.store.sync_counter ≡ s.sync_counter + r.stored))
Counted c now s (after, ok result) =
    (r : BulkStoreResult) × Committed c now s after.store r
    × (r.stored ≡ result.stored)
    × (after.store.sync_counter ≡ s.sync_counter + result.stored)

module _ {L : Type 0} where
  index_all-SameRows :
      (c : Codec) (now : ℕ) (p : Pass L) (hs : List String) (s : Store)
      → SameRows s (index_all c now p hs s).0
  unfolding index_all
  index_all-SameRows c now p hs s = elim (write_revs-cases c now p.revs s) [
    | inl e ↦ rw (e, index_all) (SameRows-refl s)
    | inr (t, e, r, v) ↦ rw (e, index_all) (index_stored-SameRows c now p.addr_index hs s t v)
  ]

  pub index_all_revs :
      (c : Codec) (now : ℕ) (p : Pass L) (hs : List String) (s : Store)
      → (index_all c now p hs s).1 ≡ true
      → (t : Store) × (t.reverse ≡ (set_revs now p.revs s).reverse)
        × (index_all c now p hs s ≡ index_stored c now p.addr_index hs t)
  unfolding index_all
  index_all_revs c now p hs s done = elim (write_revs-cases c now p.revs s) [
    | inl e ↦ ground (arith, done, e)
    | inr (t, e, r, v) ↦ (t, r, rw (e, index_all) refl)
  ]

module _ {L M : Type 0} (env : Env L M) where
  pub clean_up-store : (h : Handler L) → (clean_up env h).store ≡ h.store
  unfolding clean_up
  clean_up-store h = ground arith

  -- What a call stores: `res` is verified, `stored` is what `update_handles` leaves.
  pub record Success (now : ℕ) (msg : M) (gated : List String) (charge : Bool) (h after : Handler L)
      : Type 0 where
    pub res : List Zone × List Certificate
    pub verified : verify_message env msg (clean_up env h) ≡ ok res
    pub stored : Store
    pub counts : BulkStoreResult
    pub written :
        update_handles env.codec now
          (bundle_all env
            (batch_of env gated charge (clean_up env h) res)
            res.1
            (start_pass (clean_up env h))).0
          (clean_up env h).store
        ≡ ok (stored, counts)
    pub same_rows : SameRows stored after.store
    pub indexed :
        after.store
        ≡ (index_all env.codec now
            (bundle_all env
              (batch_of env gated charge (clean_up env h) res)
              res.1
              (start_pass (clean_up env h))).1
            counts.stored_handles
            stored).0

  -- The index writes all ran.
  abbrev pub Indexed :
      (now : ℕ) (msg : M) (gated : List String) (charge : Bool) (h after : Handler L)
      → Success now msg gated charge h after
      → Type 0
  Indexed now msg gated charge h after w =
      (index_all env.codec now
        (bundle_all env (batch_of env gated charge (clean_up env h) w.res) w.res.1
          (start_pass (clean_up env h))).1
        w.counts.stored_handles w.stored).1
      ≡ true

  abbrev pub Ends :
      ℕ → M → List String → Bool → Handler L → Handler L × Result BulkStoreResult → Type 0
  Ends now msg gated charge h (after, err e) =
      (after.store ≡ h.store) ⊎ ((e ≡ sql_failed) × Success now msg gated charge h after)
  Ends now msg gated charge h (after, ok result) =
      (w : Success now msg gated charge h after) × (result.stored ≡ w.counts.stored)
      × Indexed now msg gated charge h after w

  pub handle_message_opts-Ends :
      (now : ℕ) (msg : M) (gated : List String) (charge : Bool) (h : Handler L)
      → Ends now msg gated charge h (handle_message_opts env now msg gated charge h)
  unfolding handle_message_opts on_verified store_verified finish
  handle_message_opts-Ends now msg gated charge h =
      let h' = clean_up env h in
      elim (Result-cases (verify_message env msg h')) [
        | inr (f, e) ↦ rw (e, handle_message_opts, on_verified) (inl (clean_up-store h))
        | inl (res, e) ↦
            let p = bundle_all env (batch_of env gated charge h' res) res.1 (start_pass h') in
            elim (Result-cases (update_handles env.codec now p.0 h'.store)) [
              | inr (f, k) ↦ rw (e, k) (inl (clean_up-store h))
              | inl ((s, r), k) ↦
                  let rows = index_all-SameRows env.codec now p.1 r.stored_handles s in
                  let w : (after : Handler L)
                      → after.store ≡ (index_all env.codec now p.1 r.stored_handles s).0
                      → Success now msg gated charge h after =
                    λ after same. record {
                      res = res;
                      verified = e;
                      stored = s;
                      counts = r;
                      written = k;
                      same_rows = rw same rows;
                      indexed = same;
                    } in
                  elim (Bool-cases (index_all env.codec now p.1 r.stored_handles s).1) [
                    | inl i ↦ rw (e, k, i) (w _ refl, refl, i)
                    | inr i ↦ rw (e, k, i) (inr (refl, w _ refl))
                  ]
            ]
      ]

  -- What a call that stores leaves.
  abbrev Stored : ℕ → Store → Store → BulkStoreResult → Type 0
  Stored now s after r =
      IsSound after
      × Committed env.codec now s after r
      × (after.sync_counter ≡ s.sync_counter + r.stored)
      × (after.sync_watermarks ≡ s.sync_watermarks)

  Success-Stored :
      (now : ℕ) (msg : M) (gated : List String) (charge : Bool) (h after : Handler L)
      (w : Success now msg gated charge h after)
      → IsSound h.store
      → Stored now h.store after.store w.counts
  Success-Stored now msg gated charge h after w v =
      let same = clean_up-store h in
      let written = rw same at w.written in
      let u = update_handles-Updated env.codec now _ h.store w.stored w.counts written v in
      (
        SameRows-IsSound w.stored after.store w.same_rows u.sound,
        (_, w.stored, written, w.same_rows),
        w.same_rows.counter ∙ u.counter,
        w.same_rows.watermarks
            ∙ update_handles-watermarks env.codec now _ h.store w.stored w.counts written,
      )

  Ends-IsSound :
      (now : ℕ) (msg : M) (gated : List String) (charge : Bool) (h : Handler L)
      (end : Handler L × Result BulkStoreResult)
      → Ends now msg gated charge h end
      → IsSound h.store
      → IsSound end.0.store
        × Counted env.codec now h.store end
        × (end.0.store.sync_watermarks ≡ h.store.sync_watermarks)
  Ends-IsSound now msg gated charge h (after, err e) (inl w) v =
      (rw w v, inl w, ap (λ (s : Store). s.sync_watermarks) w)
  Ends-IsSound now msg gated charge h (after, err e) (inr (f, w)) v =
      let (sound, rows, counter, marks) = Success-Stored now msg gated charge h after w v in
      (sound, inr (f, w.counts, rows, counter), marks)
  Ends-IsSound now msg gated charge h (after, ok result) (w, n, i) v =
      let (sound, rows, counter, marks) = Success-Stored now msg gated charge h after w v in
      (sound, (w.counts, rows, ground (arith, n), ground (arith, n, counter)), marks)

  -- However a call ends, it leaves a sound store: the accounting tables agree with the rows and the
  -- sequence numbers stay distinct and covered by the write counter. A call that fails leaves the
  -- store as it was, unless SQLite failed on the reverse names or the addresses: then the rows of an
  -- update are committed all the same. One that succeeds has committed its rows. The counter advances
  -- by the number of rows that the update reports, which a success passes on, and the watermarks stay.
  pub handle_message_opts-IsSound :
      (now : ℕ) (msg : M) (gated : List String) (charge : Bool) (h : Handler L)
      → IsSound h.store
      → IsSound (handle_message_opts env now msg gated charge h).0.store
        × Counted env.codec now h.store (handle_message_opts env now msg gated charge h)
        × ((handle_message_opts env now msg gated charge h).0.store.sync_watermarks
            ≡ h.store.sync_watermarks)
  handle_message_opts-IsSound now msg gated charge h v =
      Ends-IsSound now msg gated charge h (handle_message_opts env now msg gated charge h)
        (handle_message_opts-Ends now msg gated charge h) v
