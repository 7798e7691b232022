-- ===== src/Handler/Message/Gate.antt =====
-- Which rows `handle_message_opts` of relay/src/handler.rs lets into the store.
use mathlib.Core.Option
use certrelay.Prelude.{
  ℕ, ◌≡◌, ◌≤◌, refl, ◌∙◌, ap, ◌⊎◌, inl, inr, Bool, false, Option, none, some, List, [], ◌∷◌, map,
  dec_eq, length, All, String, string_dec_eq, arith, Option-cases,
}
use certrelay.Map.{Map, lookup, insert, retain}
use certrelay.Map.Laws.{lookup-insert}
use certrelay.Store.Types.{
  Bytes, Zone, Certificate, HandleRecord, HandleHintRow, Row, BulkStoreResult, Result, ok, err,
}
use certrelay.Store.State.{Store}
use certrelay.Store.Pages.{contains}
use certrelay.Store.Update.Origin.{Allowed, update_handles-FromBefore}
use certrelay.Store.Rows.{rows_in, hint_row, get_handle_hints}
use certrelay.Handler.{Env, Handler}
use certrelay.Handler.Pass.{
  Batch, Pass, max_records_size, collect, record_with, charge, is_duplicate, limited, admit,
  in_space, with_zone, bundle, bundle_all,
}
use certrelay.Handler.Message.{
  clean_up, zone_map_from, existing_rows, verify_message, batch_of, start_pass, handle_message_opts,
}
use certrelay.Handler.Message.Sound.{Ends, Success, clean_up-store, handle_message_opts-Ends}

-- A verified zone of this name is among the zones, with records of an accepted size and as `P` wants it.
abbrev pub Named : String → (Zone → Type 0) → List Zone → Type 0
Named h P [] = ⊥
Named h P (z ∷ zs) =
    ((z.canonical ≡ h) × (length z.records.bytes ≤ max_records_size) × P z) ⊎ Named h P zs

existing-none :
    (h : String) (hs : List String) (m : Map String Row)
    → lookup h m ≡ none
    → lookup h (map (λ r. (r.handle, r)) (map hint_row (rows_in hs m))) ≡ none
unfolding rows_in lookup retain
existing-none h hs [] e = refl
existing-none h hs ((g, r) ∷ m) e = ground (arith, existing-none h hs m)

zone_map-lookup :
    (h : String) (P : Zone → Type 0) (zs : List Zone) (m : Map String Zone) (z : Zone)
    → lookup h (zone_map_from zs m) ≡ some z
    → length z.records.bytes ≤ max_records_size
    → P z
    → (lookup h m ≡ some z) ⊎ Named h P zs
unfolding zone_map_from
zone_map-lookup h P [] m z e b w = inl e
zone_map-lookup h P (y ∷ zs) m z e b w =
    elim (zone_map-lookup h P zs (insert y.canonical y m) z e b w) [
      | inr n ↦ inr (inr n)
      | inl f ↦ elim (dec_eq y.canonical h) [
        | no other ↦ inl (ground (arith, f, lookup-insert h y.canonical y m, other))
        | yes same ↦
            let here : y ≡ z = ground (arith, f, lookup-insert h y.canonical y m, same) in
            inr (inl (same, rw here b, rw here w))
      ]
    ]

module _ {L M : Type 0} (env : Env L M) where
  -- The bytes are the zone, or the zone with the records of the one that is stored under the name.
  abbrev pub WrittenAs : Store → String → Bytes → Zone → Type 0
  WrittenAs s h bytes z =
      (env.codec.zone_to_vec z ≡ some bytes)
      ⊎ ((r : Row) × (old : Zone) × (lookup h s.handles ≡ some r)
          × (env.codec.zone_from_slice r.zone_data ≡ some old)
          × (env.codec.zone_to_vec (record z { records = old.records }) ≡ some bytes))

  -- What the closure lets through.
  record Passed (b : Batch) (cert : Certificate) (u : HandleRecord) : Type 0 where
    same : u.cert ≡ cert
    zone : Zone
    brought : u.zone ≡ zone
    verified : lookup cert.subject b.zone_map ≡ some zone
    size : length zone.records.bytes ≤ max_records_size
    open_space :
        (space : String)
        → cert.space ≡ some space
        → lookup cert.subject b.existing ≡ none
        → contains b.gated_spaces space ≡ false

  limited-same :
      (b : Batch) (o : Option HandleHintRow) (space h : String) (u w : HandleRecord) (p : Pass L)
      → (limited env b o space h u p).0 ≡ some w
      → w ≡ u
  unfolding limited
  limited-same b o space h u w p e = ground arith

  admit-same :
      (b : Batch) (o : Option HandleHintRow) (space h : String) (u w : HandleRecord) (p : Pass L)
      → (admit env b o space h u p).0 ≡ some w
      → (w ≡ u) × (o ≡ none → contains b.gated_spaces space ≡ false)
  unfolding admit is_duplicate
  admit-same b o space h u w p e = ground (arith, limited-same b o space h u w p)

  bundle-Passed :
      (b : Batch) (cert : Certificate) (u : HandleRecord) (p : Pass L)
      → (bundle env b cert p).0 ≡ some u
      → Passed b cert u
  unfolding bundle with_zone in_space record_with
  bundle-Passed b cert u p e = elim (Option-cases (lookup cert.subject b.zone_map)) [
    | inl n ↦ ground (arith, n)
    | inr (z, k) ↦ elim (Option-cases cert.space) [
      | inl n ↦ ground (arith, k, n)
      | inr (space, q) ↦
          let w = record_with cert z (Option.get_or (lookup space b.epoch_map) 0) in
          let step =
            admit-same b (lookup cert.subject b.existing) space cert.subject w u
              (collect env cert.subject z p) in
          record {
            same = ground (arith, k, q, step);
            zone = z;
            brought = ground (arith, k, q, step);
            verified = k;
            size = ground (arith, k);
            open_space = λ s f g. ground (arith, k, q, step, f, g);
          }
    ]
  ]

  -- What a certificate has to bring so that its row may be written.
  abbrev AsBatch : Batch → Store → String → String → Bytes → Type 0
  AsBatch b s h space bytes =
      ((z : Zone) × (lookup h b.zone_map ≡ some z)
        × (length z.records.bytes ≤ max_records_size)
        × WrittenAs s h bytes z)
      × (lookup h b.existing ≡ none → contains b.gated_spaces space ≡ false)

  bundle_all-Allowed :
      (b : Batch) (certs : List Certificate) (p : Pass L) (s : Store)
      → All (Allowed env.codec s.handles (AsBatch b s)) (bundle_all env b certs p).0
  unfolding bundle_all
  bundle_all-Allowed b [] p s = tt
  bundle_all-Allowed b (x ∷ xs) p s =
      let rest = bundle_all-Allowed b xs (bundle env b x p).1 s in
      elim (Option-cases (bundle env b x p).0) [
        | inl n ↦ rw (n, bundle_all) rest
        | inr (u, e) ↦
            let w = bundle-Passed b x u p e in
            let ok_entry : Allowed env.codec s.handles (AsBatch b s) u =
              λ space bytes placed written.
                let there : u.cert.subject ≡ x.subject =
                  ap (λ (c : Certificate). c.subject) w.same in
                let from : WrittenAs s u.cert.subject bytes w.zone = rw (← w.brought) written in
                (
                  (w.zone, rw there w.verified, w.size, from),
                  rw there (w.open_space space (rw (← w.same) placed)),
                ) in
            rw (e, bundle_all) (ok_entry, rest)
      ]

  -- Where a row comes from that a call leaves.
  abbrev pub Entered : M → List String → Handler L → String → Row → Type 0
  Entered msg gated h j r =
      (lookup j h.store.handles ≡ some r)
      ⊎ ((res : List Zone × List Certificate) × (verify_message env msg (clean_up env h) ≡ ok res)
          × Named j (WrittenAs h.store j r.zone_data) res.0
          × (lookup j h.store.handles ≡ none → contains gated r.space ≡ false))

  stored_row :
      (now : ℕ) (msg : M) (gated : List String) (charge : Bool) (h after : Handler L)
      (w : Success env now msg gated charge h after) (j : String) (r : Row)
      → lookup j after.store.handles ≡ some r
      → Entered msg gated h j r
  unfolding batch_of existing_rows get_handle_hints lookup
  stored_row now msg gated charge h after w j r e =
      let h' = clean_up env h in
      let b = batch_of env gated charge h' w.res in
      let same = clean_up-store env h in
      let origin =
        update_handles-FromBefore env.codec h'.store.handles (AsBatch b h'.store) now _ _ w.stored
          w.counts refl w.written (bundle_all-Allowed b w.res.1 (start_pass h') h'.store) in
      elim (origin j r (rw (← w.same_rows.handles) e)) [
        | inl before ↦ inl (rw (← same) before)
        | inr ((z, f, size, written), gate) ↦
            elim (zone_map-lookup j (WrittenAs h.store j r.zone_data) w.res.0 [] z f size
              (rw same at written)) [
                | inl k ↦ ground (arith, k)
                | inr named ↦ inr (
                  w.res,
                  w.verified,
                  named,
                  λ new. gate (
                      existing-none j (map (λ x. x.subject) w.res.1) h'.store.handles
                        (ap (λ (s : Store). lookup j s.handles) same ∙ new)),
                )
              ]
      ]

  new_row :
      (now : ℕ) (msg : M) (gated : List String) (charge : Bool) (h : Handler L)
      (end : Handler L × Result BulkStoreResult)
      → Ends env now msg gated charge h end
      → (j : String) (r : Row) → lookup j end.0.store.handles ≡ some r
      → Entered msg gated h j r
  new_row now msg gated charge h (after, err x) (inl w) j r e = inl (rw (← w) e)
  new_row now msg gated charge h (after, err x) (inr w) j r e =
      stored_row now msg gated charge h after w.1 j r e
  new_row now msg gated charge h (after, ok result) w j r e =
      stored_row now msg gated charge h after w.0 j r e

  -- Nothing but verified data enters the store: each row after a call is one from before, or libveritas
  -- verified from this message a zone of its name, with records of at most 1024 bytes, and the zone
  -- data of the row are that zone, or that zone with its records replaced by those of the zone that was
  -- stored. A handle that had no row gets none in a gated space.
  pub handle_message_opts-Named :
      (now : ℕ) (msg : M) (gated : List String) (charge : Bool) (h : Handler L) (j : String)
      (r : Row)
      → lookup j (handle_message_opts env now msg gated charge h).0.store.handles ≡ some r
      → Entered msg gated h j r
  handle_message_opts-Named now msg gated charge h j r e =
      new_row now msg gated charge h (handle_message_opts env now msg gated charge h)
        (handle_message_opts-Ends env now msg gated charge h) j r e
