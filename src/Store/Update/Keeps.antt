-- ===== src/Store/Update/Keeps.antt =====
-- What `update_handles` of relay/src/store.rs leaves alone.
use certrelay.Prelude.{
  ℕ, suc, ◌+◌, ◌-◌, ◌≡◌, ◌∙◌, inl, inr, List, [], ◌∷◌, map, length, String, string_dec_eq, arith,
}
use certrelay.Map.{Map}
use certrelay.Store.Types.{Codec, HandleRecord, BulkStoreResult, Row, ok, Result-cases}
use certrelay.Store.State.{Store, count_insert, count_delete, delete_row, put_row}
use certrelay.Store.Update.{
  Prepared, prepare_all, stored_zones, insert_bulk, insert_bulk-ok, accept_all, row_of, cert_of,
  insert_all, write_all, update_handles,
}

put_row-watermarks :
    (h : String) (r : Row) (s : Store) → (put_row h r s).sync_watermarks ≡ s.sync_watermarks
unfolding put_row count_insert delete_row count_delete
put_row-watermarks h r s = ground arith

insert_all-watermarks :
    (c : Codec) (now base : ℕ) (before : Map String Row) (es : List Prepared) (s t : Store)
    → insert_all c now before base es s ≡ ok t
    → t.sync_watermarks ≡ s.sync_watermarks
unfolding insert_all
insert_all-watermarks c now base before [] s t e = ground arith
insert_all-watermarks c now base before (x ∷ es) s t e = elim (Result-cases (cert_of before x)) [
  | inr (f, p) ↦ ground (arith, p)
  | inl (d, p) ↦
      let u = put_row x.handle (row_of c now (suc base) d x) s in
      insert_all-watermarks c now (suc base) before es u t (ground (arith, p))
      ∙ put_row-watermarks x.handle (row_of c now (suc base) d x) s
]

write_all-watermarks :
    (c : Codec) (now skipped : ℕ) (es : List Prepared) (s t : Store) (r : BulkStoreResult)
    → write_all c now skipped es s ≡ ok (t, r)
    → t.sync_watermarks ≡ s.sync_watermarks
unfolding write_all
write_all-watermarks c now skipped [] s t r e = ground arith
write_all-watermarks c now skipped (x ∷ es) s t r e =
    let bumped = record s { sync_counter = s.sync_counter + length (x ∷ es) } in
    elim (Result-cases (insert_bulk c now s.handles s.sync_counter (x ∷ es) bumped)) [
      | inr (f, p) ↦ ground (arith, p)
      | inl (u, p) ↦ ground (
        arith,
        p,
        insert_all-watermarks c now s.sync_counter s.handles (x ∷ es) bumped u
            (insert_bulk-ok c now s.handles s.sync_counter (x ∷ es) bumped u p),
      )
    ]

pub update_handles-watermarks :
    (c : Codec) (now : ℕ) (us : List HandleRecord) (s t : Store) (r : BulkStoreResult)
    → update_handles c now us s ≡ ok (t, r)
    → t.sync_watermarks ≡ s.sync_watermarks
unfolding update_handles
update_handles-watermarks c now us s t r e = elim (Result-cases (prepare_all c us)) [
  | inr (x, p) ↦ ground (arith, p)
  | inl (es, p) ↦
      let hs = map (λ (x : Prepared × HandleRecord). x.0.handle) es in
      elim (Result-cases (stored_zones c now s.handles hs)) [
        | inr (x, q) ↦ ground (arith, p, q)
        | inl (zones, q) ↦
            let kept = accept_all c now zones es in
            write_all-watermarks c now (length us - length kept) kept s t r (ground (arith, p, q))
      ]
]
