-- ===== src/Store/State/Accounting.antt =====
-- The accounting tables of relay/src/store.rs agree with the rows, whatever is inserted, replaced or
-- deleted.
use certrelay.Prelude.{
  ℕ, suc, ◌-◌, ◌≡◌, Option-cases, inl, inr, none, some, ite, dec_eq, length, String, string_dec_eq,
  arith,
}
use certrelay.Map.{lookup, insert, remove, Distinct}
use certrelay.Map.Laws.{
  lookup-insert, lookup-modify, lookup-remove, insert-Distinct, remove-Distinct, length-insert,
  length-remove,
}
use certrelay.Store.Types.{Row, Bucket, bucket_dec_eq}
use certrelay.Store.State.{
  Store, count_of, row_bytes, bucket_of, count_insert, count_delete, delete_row, put_row,
}
use certrelay.Store.State.Totals.{total, total-remove, total-insert}

abbrev pub in_bucket : Bucket → Row → ℕ
in_bucket b r = ite (dec_eq (bucket_of r) b) 1 0

-- One entry for each handle, and totals and counts that are those of the rows.
pub record Accounts (s : Store) : Type 0 where
  pub distinct : Distinct s.handles
  pub rows : s.total_rows ≡ length s.handles
  pub bytes : s.total_bytes ≡ total row_bytes s.handles
  pub counts :
      (b : Bucket) → count_of (lookup b s.space_epoch_counts) ≡ total (in_bucket b) s.handles

pub delete_row-Accounts : (h : String) (s : Store) → Accounts s → Accounts (delete_row h s)
unfolding delete_row count_delete
delete_row-Accounts h s v = elim (Option-cases (lookup h s.handles)) [
  | inl e ↦ rw (e, delete_row) v
  | inr (r, e) ↦
      rw (e, delete_row)
        (record {
          distinct = remove-Distinct h s.handles v.distinct;
          rows = ground (arith, length-remove h s.handles v.distinct, v.rows);
          bytes = ground (arith, total-remove row_bytes h r s.handles v.distinct e, v.bytes);
          counts = λ b. ground (
            arith,
            total-remove (in_bucket b) h r s.handles v.distinct e,
            lookup-modify b (bucket_of r) (λ (n : ℕ). n - 1) s.space_epoch_counts,
            v.counts b,
          );
        })
]

lookup-delete_row : (h : String) (s : Store) → lookup h (delete_row h s).handles ≡ none
unfolding delete_row count_delete
lookup-delete_row h s = elim (Option-cases (lookup h s.handles)) [
  | inl e ↦ rw (e, delete_row) e
  | inr (r, e) ↦ rw (e, delete_row) (ground (arith, lookup-remove h h s.handles))
]

insert_new-Accounts :
    (h : String) (r : Row) (s : Store)
    → Accounts s
    → lookup h s.handles ≡ none
    → Accounts (count_insert r (record s { handles = insert h r s.handles }))
unfolding count_insert
insert_new-Accounts h r s v new = record {
  distinct = insert-Distinct h r s.handles v.distinct;
  rows = ground (arith, length-insert h r s.handles, v.rows);
  bytes = ground (arith, total-insert row_bytes h r s.handles new, v.bytes);
  counts = λ b. ground (
    arith,
    total-insert (in_bucket b) h r s.handles new,
    lookup-insert b (bucket_of r) (suc (count_of (lookup (bucket_of r) s.space_epoch_counts)))
        s.space_epoch_counts,
    v.counts b,
  );
}

pub put_row-Accounts : (h : String) (r : Row) (s : Store) → Accounts s → Accounts (put_row h r s)
unfolding put_row
put_row-Accounts h r s v =
    insert_new-Accounts h r (delete_row h s) (delete_row-Accounts h s v) (lookup-delete_row h s)

-- What the statements do to the rows.
pub lookup-put_row :
    (j h : String) (r : Row) (s : Store)
    → lookup j (put_row h r s).handles ≡ ite (dec_eq h j) (some r) (lookup j s.handles)
unfolding put_row count_insert delete_row count_delete
lookup-put_row j h r s = ground (
  arith,
  lookup-insert j h r (delete_row h s).handles,
  lookup-insert j h r s.handles,
  lookup-insert j h r (remove h s.handles),
  lookup-remove j h s.handles,
)

pub put_row-counter :
    (h : String) (r : Row) (s : Store) → (put_row h r s).sync_counter ≡ s.sync_counter
unfolding put_row count_insert delete_row count_delete
put_row-counter h r s = ground arith
