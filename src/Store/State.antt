-- ===== src/Store/State.antt =====
-- The tables of relay/src/store.rs and the statements on the table `handles` with their triggers.
-- Counters are numbers: the accounting theorems show that no subtraction goes below zero.
pub mod Totals
pub mod Accounting
use certrelay.Prelude.{
  ℕ, suc, ◌+◌, ◌-◌, Option, none, some, List, [], ◌∷◌, length, String, string_dec_eq,
}
use certrelay.Map.{Map, lookup, insert, remove, modify}
use certrelay.Store.Types.{Bytes, Row, Bucket, bucket, bucket_dec_eq, AddrRow}

pub record Store : Type 0 where
  pub handles : Map String Row
  pub sync_counter : ℕ
  pub sync_watermarks : Map String (ℕ × ℕ)
  pub reverse : Map String (String × ℕ)
  pub addrs : List AddrRow
  pub space_epoch_counts : Map Bucket ℕ
  pub total_rows : ℕ
  pub total_bytes : ℕ

abbrev pub empty : Store
empty = record {
  handles = [];
  sync_counter = 0;
  sync_watermarks = [];
  reverse = [];
  addrs = [];
  space_epoch_counts = [];
  total_rows = 0;
  total_bytes = 0;
}

abbrev pub count_of : Option ℕ → ℕ
count_of none = 0
count_of (some n) = n

abbrev pub row_bytes : Row → ℕ
row_bytes r = length r.cert_data + length r.zone_data

abbrev pub bucket_of : Row → Bucket
bucket_of r = bucket r.space r.epoch_height

-- The trigger `handles_count_insert`.
unfoldable pub count_insert : Row → Store → Store
count_insert r s = record s {
  space_epoch_counts =
      insert (bucket_of r) (suc (count_of (lookup (bucket_of r) s.space_epoch_counts)))
        s.space_epoch_counts;
  total_rows = s.total_rows + 1;
  total_bytes = s.total_bytes + length r.cert_data + length r.zone_data;
}

-- The trigger `handles_count_delete`.
unfoldable pub count_delete : Row → Store → Store
count_delete r s = record s {
  space_epoch_counts = modify (bucket_of r) (λ n. n - 1) s.space_epoch_counts;
  total_rows = s.total_rows - 1;
  total_bytes = s.total_bytes - length r.cert_data - length r.zone_data;
}

-- `DELETE FROM handles WHERE handle = ?`.
unfoldable pub delete_row : String → Store → Store
unfolding count_delete
delete_row h s = elim (lookup h s.handles) [
  | none ↦ s
  | some r ↦ count_delete r (record s { handles = remove h s.handles })
]

-- `INSERT OR REPLACE INTO handles`, with recursive triggers.
unfoldable pub put_row : String → Row → Store → Store
unfolding delete_row count_insert
put_row h r s =
    let cleared = delete_row h s in
    count_insert r (record cleared { handles = insert h r cleared.handles })
