-- ===== src/Store/Update.antt =====
-- `update_handles` of relay/src/store.rs: which of the incoming records replace stored ones, what is
-- kept of those, and the rows that are written.
pub mod Merge
pub mod Sequence
pub mod Returns
pub mod Origin
pub mod Keeps
use mathlib.Core.Option
use certrelay.Prelude.{
  ℕ, suc, ◌+◌, ◌-◌, ◌*◌, ◌≡◌, arith, Bool, true, false, not, ◌&&◌, ◌||◌, Option, none, some, List,
  [], ◌∷◌, map, ltb, leb, if◌then◌else◌, eqb, ite, dec_eq, DecEq, length, String, string_dec_eq,
  ℕ_discrete,
}
use certrelay.Map.{Map, lookup, insert}
use certrelay.Store.Types.{
  Bytes, SovereigntyState, sovereign, pending, dependent, RecordSet, Zone, Certificate, Codec,
  HandleRecord, BulkStoreResult, Row, StoreError, missing_space, serialize_failed,
  deserialize_failed, constraint_failed, sql_failed, select_zones, insert_rows, Result, ok, err,
  ◌>>=◌, or_fail,
}
use certrelay.Store.State.{Store, put_row}

unfoldable pub bytes_discrete : Discrete Bytes
bytes_discrete = hlevel ℕ_discrete

instance abbrev pub bytes_dec_eq : DecEq Bytes
bytes_dec_eq = record { same = bytes_discrete }

pub record Prepared : Type 0 where
  pub handle : String
  pub space : String
  pub cert_data : Bytes
  pub zone_data : Bytes
  pub epoch_height : ℕ
  pub offchain_seq : ℕ
  pub delegate_offchain_seq : ℕ
  pub preserve_cert : Bool

unfoldable pub prepare : Codec → HandleRecord → Result Prepared
prepare c u = do
  space ← or_fail u.cert.space missing_space
  cert_data ← or_fail (c.cert_to_vec u.cert) serialize_failed
  zone_data ← or_fail (c.zone_to_vec u.zone) serialize_failed
  ok (record {
    handle = u.cert.subject;
    space = space;
    cert_data = cert_data;
    zone_data = zone_data;
    epoch_height = u.epoch_height;
    offchain_seq = u.offchain_seq;
    delegate_offchain_seq = u.delegate_offchain_seq;
    preserve_cert = false;
  })

-- Each update with what was prepared for it.
unfoldable pub prepare_all : Codec → List HandleRecord → Result (List (Prepared × HandleRecord))
unfolding prepare
prepare_all c [] = ok []
prepare_all c (u ∷ us) =
    let rest = prepare_all c us in do e ← prepare c u; es ← rest; ok ((e, u) ∷ es)

-- `get_zones_inner`: the stored zones of the handles.
unfoldable pub get_zones_inner : Codec → Map String Row → List String → Result (Map String Zone)
get_zones_inner c rows [] = ok []
get_zones_inner c rows (h ∷ hs) =
    let rest = get_zones_inner c rows hs in
    elim (lookup h rows) [
      | none ↦ rest
      | some r ↦ do
        zone ← or_fail (c.zone_from_slice r.zone_data) deserialize_failed
        zones ← rest
        ok (insert h zone zones)
    ]

-- The SELECT over the handles, of which there is none for no handles.
unfoldable pub stored_zones : Codec → ℕ → Map String Row → List String → Result (Map String Zone)
unfolding get_zones_inner
stored_zones c now rows [] = ok []
stored_zones c now rows (h ∷ hs) =
    if c.sql_runs now (select_zones (length (h ∷ hs)))
    then get_zones_inner c rows (h ∷ hs)
    else err sql_failed

unfoldable pub sovereignty_rank : SovereigntyState → ℕ
sovereignty_rank sovereign = 2
sovereignty_rank pending = 1
sovereignty_rank dependent = 0

unfoldable pub same_root : Option (ℕ × Bytes) → Option (ℕ × Bytes) → Bool
same_root (some (_, x)) (some (_, y)) = eqb x y
same_root (some _) none = false
same_root none _ = false

unfoldable pub same_commitment_root : Zone → Zone → Bool
unfolding same_root
same_commitment_root a b = same_root a.commitment b.commitment

abbrev pub seq_of : RecordSet → ℕ
seq_of r = Option.get_or r.seq 0

abbrev pub is_empty : RecordSet → Bool
is_empty r = elim r.bytes [ [] ↦ true | _ ∷ _ ↦ false ]

-- A strictly fresher proof from the same key that does not lower the finality.
unfoldable pub fresher_proof : Zone → Zone → Bool
unfolding sovereignty_rank
fresher_proof z old =
    eqb z.script_pubkey old.script_pubkey
    && ltb old.anchor z.anchor
    && leb (sovereignty_rank old.sovereignty) (sovereignty_rank z.sovereignty)

unfoldable pub is_better : Codec → Zone → Zone → Bool
is_better c z old = Option.get_or (c.is_better_than z old) false

-- The stored records outlive the update: same key, and fresher than the incoming ones.
unfoldable pub keeps_records : Zone → Zone → Bool
keeps_records z old =
    eqb old.script_pubkey z.script_pubkey
    && not (is_empty old.records)
    && (is_empty z.records || ltb (seq_of z.records) (seq_of old.records))

-- The zone that is to be stored.
unfoldable pub merged : Zone → Zone → Zone
unfolding keeps_records
merged z old = if keeps_records z old then record z { records = old.records } else z

unfoldable pub merge_records : Codec → Zone → Zone → Prepared → Prepared
unfolding keeps_records
merge_records c z old e =
    if keeps_records z old
    then (elim (c.zone_to_vec (record z { records = old.records })) [
      | none ↦ e
      | some bytes ↦ record e { zone_data = bytes; offchain_seq = seq_of old.records }
    ])
    else e

unfoldable pub keep_receipt : Certificate → Zone → Zone → Prepared → Prepared
unfolding same_commitment_root
keep_receipt cert z old e =
    if cert.is_receiptless_root && same_commitment_root z old
    then record e { preserve_cert = true }
    else e

-- The closure of the `filter_map`, on the stored zone of the handle, if any.
unfoldable pub replace_zone : Codec → Option Zone → Prepared → HandleRecord → Option Prepared
unfolding fresher_proof is_better merge_records keep_receipt
replace_zone c none e u = some e
replace_zone c (some old) e u =
    if not (fresher_proof u.zone old) && not (is_better c u.zone old)
    then none
    else some (keep_receipt u.cert u.zone old (merge_records c u.zone old e))

abbrev pub max_seq : ℕ → ℕ
max_seq now = now + 6 * 3600

unfoldable pub accept : Codec → ℕ → Map String Zone → Prepared × HandleRecord → Option Prepared
unfolding replace_zone
accept c now zones (e, u) =
    if ltb (max_seq now) e.offchain_seq || ltb (max_seq now) e.delegate_offchain_seq
    then none
    else replace_zone c (lookup e.handle zones) e u

unfoldable pub accept_all :
    Codec → ℕ → Map String Zone → List (Prepared × HandleRecord) → List Prepared
unfolding accept
accept_all c now zones [] = []
accept_all c now zones (x ∷ xs) =
    let rest = accept_all c now zones xs in
    elim (accept c now zones x) [ none ↦ rest | some e ↦ e ∷ rest ]

unfoldable pub row_of : Codec → ℕ → ℕ → Bytes → Prepared → Row
row_of c now seq cert_data e = record {
  space = e.space;
  cert_data = cert_data;
  zone_data = e.zone_data;
  epoch_height = e.epoch_height;
  offchain_seq = e.offchain_seq;
  delegate_offchain_seq = e.delegate_offchain_seq;
  sync_seq = seq;
  zone_hash = c.zone_hash e.zone_data;
  updated_at = now;
}

-- The certificate of a row: with `preserve_cert` the one that the table held before the statement.
unfoldable pub cert_of : Map String Row → Prepared → Result Bytes
cert_of before e =
    if e.preserve_cert
    then or_fail (Option.map (λ r. r.cert_data) (lookup e.handle before)) constraint_failed
    else ok e.cert_data

-- The rows of the INSERT statement, numbered from `base + 1` on.
unfoldable pub insert_all : Codec → ℕ → Map String Row → ℕ → List Prepared → Store → Result Store
unfolding row_of cert_of
insert_all c now before base [] s = ok s
insert_all c now before base (e ∷ es) s = elim (cert_of before e) [
  | err x ↦ err x
  | ok cert_data ↦
      insert_all c now before (suc base) es
        (put_row e.handle (row_of c now (suc base) cert_data e) s)
]

-- The INSERT, which binds ten parameters a row, in its transaction.
unfoldable pub insert_bulk : Codec → ℕ → Map String Row → ℕ → List Prepared → Store → Result Store
unfolding insert_all
insert_bulk c now before base es s =
    if c.sql_runs now (insert_rows (10 * length es))
    then insert_all c now before base es s
    else err sql_failed

pub insert_bulk-ok :
    (c : Codec) (now : ℕ) (before : Map String Row) (base : ℕ) (es : List Prepared) (s t : Store)
    → insert_bulk c now before base es s ≡ ok t
    → insert_all c now before base es s ≡ ok t
unfolding insert_bulk
insert_bulk-ok c now before base es s t e = ground (arith, e)

unfoldable pub write_all : Codec → ℕ → ℕ → List Prepared → Store → Result (Store × BulkStoreResult)
unfolding insert_bulk
write_all c now skipped [] s =
    ok (s, record { stored = 0; skipped = skipped; gated = 0; stored_handles = [] })
write_all c now skipped (e ∷ es) s = do
  s' ←
      insert_bulk c now s.handles s.sync_counter (e ∷ es)
        (record s { sync_counter = s.sync_counter + length (e ∷ es) })
  ok (
    s',
    record {
      stored = length (e ∷ es);
      skipped = skipped;
      gated = 0;
      stored_handles = map (λ p. p.handle) (e ∷ es);
    },
  )

unfoldable pub update_handles :
    Codec → ℕ → List HandleRecord → Store → Result (Store × BulkStoreResult)
unfolding prepare_all stored_zones accept_all write_all
update_handles c now updates s = do
  entries ← prepare_all c updates
  zones ← stored_zones c now s.handles (map (λ x. x.0.handle) entries)
  let to_store = accept_all c now zones entries
  write_all c now (length updates - length to_store) to_store s
