-- ===== src/Store/Rows.antt =====
-- The readers of relay/src/store.rs, and `set_revs` and `set_addrs`.
pub mod Indexes
use certrelay.Prelude.{
  ℕ, Bool, true, false, not, ◌&&◌, Option, none, some, List, [], ◌∷◌, ◌++◌, map, filter, eqb,
  if◌then◌else◌, String, string_dec_eq,
}
use certrelay.Map.{Map, lookup, insert, retain}
use certrelay.Store.Types.{
  Bytes, Zone, Certificate, Codec, HandleRecord, HandleHintRow, Row, AddrRow, StoreError,
  deserialize_failed, Result, ok, err, ◌>>=◌, or_fail,
}
use certrelay.Store.State.{Store}
use certrelay.Store.Pages.{contains}

-- The record of a row.
unfoldable pub record_of : Codec → Row → Result HandleRecord
record_of c r = do
  cert ← or_fail (c.cert_from_slice r.cert_data) deserialize_failed
  zone ← or_fail (c.zone_from_slice r.zone_data) deserialize_failed
  ok (record {
    cert = cert;
    zone = zone;
    epoch_height = r.epoch_height;
    offchain_seq = r.offchain_seq;
    delegate_offchain_seq = r.delegate_offchain_seq;
  })

unfoldable pub records_of : Codec → Map String Row → Result (List HandleRecord)
unfolding record_of
records_of c [] = ok []
records_of c ((h, r) ∷ m) =
    let rest = records_of c m in do x ← record_of c r; xs ← rest; ok (x ∷ xs)

unfoldable pub found : Codec → Option Row → Result (Option HandleRecord)
unfolding record_of
found c none = ok none
found c (some r) = do x ← record_of c r; ok (some x)

unfoldable pub get_handle : Codec → String → Store → Result (Option HandleRecord)
unfolding found
get_handle c h s = found c (lookup h s.handles)

-- `WHERE handle IN (...)`.
unfoldable pub rows_in : List String → Map String Row → Map String Row
rows_in hs m = retain (λ h _. contains hs h) m

unfoldable pub get_handles : Codec → List String → Store → Result (List HandleRecord)
unfolding records_of
get_handles c hs s = records_of c (rows_in hs s.handles)

unfoldable pub zones_from : Codec → Map String Row → List String → Result (List Zone)
zones_from c m [] = ok []
zones_from c m (h ∷ hs) =
    let rest = zones_from c m hs in
    elim (lookup h m) [
      | none ↦ rest
      | some r ↦ do
        z ← or_fail (c.zone_from_slice r.zone_data) deserialize_failed
        zs ← rest
        ok (z ∷ zs)
    ]

unfoldable pub get_zones : Codec → List String → Store → Result (List Zone)
unfolding zones_from
get_zones c spaces s = zones_from c s.handles spaces

abbrev pub hint_row : String × Row → HandleHintRow
hint_row (h, r) = record {
  handle = h;
  epoch_height = r.epoch_height;
  offchain_seq = r.offchain_seq;
  delegate_offchain_seq = r.delegate_offchain_seq;
  zone_hash = r.zone_hash;
}

unfoldable pub get_handle_hints : List String → Store → List HandleHintRow
get_handle_hints hs s = map hint_row (rows_in hs s.handles)

-- The loop of `set_revs`: a later entry for a number replaces an earlier one.
unfoldable pub put_revs :
    ℕ → List (String × String) → Map String (String × ℕ) → Map String (String × ℕ)
put_revs now [] m = m
put_revs now ((id, name) ∷ xs) m = put_revs now xs (insert id (name, now) m)

unfoldable pub set_revs : ℕ → List (String × String) → Store → Store
set_revs now xs s = record s { reverse = put_revs now xs s.reverse }

unfoldable pub get_revs : List String → Store → Map String String
get_revs ids s = map (λ x. (x.0, x.1.0)) (retain (λ id _. contains ids id) s.reverse)

abbrev pub addr_row : ℕ → String → String → String × String → AddrRow
addr_row now handle rev (name, addr) = record {
  name = name;
  addr = addr;
  handle = handle;
  rev = rev;
  updated_at = now;
}

-- The old rows of the handle go, whatever they were.
unfoldable pub set_addrs : ℕ → String → String → List (String × String) → Store → Store
set_addrs now handle rev entries s = record s {
  addrs = filter (λ a. not (eqb a.handle handle)) s.addrs ++ map (addr_row now handle rev) entries;
}

unfoldable pub get_addrs : String → String → Store → List (String × String)
get_addrs name addr s =
    map (λ a. (a.handle, a.rev)) (filter (λ a. eqb a.name name && eqb a.addr addr) s.addrs)
