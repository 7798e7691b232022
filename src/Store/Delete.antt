-- ===== src/Store/Delete.antt =====
-- `delete_handles` of relay/src/store.rs: the rows of the handles, their address rows, and the
-- reverse rows that their zones gave.
pub mod Effects
use certrelay.Prelude.{
  ℕ, suc, Bool, true, false, not, ◌&&◌, Option, none, some, List, [], ◌∷◌, filter, eqb,
  if◌then◌else◌, String, string_dec_eq,
}
use certrelay.Map.{Map, lookup, retain}
use certrelay.Store.Types.{Row, Zone, Sig, RecordSet, Codec, AddrRow}
use certrelay.Store.State.{Store, delete_row}
use certrelay.Store.Pages.{contains}

named_by : Option Sig → Option String → Option (String × String)
named_by none n = none
named_by (some g) none = none
named_by (some g) (some n) = if g.is_primary then some (n, g.handle) else none

-- The reverse row that a zone gives: its number and its name.
unfoldable pub reverse_of : Zone → Option (String × String)
unfolding named_by
reverse_of z = named_by z.records.sig z.num_id

-- `DELETE FROM reverse WHERE num_id = ? AND name = ?`.
pub delete_reverse : String × String → Map String (String × ℕ) → Map String (String × ℕ)
delete_reverse (n, name) m = retain (λ k v. not (eqb k n && eqb v.0 name)) m

pub zone_of : Codec → Option Row → Option Zone
zone_of c none = none
zone_of c (some r) = c.zone_from_slice r.zone_data

pub clear_zone : Option Zone → Map String (String × ℕ) → Map String (String × ℕ)
unfolding delete_reverse
clear_zone none m = m
clear_zone (some z) m = elim (reverse_of z) [ none ↦ m | some p ↦ delete_reverse p m ]

-- The loop over the zones of the handles; a zone that cannot be read is passed over.
pub clear_reverse :
    Codec → Map String Row → List String → Map String (String × ℕ) → Map String (String × ℕ)
unfolding clear_zone zone_of
clear_reverse c rows [] m = m
clear_reverse c rows (h ∷ hs) m = clear_reverse c rows hs (clear_zone (zone_of c (lookup h rows)) m)

-- `DELETE FROM handles WHERE handle IN (...)`, with the number of the rows that it deletes.
unfoldable pub delete_rows : List String → Store → Store × ℕ
delete_rows [] s = (s, 0)
delete_rows (h ∷ hs) s =
    let rest = delete_rows hs (delete_row h s) in
    elim (lookup h s.handles) [ none ↦ rest | some _ ↦ (rest.0, suc rest.1) ]

unfoldable pub delete_handles : Codec → List String → Store → Store × ℕ
unfolding clear_reverse delete_rows
delete_handles c hs s = delete_rows hs (record s {
  reverse = clear_reverse c s.handles hs s.reverse;
  addrs = filter (λ a. not (contains hs a.handle)) s.addrs;
})
