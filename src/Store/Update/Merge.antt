-- ===== src/Store/Update/Merge.antt =====
-- Which stored data survive an update of relay/src/store.rs.
use mathlib.Core.Option
use certrelay.Prelude.{
  ◌≤◌, ◌<◌, ◌≡◌, ◌⊎◌, refl, ap, Bool, Option, none, true, false, some, string_dec_eq, arith,
}
use certrelay.Store.Types.{Bytes, Zone, Codec, HandleRecord, ok}
use certrelay.Store.Update.{
  Prepared, prepare, seq_of, is_empty, sovereignty_rank, fresher_proof, is_better, merged,
  merge_records, keep_receipt, replace_zone, bytes_dec_eq,
}

-- What the update `u` with its prepared row `e` leaves where `old` was stored.
pub record Replaces (c : Codec) (old : Zone) (u : HandleRecord) (e : Prepared) : Type 0 where
  pub better :
      ((u.zone.script_pubkey ≡ old.script_pubkey)
        × (old.anchor < u.zone.anchor)
        × (sovereignty_rank old.sovereignty ≤ sovereignty_rank u.zone.sovereignty))
      ⊎ (c.is_better_than u.zone old ≡ some true)
  pub zone : Zone
  pub written : c.zone_to_vec zone ≡ some e.zone_data
  pub from :
      (zone ≡ u.zone)
      ⊎ ((zone ≡ record u.zone { records = old.records })
          × (old.script_pubkey ≡ u.zone.script_pubkey)
          × (is_empty old.records ≡ false)
          × ((is_empty u.zone.records ≡ true) ⊎ (seq_of u.zone.records < seq_of old.records)))
  pub records_kept :
      old.script_pubkey ≡ zone.script_pubkey
      → is_empty old.records ≡ false
      → (is_empty zone.records ≡ false) × (seq_of old.records ≤ seq_of zone.records)

merge-written :
    (c : Codec) (z old : Zone) (e : Prepared)
    → ((x : Zone) → (b : Bytes) × (c.zone_to_vec x ≡ some b))
    → c.zone_to_vec z ≡ some e.zone_data
    → c.zone_to_vec (merged z old) ≡ some (merge_records c z old e).zone_data
unfolding merged merge_records
merge-written c z old e total h = ground (arith, total (record z { records = old.records }))

merged_keeps :
    (z old : Zone)
    → old.script_pubkey ≡ (merged z old).script_pubkey
    → is_empty old.records ≡ false
    → (is_empty (merged z old).records ≡ false)
      × (seq_of old.records ≤ seq_of (merged z old).records)
unfolding merged
merged_keeps z old same full = ground arith

merged-from :
    (z old : Zone)
    → (merged z old ≡ z)
      ⊎ ((merged z old ≡ record z { records = old.records })
          × (old.script_pubkey ≡ z.script_pubkey)
          × (is_empty old.records ≡ false)
          × ((is_empty z.records ≡ true) ⊎ (seq_of z.records < seq_of old.records)))
unfolding merged
merged-from z old = ground arith

get_or_holds : (o : Option Bool) → Option.get_or o false ≡ true → o ≡ some true
get_or_holds none h = ground (arith, h)
get_or_holds (some b) h = ap some h

replaced_better :
    (c : Codec) (z old : Zone) (e f : Prepared) (u : HandleRecord)
    → u.zone ≡ z
    → replace_zone c (some old) e u ≡ some f
    → ((z.script_pubkey ≡ old.script_pubkey)
        × (old.anchor < z.anchor)
        × (sovereignty_rank old.sovereignty ≤ sovereignty_rank z.sovereignty))
      ⊎ (c.is_better_than z old ≡ some true)
unfolding replace_zone fresher_proof is_better
replaced_better c z old e f u s h = ground (arith, s, get_or_holds (c.is_better_than z old))

prepare-zone_data :
    (c : Codec) (u : HandleRecord) (e : Prepared)
    → prepare c u ≡ ok e
    → c.zone_to_vec u.zone ≡ some e.zone_data
unfolding prepare
prepare-zone_data c u e h = ground arith

-- A stored zone is replaced only by a proof with a later anchor of the same key, that does not lower
-- the finality, or by a zone that libveritas finds better. Where zones can be serialized, what is
-- written is the incoming zone as it is, or with nothing but its records replaced by the stored ones;
-- these are kept only under the same key, when the stored ones are not empty and the incoming ones
-- are empty or have a lower sequence number. So while the key stays the same the stored records are
-- never lost or replaced by older ones.
pub replace_zone-Replaces :
    (c : Codec) (old : Zone) (u : HandleRecord) (e f : Prepared)
    → ((x : Zone) → (b : Bytes) × (c.zone_to_vec x ≡ some b))
    → prepare c u ≡ ok e
    → replace_zone c (some old) e u ≡ some f
    → Replaces c old u f
unfolding replace_zone merged keep_receipt
replace_zone-Replaces c old u e f total p h = record {
  better = replaced_better c u.zone old e f u refl h;
  zone = merged u.zone old;
  written = ground (arith, merge-written c u.zone old e total (prepare-zone_data c u e p));
  from = merged-from u.zone old;
  records_kept = merged_keeps u.zone old;
}
