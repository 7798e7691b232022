-- ===== src/Handler/Message.antt =====
-- `handle_message_opts` of relay/src/handler.rs with its two short forms.
pub mod Sound
pub mod Reverse
pub mod Limits
pub mod Gate
use certrelay.Prelude.{
  ℕ, suc, ◌+◌, ◌%◌, Bool, true, false, ◌==◌, Option, none, some, List, [], ◌∷◌, length, map,
  if◌then◌else◌, String, string_dec_eq,
}
use Prim.Native.Nat.{◌^◌}
use certrelay.Map.{Map, lookup, insert}
use certrelay.Store.Types.{
  Bytes, Zone, Certificate, Codec, HandleRecord, HandleHintRow, BulkStoreResult, StoreError,
  verify_failed, sql_failed, write_reverse, write_addrs, Result, ok, err, ◌>>=◌, or_fail,
}
use certrelay.Store.State.{Store}
use certrelay.Store.Update.{update_handles}
use certrelay.Store.Rows.{get_zones, get_handle_hints, set_revs, set_addrs}
use certrelay.Handler.{Governor, Veritas, Env, Handler}
use certrelay.Handler.Pass.{Batch, Pass, bundle_all}

abbrev pub commitment_height : Option (ℕ × Bytes) → ℕ
commitment_height none = 0
commitment_height (some (n, _)) = n

unfoldable pub zone_map_from : List Zone → Map String Zone → Map String Zone
zone_map_from [] m = m
zone_map_from (z ∷ zs) m = zone_map_from zs (insert z.canonical z m)

unfoldable pub existing_rows : List Certificate → Store → Map String HandleHintRow
existing_rows certs s = map (λ r. (r.handle, r)) (get_handle_hints (map (λ x. x.subject) certs) s)

-- `set_revs`, which does nothing without entries.
unfoldable pub write_revs : Codec → ℕ → List (String × String) → Store → Option Store
write_revs c now [] s = some s
write_revs c now (x ∷ xs) s =
    if c.sql_runs now (write_reverse (length (x ∷ xs)))
    then some (set_revs now (x ∷ xs) s)
    else none

-- `set_addrs` for a handle that was stored.
unfoldable pub index_one :
    Codec → ℕ → Map String (String × List (String × String)) → String → Store → Option Store
index_one c now m h s = elim (lookup h m) [
  | none ↦ some s
  | some (rev, addrs) ↦
      if c.sql_runs now (write_addrs h) then some (set_addrs now h rev addrs s) else none
]

-- The loop over the handles that were stored, and whether it came to its end.
unfoldable pub index_stored :
    Codec → ℕ → Map String (String × List (String × String)) → List String → Store → Store × Bool
unfolding index_one
index_stored c now m [] s = (s, true)
index_stored c now m (h ∷ hs) s = elim (index_one c now m h s) [
  | none ↦ (s, false)
  | some t ↦ index_stored c now m hs t
]

module _ {L : Type 0} where
  abbrev pub start_pass : Handler L → Pass L
  start_pass h = record {
    space_rate = h.space_rate;
    handle_rate = h.handle_rate;
    preskipped = 0;
    gated = 0;
    revs = [];
    addr_index = [];
  }

  -- The reverse names and the addresses of the rows that are committed. The first failure ends it.
  unfoldable pub index_all : Codec → ℕ → Pass L → List String → Store → Store × Bool
  unfolding write_revs index_stored
  index_all c now p hs s = elim (write_revs c now p.revs s) [
    | none ↦ (s, false)
    | some t ↦ index_stored c now p.addr_index hs t
  ]

  -- After the closure: the rows, then the reverse names and the addresses.
  unfoldable pub finish :
      Codec
      → ℕ
      → Pass L
      → Handler L
      → Result (Store × BulkStoreResult)
      → Handler L × Result BulkStoreResult
  unfolding index_all
  finish c now p h (err e) = (h, err e)
  finish c now p h (ok (s, r)) =
      let i = index_all c now p r.stored_handles s in
      (
        record h { store = i.0 },
        if i.1
            then ok (record r { skipped = r.skipped + p.preskipped; gated = r.gated + p.gated })
            else err sql_failed,
      )

module _ {L M : Type 0} (env : Env L M) where
  -- Every 10,000 messages the limiters forget old keys. The counter is a u64.
  unfoldable pub clean_up : Handler L → Handler L
  clean_up h =
      let counted = record h { msg_count = (h.msg_count + 1) % 2 ^ 64 } in
      if h.msg_count % 10000 == 0
      then (record counted {
        space_rate = env.gov.shrink_to_fit (env.gov.retain_recent h.space_rate);
        handle_rate = env.gov.shrink_to_fit (env.gov.retain_recent h.handle_rate);
      })
      else counted

  unfoldable pub epoch_map_from : List Zone → Map String ℕ → Map String ℕ
  epoch_map_from [] m = m
  epoch_map_from (z ∷ zs) m = epoch_map_from zs (
      if env.ver.is_single_label z.canonical
      then insert z.canonical (commitment_height z.commitment) m
      else m)

  unfoldable pub batch_of : List String → Bool → Handler L → List Zone × List Certificate → Batch
  unfolding zone_map_from epoch_map_from existing_rows
  batch_of gated_spaces charge h (zones, certs) = record {
    zone_map = zone_map_from zones [];
    epoch_map = epoch_map_from zones [];
    existing = existing_rows certs h.store;
    gated_spaces = gated_spaces;
    charge_content_limits = charge;
    dev_mode = h.dev_mode;
  }

  unfoldable pub verify_message : M → Handler L → Result (List Zone × List Certificate)
  verify_message msg h = do
    zones ← get_zones env.codec (env.ver.spaces msg) h.store
    or_fail (env.ver.verify zones h.dev_mode msg) verify_failed

  unfoldable pub store_verified :
      ℕ → Batch → List Certificate → Handler L → Handler L × Result BulkStoreResult
  unfolding finish
  store_verified now b certs h =
      let r = bundle_all env b certs (start_pass h) in
      let charged = record h { space_rate = r.1.space_rate; handle_rate = r.1.handle_rate } in
      finish env.codec now r.1 charged (update_handles env.codec now r.0 h.store)

  unfoldable pub on_verified :
      ℕ
      → List String
      → Bool
      → Handler L
      → Result (List Zone × List Certificate)
      → Handler L × Result BulkStoreResult
  unfolding batch_of store_verified
  on_verified now gated_spaces charge h (err e) = (h, err e)
  on_verified now gated_spaces charge h (ok res) =
      store_verified now (batch_of gated_spaces charge h res) res.1 h

  unfoldable pub handle_message_opts :
      ℕ → M → List String → Bool → Handler L → Handler L × Result BulkStoreResult
  unfolding clean_up verify_message on_verified
  handle_message_opts now msg gated_spaces charge h =
      let h' = clean_up h in on_verified now gated_spaces charge h' (verify_message msg h')

  unfoldable pub handle_message : ℕ → M → Handler L → Handler L × Result BulkStoreResult
  unfolding handle_message_opts
  handle_message now msg h = handle_message_opts now msg [] true h

  unfoldable pub handle_message_gated :
      ℕ → M → List String → Handler L → Handler L × Result BulkStoreResult
  unfolding handle_message_opts
  handle_message_gated now msg gated_spaces h = handle_message_opts now msg gated_spaces true h
