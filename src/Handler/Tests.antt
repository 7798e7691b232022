-- ===== src/Handler/Tests.antt =====
-- Instances of the theorems on relay/src/handler.rs: a message with one root zone, which has a primary
-- Sig record, comes to a relay without rows.
use certrelay.Prelude.{
  ℕ, suc, ◌≡◌, inr, sym, ◌∙◌, All, refl, ap, true, false, none, some, List, [], ◌∷◌, inl, ltb,
  string_dec_eq, string_discrete, ℕ_discrete, arith,
}
use certrelay.Map.{lookup, insert, retain}
use certrelay.Store.Types.{
  Sig, sovereign, RecordSet, Zone, Certificate, Codec, Row, BulkStoreResult, bucket, bucket_dec_eq,
  bucket_discrete, ok, Result,
}
use certrelay.Store.State.{Store, empty, count_insert, delete_row, put_row}
use certrelay.Store.Update.{
  bytes_dec_eq, prepare, prepare_all, get_zones_inner, replace_zone, accept, accept_all, row_of,
  cert_of, insert_all, write_all, insert_bulk, stored_zones, update_handles,
}
use certrelay.Store.Update.Sequence.{IsSound}
use certrelay.Store.Pages.{contains}
use certrelay.Store.Rows.{
  get_zones, zones_from, rows_in, get_handle_hints, put_revs, set_revs, set_addrs,
}
use certrelay.Store.Rows.Indexes.{name_of}
use certrelay.Handler.{Env, Handler, charges_churn}
use certrelay.Handler.Pass.{
  delegate_seq_of, record_with, collect_sig, collect, is_duplicate, charge, limited, admit,
  in_space, with_zone, bundle, bundle_all,
}
use certrelay.Handler.Message.{
  zone_map_from, existing_rows, index_all, write_revs, index_one, index_stored, finish, clean_up,
  epoch_map_from, batch_of, verify_message, store_verified, on_verified, handle_message_opts,
}
use certrelay.Handler.Message.Sound.{Counted, handle_message_opts-IsSound}
use certrelay.Handler.Message.Gate.{Entered, handle_message_opts-Named}
use certrelay.Handler.Message.Limits.{IsFree, handle_message_opts-rates}
use certrelay.Handler.Message.Reverse.{handle_message_opts_reverse}

abbrev sig : Sig
sig = record { handle = "bob@bitcoin"; is_primary = true }

abbrev records : RecordSet
records = record { bytes = 1 ∷ []; seq = some 1; sig = some sig }

abbrev root : Zone
root = record {
  canonical = "@bitcoin";
  script_pubkey = 7 ∷ [];
  anchor = 4;
  sovereignty = sovereign;
  records = records;
  delegate = none;
  commitment = none;
  num_id = some "num1";
}

abbrev cert : Certificate
cert = record {
  subject = "@bitcoin";
  space = some "@bitcoin";
  is_receiptless_root = false;
  witness = [];
}

abbrev codec : Codec
codec = record {
  cert_to_vec = λ _. some (1 ∷ []);
  cert_from_slice = λ _. none;
  zone_to_vec = λ z. some (z.anchor ∷ []);
  zone_from_slice = λ _. none;
  zone_hash = λ b. b;
  is_better_than = λ _ _. none;
  sql_runs = λ _ _. true;
}

abbrev Message : Type 0
Message = List Zone × List Certificate

-- Every message is verified; each limiter allows five checks.
abbrev env : Env ℕ Message
env = record {
  gov = record {
    check_key = λ _ n. (ltb n 5, suc n);
    retain_recent = λ n. n;
    shrink_to_fit = λ n. n;
  };
  ver = record {
    spaces = λ _. [];
    verify = λ _ _ m. some m;
    is_single_label = λ _. true;
    addrs = λ _. [];
    hex_encode = λ _. "";
  };
  codec = codec;
}

abbrev msg : Message
msg = (root ∷ [], cert ∷ [])

abbrev handler : Handler ℕ
handler = record { store = empty; dev_mode = false; space_rate = 0; handle_rate = 0; msg_count = 1 }

empty-IsSound : IsSound empty
unfolding lookup
empty-IsSound = record {
  accounts = record { distinct = tt; rows = refl; bytes = refl; counts = λ b. refl };
  sequenced = record { bounded = λ h r e. ground arith; unique = λ g h q r e f same. ground arith };
}

abbrev row : Row
row = record {
  space = "@bitcoin";
  cert_data = 1 ∷ [];
  zone_data = 4 ∷ [];
  epoch_height = 0;
  offchain_seq = 1;
  delegate_offchain_seq = 0;
  sync_seq = 1;
  zone_hash = 4 ∷ [];
  updated_at = 10;
}

abbrev seen : Handler ℕ
seen = record handler { msg_count = 2 }

abbrev stored : Store
stored = record empty {
  handles = ("@bitcoin", row) ∷ [];
  sync_counter = 1;
  reverse = ("num1", ("bob@bitcoin", 10)) ∷ [];
  space_epoch_counts = (bucket "@bitcoin" 0, 1) ∷ [];
  total_rows = 1;
  total_bytes = 2;
}

abbrev one : BulkStoreResult
one = record { stored = 1; skipped = 0; gated = 0; stored_handles = "@bitcoin" ∷ [] }

root_stored :
    handle_message_opts env 10 msg [] true handler ≡ (record seen { store = stored }, ok one)
unfolding handle_message_opts on_verified store_verified finish clean_up verify_message batch_of
    zone_map_from epoch_map_from existing_rows index_all write_revs index_one index_stored get_zones
    zones_from get_handle_hints rows_in set_revs put_revs set_addrs bundle_all bundle with_zone
    in_space collect collect_sig record_with delegate_seq_of admit is_duplicate limited charge
    charges_churn update_handles prepare_all prepare get_zones_inner lookup accept_all accept
    replace_zone write_all insert_bulk insert_all stored_zones cert_of row_of put_row delete_row
    count_insert insert string_discrete bucket_discrete ℕ_discrete retain contains
root_stored = refl

-- The gate keeps the zone out, and its name comes in.
abbrev named : Store
named = record empty { reverse = ("num1", ("bob@bitcoin", 10)) ∷ [] }

abbrev stopped : BulkStoreResult
stopped = record { stored = 0; skipped = 0; gated = 1; stored_handles = [] }

root_gated :
    handle_message_opts env 10 msg ("@bitcoin" ∷ []) true handler
    ≡ (record seen { store = named }, ok stopped)
unfolding handle_message_opts on_verified store_verified finish clean_up verify_message batch_of
    zone_map_from epoch_map_from existing_rows index_all write_revs index_one index_stored get_zones
    zones_from get_handle_hints rows_in set_revs put_revs set_addrs bundle_all bundle with_zone
    in_space collect collect_sig record_with delegate_seq_of admit is_duplicate limited charge
    charges_churn contains update_handles prepare_all prepare get_zones_inner lookup accept_all
    write_all insert_bulk insert_all stored_zones insert string_discrete ℕ_discrete retain
root_gated = refl

root_found : lookup "@bitcoin" stored.handles ≡ some row
unfolding lookup string_discrete
root_found = refl

msg_verified : verify_message env msg (clean_up env handler) ≡ ok msg
unfolding verify_message get_zones zones_from
msg_verified = refl

handle_message_opts-IsSound_example :
    IsSound (handle_message_opts env 10 msg [] true handler).0.store
    × Counted codec 10 empty (handle_message_opts env 10 msg [] true handler)
    × ((handle_message_opts env 10 msg [] true handler).0.store.sync_watermarks ≡ [])
handle_message_opts-IsSound_example =
    handle_message_opts-IsSound env 10 msg [] true handler empty-IsSound

handle_message_opts-Named_example : Entered env msg [] handler "@bitcoin" row
handle_message_opts-Named_example =
    handle_message_opts-Named env 10 msg [] true handler "@bitcoin" row (rw root_stored root_found)

ok_same : {A : Type 0} {a b : A} → ok a ≡ ok b → a ≡ b
ok_same e = ground arith

msg-IsFree :
    (res : Message)
    → verify_message env msg (clean_up env handler) ≡ ok res
    → All (IsFree (batch_of env [] true (clean_up env handler) res)) res.1
unfolding batch_of existing_rows get_handle_hints clean_up lookup retain rows_in
msg-IsFree res e =
    let same : msg ≡ res = ok_same (sym msg_verified ∙ e) in rw (← same) (λ space q. inl refl, tt)

-- The message is charged, and free because its handle has no row.
handle_message_opts-rates_example :
    ((handle_message_opts env 10 msg [] true handler).0.space_rate
      ≡ (clean_up env handler).space_rate)
    × ((handle_message_opts env 10 msg [] true handler).0.handle_rate
        ≡ (clean_up env handler).handle_rate)
handle_message_opts-rates_example =
    handle_message_opts-rates env 10 msg [] true handler (inr msg-IsFree)

handle_message_opts_reverse_example :
    name_of (
      lookup "num1" (handle_message_opts env 10 msg ("@bitcoin" ∷ []) true handler).0.store.reverse)
    ≡ some "bob@bitcoin"
handle_message_opts_reverse_example =
    handle_message_opts_reverse env 10 msg ("@bitcoin" ∷ []) true handler stopped cert root sig
      "num1" (ap (λ (e : Handler ℕ × Result BulkStoreResult). e.1) root_gated) msg_verified refl
      refl refl refl (ground arith)
