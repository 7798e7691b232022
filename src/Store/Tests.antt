-- ===== src/Store/Tests.antt =====
-- Tests of relay/src/store.rs and instances of its theorems: a root and its sub-handle are stored,
-- then the root is stored again, so that it lies behind the sub-handle.
use certrelay.Prelude.{
  not, ◌&&◌, ◌++◌, map, filter, eqb, ℕ, ◌+◌, ◌≤◌, ◌<◌, ◌≡◌, sym, ◌⊎◌, refl, true, false, Option,
  none, some, List, [], ◌∷◌, length, String, string_dec_eq, string_discrete, ℕ_discrete, arith,
}
use certrelay.Map.{lookup, insert, remove, modify, retain, or_insert}
use certrelay.Map.Sort.{sort_by, insert_by}
use certrelay.Store.Types.{
  AddrRow, Bytes, sovereign, RecordSet, Zone, Certificate, Codec, HandleRecord, BulkStoreResult,
  Row, bucket, bucket_dec_eq, bucket_discrete, ok,
}
use certrelay.Store.State.{Store, empty, count_insert, count_delete, delete_row, put_row}
use certrelay.Store.Update.{
  bytes_dec_eq, bytes_discrete, Prepared, prepare, prepare_all, get_zones_inner, sovereignty_rank,
  fresher_proof, is_better, keeps_records, merge_records, keep_receipt, replace_zone, accept,
  accept_all, row_of, cert_of, insert_all, write_all, insert_bulk, stored_zones, update_handles,
}
use certrelay.Store.Update.Sequence.{IsSound, Updated, update_handles-Updated}
use certrelay.Store.Update.Merge.{Replaces, replace_zone-Replaces}
use certrelay.Store.Update.Returns.{Writes, update_handles_returns}
use certrelay.Store.Pages.{
  suffix_from, space_name, take_bytes, selected, last_seq, is_sub, needed, contains, roots_beyond,
  sum_bytes, needed_roots, page_bytes, pop, re_home, shrink, next_cursor_of, page_of, hard_cap,
  shrunk, SyncPage, sync_page,
}
use certrelay.Store.Rows.{set_addrs, get_addrs}
use certrelay.Store.Rows.Indexes.{get_addrs-set_addrs}
use certrelay.Store.Delete.{delete_handles, zone_of, reverse_of}
use certrelay.Store.Delete.Effects.{Deleted, delete_handles-Deleted, delete_handles_reverse}
use certrelay.Store.Pages.Complete.{sync_page_stored, sync_page_complete}
use certrelay.Store.Pages.Roots.{sync_page_root}
use certrelay.Store.Pages.Progress.{sync_page_advances}
use certrelay.Store.Pages.Size.{sync_page_size}

abbrev no_records : RecordSet
no_records = record { bytes = []; seq = none; sig = none }

abbrev zone_at : ℕ → Zone
zone_at anchor = record {
  canonical = "@bitcoin";
  script_pubkey = 7 ∷ [];
  anchor = anchor;
  sovereignty = sovereign;
  records = no_records;
  delegate = none;
  commitment = none;
  num_id = none;
}

abbrev read_anchor : Bytes → Option Zone
read_anchor [] = some (zone_at 0)
read_anchor (n ∷ b) = some (zone_at n)

abbrev cert_of_subject : String → Certificate
cert_of_subject h = record {
  subject = h;
  space = some "@bitcoin";
  is_receiptless_root = false;
  witness = [];
}

-- A zone is written as its anchor.
abbrev codec : Codec
codec = record {
  cert_to_vec = λ _. some (1 ∷ []);
  cert_from_slice = λ _. none;
  zone_to_vec = λ z. some (z.anchor ∷ []);
  zone_from_slice = read_anchor;
  zone_hash = λ b. b;
  is_better_than = λ _ _. none;
  sql_runs = λ _ _. true;
}

abbrev update : String → ℕ → HandleRecord
update h anchor = record {
  cert = cert_of_subject h;
  zone = zone_at anchor;
  epoch_height = 0;
  offchain_seq = 0;
  delegate_offchain_seq = 0;
}

abbrev updates : List HandleRecord
updates = update "@bitcoin" 1 ∷ update "alice@bitcoin" 1 ∷ []

abbrev row_at : ℕ → ℕ → Row
row_at anchor seq = record {
  space = "@bitcoin";
  cert_data = 1 ∷ [];
  zone_data = anchor ∷ [];
  epoch_height = 0;
  offchain_seq = 0;
  delegate_offchain_seq = 0;
  sync_seq = seq;
  zone_hash = anchor ∷ [];
  updated_at = 10;
}

abbrev first : Store
first = record empty {
  handles = ("@bitcoin", row_at 1 1) ∷ ("alice@bitcoin", row_at 1 2) ∷ [];
  sync_counter = 2;
  space_epoch_counts = (bucket "@bitcoin" 0, 2) ∷ [];
  total_rows = 2;
  total_bytes = 4;
}

abbrev first_result : BulkStoreResult
first_result = record {
  stored = 2;
  skipped = 0;
  gated = 0;
  stored_handles = "@bitcoin" ∷ "alice@bitcoin" ∷ [];
}

first_stored : update_handles codec 10 updates empty ≡ ok (first, first_result)
unfolding update_handles prepare_all prepare get_zones_inner lookup accept_all accept replace_zone
    write_all insert_bulk insert_all stored_zones cert_of row_of put_row delete_row count_insert
    insert string_discrete bucket_discrete ℕ_discrete
first_stored = refl

empty-IsSound : IsSound empty
unfolding lookup
empty-IsSound = record {
  accounts = record { distinct = tt; rows = refl; bytes = refl; counts = λ b. refl };
  sequenced = record { bounded = λ h r e. ground arith; unique = λ g h q r e f same. ground arith };
}

first-IsSound : IsSound first
first-IsSound =
    (update_handles-Updated codec 10 updates empty first first_result first_stored
      empty-IsSound).sound

abbrev second : Store
second = record first {
  handles = ("alice@bitcoin", row_at 1 2) ∷ ("@bitcoin", row_at 2 3) ∷ [];
  sync_counter = 3;
}

abbrev second_result : BulkStoreResult
second_result = record { stored = 1; skipped = 1; gated = 0; stored_handles = "@bitcoin" ∷ [] }

abbrev again : List HandleRecord
again = update "@bitcoin" 2 ∷ update "alice@bitcoin" 1 ∷ []

second_stored : update_handles codec 10 again first ≡ ok (second, second_result)
unfolding update_handles prepare_all prepare get_zones_inner lookup accept_all accept replace_zone
    write_all insert_bulk insert_all stored_zones cert_of row_of put_row delete_row count_insert
    count_delete insert remove modify fresher_proof sovereignty_rank is_better keep_receipt
    merge_records keeps_records bytes_discrete string_discrete bucket_discrete ℕ_discrete
second_stored = refl

update_handles-Updated_example : Updated first second second_result
update_handles-Updated_example =
    update_handles-Updated codec 10 again first second second_result second_stored first-IsSound

codec-Writes : Writes codec
codec-Writes = record { cert = λ x. (1 ∷ [], refl); zone = λ x. (x.anchor ∷ [], refl) }

codec-reads : (b : Bytes) → (z : Zone) × (codec.zone_from_slice b ≡ some z)
codec-reads [] = (zone_at 0, refl)
codec-reads (n ∷ b) = (zone_at n, refl)

update_handles_returns_example :
    (t : Store) × (r : BulkStoreResult) × (update_handles codec 10 again first ≡ ok (t, r))
    × (r.stored + r.skipped ≡ 2)
update_handles_returns_example =
    update_handles_returns codec 10 again first codec-Writes (λ h r e. codec-reads r.zone_data)
      (record { select = λ n h. refl; insert = λ n h. refl }) (omega arith)
      (("@bitcoin", refl), (("@bitcoin", refl), tt))

abbrev full : RecordSet
full = record { bytes = 9 ∷ []; seq = some 5; sig = none }

abbrev old_zone : Zone
old_zone = record (zone_at 1) { records = full }

abbrev prepared : Prepared
prepared = record {
  handle = "@bitcoin";
  space = "@bitcoin";
  cert_data = 1 ∷ [];
  zone_data = 2 ∷ [];
  epoch_height = 0;
  offchain_seq = 0;
  delegate_offchain_seq = 0;
  preserve_cert = false;
}

prepared_lem : prepare codec (update "@bitcoin" 2) ≡ ok prepared
unfolding prepare
prepared_lem = refl

-- The incoming zone has no records, so those that are stored stay.
replaced :
    replace_zone codec (some old_zone) prepared (update "@bitcoin" 2)
    ≡ some (record prepared { offchain_seq = 5 })
unfolding replace_zone fresher_proof sovereignty_rank is_better keep_receipt merge_records
    keeps_records bytes_discrete ℕ_discrete
replaced = refl

replace_zone-Replaces_example :
    Replaces codec old_zone (update "@bitcoin" 2) (record prepared { offchain_seq = 5 })
replace_zone-Replaces_example =
    replace_zone-Replaces codec old_zone (update "@bitcoin" 2) prepared
      (record prepared { offchain_seq = 5 }) codec-Writes.zone prepared_lem replaced

second-IsSound : IsSound second
second-IsSound =
    (update_handles-Updated codec 10 again first second second_result second_stored
      first-IsSound).sound

-- A page of one row: the sub-handle, and its root, which lies behind the page.
abbrev page : SyncPage
page = record {
  records = ("alice@bitcoin", row_at 1 2) ∷ ("@bitcoin", row_at 2 3) ∷ [];
  next_cursor = some 2;
}

page_served : sync_page none 1 100 second ≡ page
unfolding sync_page selected take_bytes shrunk shrink page_bytes sum_bytes roots_beyond needed_roots
    needed contains is_sub space_name suffix_from last_seq next_cursor_of page_of hard_cap pop
    re_home retain sort_by insert_by or_insert insert lookup string_discrete ℕ_discrete
page_served = refl

sub_lookup : lookup "alice@bitcoin" second.handles ≡ some (row_at 1 2)
unfolding lookup string_discrete
sub_lookup = refl

root_lookup : lookup "@bitcoin" second.handles ≡ some (row_at 2 3)
unfolding lookup string_discrete
root_lookup = refl

sub_served : lookup "alice@bitcoin" (sync_page none 1 100 second).records ≡ some (row_at 1 2)
unfolding lookup string_discrete
sub_served = rw page_served refl

cursor_served : (sync_page none 1 100 second).next_cursor ≡ some 2
cursor_served = rw page_served refl

sync_page_stored_example : lookup "alice@bitcoin" second.handles ≡ some (row_at 1 2)
sync_page_stored_example =
    sync_page_stored none 1 100 second "alice@bitcoin" (row_at 1 2) second-IsSound sub_served

sync_page_complete_example :
    lookup "alice@bitcoin" (sync_page none 1 100 second).records ≡ some (row_at 1 2)
sync_page_complete_example =
    sync_page_complete none 1 100 2 second "alice@bitcoin" (row_at 1 2) second-IsSound cursor_served
      sub_lookup (omega arith) (omega arith)

sub_lem : is_sub "alice@bitcoin" ≡ true
unfolding is_sub space_name suffix_from string_discrete
sub_lem = refl

space_lem : space_name "alice@bitcoin" ≡ "@bitcoin"
unfolding space_name suffix_from
space_lem = refl

sync_page_root_example :
    lookup (space_name "alice@bitcoin") (sync_page none 1 100 second).records ≡ some (row_at 2 3)
sync_page_root_example =
    sync_page_root none 1 100 second "alice@bitcoin" (row_at 1 2) (row_at 2 3) second-IsSound
      sub_served sub_lem (rw space_lem root_lookup) (sym space_lem) (omega arith)

sync_page_advances_example :
    (c : ℕ) × ((sync_page none 1 100 second).next_cursor ≡ some c) × (0 < c) × (c ≤ 3)
sync_page_advances_example =
    sync_page_advances none 1 100 second "alice@bitcoin" (row_at 1 2) second-IsSound (omega arith)
      sub_lookup (omega arith)

sync_page_size_example :
    (sum_bytes (sync_page none 1 100 second).records ≤ 200)
    ⊎ (length (sync_page none 1 100 second).records ≤ 2)
sync_page_size_example = sync_page_size none 1 100 second second-IsSound

delete_handles-Deleted_example :
    Deleted
      ("alice@bitcoin" ∷ [])
      second
      (delete_handles codec ("alice@bitcoin" ∷ []) second).0
      (delete_handles codec ("alice@bitcoin" ∷ []) second).1
delete_handles-Deleted_example =
    delete_handles-Deleted codec ("alice@bitcoin" ∷ []) second second-IsSound

abbrev named : Store
named = record second { reverse = ("num1", ("bob@bitcoin", 10)) ∷ [] }

named_lookup : lookup "num1" named.reverse ≡ some ("bob@bitcoin", 10)
unfolding lookup string_discrete
named_lookup = refl

delete_handles_reverse_example :
    (lookup "num1" (delete_handles codec ("@bitcoin" ∷ []) named).0.reverse
      ≡ some ("bob@bitcoin", 10))
    ⊎ ((h : String) × (z : Zone) × (contains ("@bitcoin" ∷ []) h ≡ true)
        × (zone_of codec (lookup h named.handles) ≡ some z)
        × (reverse_of z ≡ some ("num1", "bob@bitcoin")))
unfolding lookup
delete_handles_reverse_example =
    delete_handles_reverse codec ("@bitcoin" ∷ []) named "num1" ("bob@bitcoin", 10) (refl, tt)
      named_lookup

abbrev claim : String → AddrRow
claim h = record { name = "btc"; addr = "bc1q"; handle = h; rev = h; updated_at = 10 }

abbrev addressed : Store
addressed = record empty { addrs = claim "bob@bitcoin" ∷ claim "alice@bitcoin" ∷ [] }

abbrev claims : List (String × String)
claims = ("btc", "bc1q") ∷ ("btc", "bc1p") ∷ []

get_addrs-set_addrs_example :
    get_addrs "btc" "bc1q" (set_addrs 20 "alice@bitcoin" "alice" claims addressed)
    ≡ filter (λ p. not (eqb p.0 "alice@bitcoin")) (get_addrs "btc" "bc1q" addressed)
      ++ map {B = String × String}
          (λ _. ("alice@bitcoin", "alice"))
          (filter (λ (e : String × String). eqb e.0 "btc" && eqb e.1 "bc1q") claims)
get_addrs-set_addrs_example =
    get_addrs-set_addrs "btc" "bc1q" 20 "alice@bitcoin" "alice" claims addressed
