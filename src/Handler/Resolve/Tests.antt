-- ===== src/Handler/Resolve/Tests.antt =====
-- A query for a handle over a relay that has its space.
use mathlib.Core.List.{Memᴰ}
use certrelay.Prelude.{
  ℕ, ◌≡◌, refl, ◌⊎◌, inr, true, false, none, some, List, [], ◌∷◌, String, string_dec_eq,
  string_discrete, ℕ_discrete, arith,
}
use certrelay.Map.{lookup, retain}
use certrelay.Store.Types.{
  Bytes, sovereign, Zone, Certificate, Codec, Row, bucket, bucket_dec_eq, bucket_discrete,
}
use certrelay.Store.State.{Store, empty}
use certrelay.Store.Pages.{contains}
use certrelay.Store.Rows.{record_of, records_of, found, get_handle, get_handles, rows_in}
use certrelay.Store.Update.Sequence.{IsSound}
use certrelay.Handler.{epoch_hint_verifiable_by}
use certrelay.Handler.Strings.{unique}
use certrelay.Handler.Resolve.{
  Query, MessageBuilder, Resolver, add_record, add_records, read_names, join_names, empty_builder,
  parent_cert, unique_handles, with_parent, add_query, add_queries, signed, prove_and_build,
  resolve,
}
use certrelay.Handler.Resolve.Origin.{Unreadable}
use certrelay.Handler.Resolve.Complete.{spaces_asked, Complete, add_queries-Complete}

abbrev row : ℕ → ℕ → Row
row bytes number = record {
  space = "@bitcoin";
  cert_data = bytes ∷ [];
  zone_data = 2 ∷ [];
  epoch_height = 5;
  offchain_seq = 1;
  delegate_offchain_seq = 0;
  sync_seq = number;
  zone_hash = [];
  updated_at = 10;
}

abbrev stored : Store
stored = record empty {
  handles = ("@bitcoin", row 1 1) ∷ ("alice@bitcoin", row 2 2) ∷ [];
  sync_counter = 2;
  space_epoch_counts = (bucket "@bitcoin" 5, 2) ∷ [];
  total_rows = 2;
  total_bytes = 4;
}

stored-IsSound : IsSound stored
unfolding lookup string_discrete bucket_discrete ℕ_discrete
stored-IsSound = record {
  accounts = record {
    distinct = (refl, (refl, tt));
    rows = refl;
    bytes = refl;
    counts = λ b. ground arith;
  };
  sequenced = record { bounded = λ h r e. ground arith; unique = λ g h q r e f same. ground arith };
}

-- A certificate of the space, with its bytes as the witness.
abbrev cert : String → Bytes → Certificate
cert subject witness = record {
  subject = subject;
  space = some "@bitcoin";
  is_receiptless_root = false;
  witness = witness;
}

abbrev zone : Zone
zone = record {
  canonical = "@bitcoin";
  script_pubkey = [];
  anchor = 4;
  sovereignty = sovereign;
  records = record { bytes = 1 ∷ []; seq = some 1; sig = none };
  delegate = none;
  commitment = some (5, 7 ∷ []);
  num_id = none;
}

abbrev codec : Codec
codec = record {
  cert_to_vec = λ _. none;
  cert_from_slice = λ b. some (cert "@bitcoin" b);
  zone_to_vec = λ _. none;
  zone_from_slice = λ _. some zone;
  zone_hash = λ b. b;
  is_better_than = λ _ _. none;
  sql_runs = λ _ _. true;
}

-- A message is its certificates, and everything in it is signed.
abbrev resolver : Resolver (List Certificate) ℕ
resolver = record {
  hex_encode = λ _. "07";
  space_from_str = λ p. some p;
  subname_from_str = λ h. some h;
  join = λ h p. some "alice@bitcoin";
  take_receipt = λ c. record c { is_receiptless_root = true };
  root_without_receipt = λ p. record (cert p []) { is_receiptless_root = true };
  prove = λ b. some 0;
  build = λ b n. some (b.certs, []);
}

abbrev queries : List Query
queries =
    record {
      space = "@bitcoin";
      handles = "alice" ∷ [];
      epoch_hint = some (record { root = "07"; height = 5 });
    }
    ∷ record { space = "@other"; handles = []; epoch_hint = none }
    ∷ []

-- The client has the epoch of the first space, whose receipt is left out.
resolved :
    resolve resolver codec stored queries
    ≡ inr (
        record (cert "@bitcoin" (1 ∷ [])) { is_receiptless_root = true }
        ∷ cert "@bitcoin" (2 ∷ [])
        ∷ record (cert "@other" []) { is_receiptless_root = true }
        ∷ [])
unfolding resolve add_queries add_query with_parent add_record add_records parent_cert
    unique_handles read_names join_names signed prove_and_build get_handle get_handles record_of
    records_of found rows_in retain contains lookup epoch_hint_verifiable_by string_discrete
resolved = refl

once : unique (spaces_asked queries) ≡ true
unfolding contains string_discrete
once = refl

add_queries-Complete_example :
    ((q : Query) × Memᴰ q queries × Unreadable resolver codec stored q)
    ⊎ ((b : MessageBuilder) × (add_queries resolver codec stored queries [] empty_builder ≡ inr b)
        × Complete resolver codec stored queries b)
add_queries-Complete_example =
    add_queries-Complete resolver codec stored queries stored-IsSound once
