-- ===== src/Http/Query/Tests.antt =====
-- Instances of the theorems on the queries of relay/src/http.rs.
use certrelay.Prelude.{
  ℕ, ◌≡◌, ◌↔◌, ◌∙◌, sym, ap, refl, true, false, List, [], ◌∷◌, if◌then◌else◌, leb, String,
  string_dec_eq, string_discrete, ℕ_discrete, arith, is_some,
}
use certrelay.Map.{lookup, retain}
use certrelay.Store.Pages.{contains}
use certrelay.Store.Rows.{rows_in, get_handle_hints}
use certrelay.Handler.Hints.{find_row}
use certrelay.Store.Types.{Bytes, bucket, bucket_dec_eq, bucket_discrete}
use certrelay.Store.State.{Store, empty}
use certrelay.Store.Update.Sequence.{IsSound}
use certrelay.Http.{Digest}
use certrelay.Http.Query.{is_blank, version_bytes, query_etag}
use certrelay.Http.Query.Covers.{Covers, group-Covers}
use certrelay.Http.Query.Version.{hash_at, SameHashes, HashesSized, query_etag_iff}

group-Covers_example : Covers [] ("alice@bitcoin" ∷ "@bitcoin" ∷ "alice@bitcoin" ∷ "bob@other" ∷ [])
group-Covers_example =
    group-Covers [] ("alice@bitcoin" ∷ "@bitcoin" ∷ "alice@bitcoin" ∷ "bob@other" ∷ [])

abbrev eight : ℕ → Bytes → Bytes
eight n b = n ∷ 2 ∷ 3 ∷ 4 ∷ 5 ∷ 6 ∷ 7 ∷ 8 ∷ b

-- A store whose one row has this digest.
abbrev stored : ℕ → Store
stored n = record empty {
  handles =
      (
        "@bitcoin",
        record {
          space = "@bitcoin";
          cert_data = 1 ∷ [];
          zone_data = 2 ∷ [];
          epoch_height = 0;
          offchain_seq = 0;
          delegate_offchain_seq = 0;
          sync_seq = 1;
          zone_hash = eight n (eight n (eight n (eight n [])));
          updated_at = 10;
        },
      )
      ∷ [];
  sync_counter = 1;
  space_epoch_counts = (bucket "@bitcoin" 0, 1) ∷ [];
  total_rows = 1;
  total_bytes = 2;
}

stored-IsSound : (n : ℕ) → IsSound (stored n)
unfolding lookup string_discrete bucket_discrete ℕ_discrete
stored-IsSound n = record {
  accounts = record {
    distinct = (refl, tt);
    rows = refl;
    bytes = refl;
    counts = λ b. ground arith;
  };
  sequenced = record { bounded = λ h r e. ground arith; unique = λ g h q r e f same. ground arith };
}

stored-HashesSized : (n : ℕ) → HashesSized (stored n)
unfolding lookup
stored-HashesSized n h r e = ground (arith, e)

same_handles :
    (h : String) → is_some (lookup h (stored 1).handles) ≡ is_some (lookup h (stored 9).handles)
unfolding lookup
same_handles h = ground arith

-- A digest that tells the two stores apart by their first byte.
abbrev tell : Bytes → String
tell [] = ""
tell (z ∷ []) = ""
tell (z ∷ n ∷ b) = if leb n 1 then "" else "b"

abbrev digest : Digest
digest = record { as_bytes = λ _. []; sha256 = λ b. b; hex_encode = tell }

abbrev asked : List String
asked = "@bitcoin" ∷ []

abbrev version : ℕ → Bytes
version n = version_bytes digest (get_handle_hints asked (stored n)) asked

told : (tell (version 1) ≡ "") × (tell (version 9) ≡ "b")
unfolding version_bytes get_handle_hints rows_in retain contains find_row string_discrete
told = (refl, refl)

versions_apart : tell (version 1) ≡ tell (version 9) → version 1 ≡ version 9
versions_apart e =
    let p : true ≡ false = ap (λ s. is_blank s) (sym told.0 ∙ e ∙ told.1) in ground (arith, p)

query_etag_iff_example :
    (query_etag digest (stored 1) asked ≡ query_etag digest (stored 9) asked)
    ↔ SameHashes (hash_at asked (stored 1)) (hash_at asked (stored 9)) asked
query_etag_iff_example =
    query_etag_iff (stored 1) (stored 9) asked digest (stored-IsSound 1) (stored-IsSound 9)
      (stored-HashesSized 1) (stored-HashesSized 9) same_handles versions_apart
