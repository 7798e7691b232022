-- ===== src/Retention/Tests.antt =====
-- Instances of the theorems on relay/src/retention.rs.
use certrelay.Prelude.{
  ℕ, ◌*◌, ◌<◌, ◌≡◌, ◌⊎◌, refl, Bool, leb, true, some, none, [], ◌∷◌, string_dec_eq, string_discrete,
  ℕ_discrete, arith,
}
use certrelay.Map.{lookup, retain}
use certrelay.Map.Sort.{sort_by, insert_by}
use certrelay.Store.Types.{Row, Codec, bucket, bucket_dec_eq, bucket_discrete}
use certrelay.Store.State.{Store, empty}
use certrelay.Store.Update.Sequence.{IsSound}
use certrelay.Store.Pages.{contains}
use certrelay.Retention.{
  new, RetentionConfig, storage_totals, usage_from, space_usage, eviction_rows, names,
  eviction_candidates, first_insert_gated,
}
use certrelay.Retention.Sweep.{Usage, sweep}
use certrelay.Retention.Sweep.Batch.{Swept}
use certrelay.Retention.Sweep.Swept.{sweep-Swept}

abbrev row_at : ℕ → Row
row_at seq = record {
  space = "@bitcoin";
  cert_data = 1 ∷ [];
  zone_data = 2 ∷ [];
  epoch_height = 0;
  offchain_seq = 0;
  delegate_offchain_seq = 0;
  sync_seq = seq;
  zone_hash = [];
  updated_at = 10;
}

abbrev stored : Store
stored = record empty {
  handles = ("@bitcoin", row_at 1) ∷ ("alice@bitcoin", row_at 2) ∷ [];
  sync_counter = 2;
  space_epoch_counts = (bucket "@bitcoin" 0, 2) ∷ [];
  total_rows = 2;
  total_bytes = 4;
}

stored-IsSound : IsSound stored
unfolding lookup string_discrete bucket_discrete ℕ_discrete
stored-IsSound = record {
  accounts = record {
    distinct = (refl, (refl, tt));
    rows = refl;
    bytes = refl;
    counts = λ b. ground arith;
  };
  sequenced = record { bounded = λ h r e. ground arith; unique = λ g h q r e f same. ground arith };
}

abbrev codec : Codec
codec = record {
  cert_to_vec = λ _. none;
  cert_from_slice = λ _. none;
  zone_to_vec = λ _. none;
  zone_from_slice = λ _. none;
  zone_hash = λ b. b;
  is_better_than = λ _ _. none;
  sql_runs = λ _ _. true;
}

candidate : contains (eviction_candidates "@bitcoin" 5 stored) "alice@bitcoin" ≡ true
unfolding contains eviction_candidates eviction_rows names retain sort_by insert_by string_discrete
    ℕ_discrete
candidate = refl

root_lookup : lookup "@bitcoin" stored.handles ≡ some (row_at 1)
unfolding lookup string_discrete
root_lookup = refl

abbrev tight : RetentionConfig
tight = record {
  max_storage_bytes = 3;
  entitlement_per_epoch = 1;
  low_water_pct = 90;
  eviction_batch = 2;
  max_batches_per_sweep = 3;
}

gated : first_insert_gated tight "@bitcoin" stored ≡ true
unfolding first_insert_gated storage_totals space_usage usage_from string_discrete ℕ_discrete
gated = refl

-- More handles for each epoch, the larger.
abbrev fuller : Usage → Usage → Bool
fuller a b = leb (a.stored * b.epochs) (b.stored * a.epochs)

sweep-Swept_example :
    Swept stored
      (sweep codec fuller tight (λ n. new 1) stored).0
      (sweep codec fuller tight (λ n. new 1) stored).1
      (3 * 2)
    × ((3 < 4) ⊎ (sweep codec fuller tight (λ n. new 1) stored ≡ (stored, 0)))
sweep-Swept_example = sweep-Swept codec fuller tight (λ n. new 1) stored stored-IsSound
