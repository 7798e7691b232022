-- ===== src/Retention/Sweep.antt =====
-- `sweep` of relay/src/retention.rs, with `space_usage_all` of relay/src/store.rs. The comparison of two
-- ratios of floating-point numbers is a parameter.
pub mod Batch
pub mod Swept
use Prim.Native.Nat.{min, max, ◌^◌}
use certrelay.Prelude.{
  ℕ, zero, suc, ◌+◌, ◌*◌, ◌/◌, ◌%◌, Bool, true, false, not, ◌==◌, Option, none, some, List, [], ◌∷◌,
  filter, ltb, leb, eqb, take, if◌then◌else◌, String, string_dec_eq,
}
use certrelay.Map.{Map}
use certrelay.Store.Types.{Bucket, bucket, Codec}
use certrelay.Store.State.{Store}
use certrelay.Store.Pages.{contains}
use certrelay.Store.Delete.{delete_handles}
use certrelay.Retention.{
  QueryHeat, is_hot, RetentionConfig, storage_totals, space_usage, eviction_candidates,
}

-- A space, its stored handles and its epochs.
pub record Usage : Type 0 where
  pub space : String
  pub stored : ℕ
  pub epochs : ℕ

-- The spaces of the table, each once.
unfoldable pub spaces_of : Map Bucket ℕ → List String
unfolding contains
spaces_of [] = []
spaces_of ((bucket p e, n) ∷ m) =
    let rest = spaces_of m in if contains rest p then rest else p ∷ rest

unfoldable pub usages : List String → Store → List Usage
usages [] s = []
usages (p ∷ ps) s =
    let rest = usages ps s in
    if ltb 0 (space_usage p s).0
    then record { space = p; stored = (space_usage p s).0; epochs = (space_usage p s).1 } ∷ rest
    else rest

-- `GROUP BY space HAVING SUM(handles) > 0`.
unfoldable pub space_usage_all : Store → List Usage
unfolding spaces_of usages
space_usage_all s = usages (spaces_of s.space_epoch_counts) s

-- `max_by`: the last of the greatest.
unfoldable pub max_from : (Usage → Usage → Bool) → Usage → List Usage → Usage
max_from le best [] = best
max_from le best (x ∷ xs) = max_from le (if le best x then x else best) xs

unfoldable pub max_by : (Usage → Usage → Bool) → List Usage → Option String
unfolding max_from
max_by le [] = none
max_by le (x ∷ xs) = some (max_from le x xs).space

unfoldable pub is_over : RetentionConfig → Usage → Bool
is_over c u = ltb (max u.epochs 1 * c.entitlement_per_epoch) u.stored

abbrev pub or_else : Option String → Option String → Option String
or_else none o = o
or_else (some a) o = some a

-- The space to evict from: the worst of those beyond their entitlement, or else the largest.
unfoldable pub victim_among : (Usage → Usage → Bool) → RetentionConfig → List Usage → Option String
unfolding max_by is_over
victim_among ratio_le c us =
    or_else (max_by ratio_le (filter (is_over c) us)) (max_by (λ a b. leb a.stored b.stored) us)

unfoldable pub victim :
    (Usage → Usage → Bool) → RetentionConfig → List String → Store → Option String
unfolding victim_among space_usage_all
victim ratio_le c exhausted s =
    victim_among ratio_le c (filter (λ u. not (contains exhausted u.space)) (space_usage_all s))

abbrev pub or_if_empty : List String → List String → List String
or_if_empty [] ys = ys
or_if_empty (x ∷ xs) ys = x ∷ xs

-- The cold candidates, or all of them when none is cold.
unfoldable pub choose_batch : QueryHeat → ℕ → List String → List String
choose_batch heat n candidates =
    or_if_empty (take n (filter (λ h. not (is_hot h heat)) candidates)) (take n candidates)

-- The product is one of u64.
unfoldable pub low_water : RetentionConfig → ℕ
low_water c = c.max_storage_bytes * min c.low_water_pct 100 % 2 ^ 64 / 100

-- Whether the sweep has come down far enough.
unfoldable pub is_low : RetentionConfig → ℕ → Store → Bool
unfolding low_water
is_low c evicted s =
    leb (storage_totals s).1 (if evicted == 0 then c.max_storage_bytes else low_water c)

-- A round ends the sweep, or leaves the next one a store, the evicted rows and the exhausted spaces.
pub data Round : Type 0 where
  stop : Store → ℕ → Round
  next : Store → ℕ → List String → Round

unfoldable pub follow_round : Round → (Store → ℕ → List String → Store × ℕ) → Store × ℕ
follow_round (stop s n) f = (s, n)
follow_round (next s n exhausted) f = f s n exhausted

module _ (codec : Codec) (ratio_le : Usage → Usage → Bool) (c : RetentionConfig) where
  unfoldable pub deleted : ℕ → List String → Store × ℕ → Round
  deleted evicted exhausted (s, n) =
      if n == 0 then stop s evicted else next s (evicted + n) exhausted

  unfoldable pub evict_from : QueryHeat → String → ℕ → List String → List String → Store → Round
  unfolding choose_batch deleted
  evict_from heat space evicted exhausted [] s = next s evicted (space ∷ exhausted)
  evict_from heat space evicted exhausted (h ∷ hs) s =
      deleted evicted exhausted
        (delete_handles codec (choose_batch heat c.eviction_batch (h ∷ hs)) s)

  unfoldable pub on_victim : QueryHeat → ℕ → List String → Store → Option String → Round
  unfolding evict_from
  on_victim heat evicted exhausted s none = stop s evicted
  on_victim heat evicted exhausted s (some space) =
      evict_from heat space evicted exhausted (eviction_candidates space (c.eviction_batch * 2) s) s

  -- One round of the loop.
  unfoldable pub batch_round : QueryHeat → Store → ℕ → List String → Round
  unfolding is_low victim on_victim
  batch_round heat s evicted exhausted =
      if is_low c evicted s
      then stop s evicted
      else on_victim heat evicted exhausted s (victim ratio_le c exhausted s)

  -- The loop, with the batches that are left; queries may change the heat between them.
  unfoldable pub sweep_from : (ℕ → QueryHeat) → ℕ → Store → ℕ → List String → Store × ℕ
  unfolding batch_round follow_round
  sweep_from heat zero s evicted exhausted = (s, evicted)
  sweep_from heat (suc n) s evicted exhausted =
      follow_round (batch_round (heat n) s evicted exhausted) (λ s' k ex. sweep_from heat n s' k ex)

  unfoldable pub sweep : (ℕ → QueryHeat) → Store → Store × ℕ
  unfolding sweep_from
  sweep heat s = sweep_from heat c.max_batches_per_sweep s 0 []
