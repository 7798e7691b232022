-- ===== src/Retention.antt =====
-- relay/src/retention.rs: the recently queried handles and the admission gate, with what they read
-- from relay/src/store.rs.
pub mod Heat
pub mod Eviction
pub mod Sweep
mod Tests
use Prim.Native.Nat.{max}
use certrelay.Prelude.{
  ℕ, ◌+◌, ◌*◌, Bool, true, false, not, ◌&&◌, ◌||◌, ◌==◌, List, [], ◌∷◌, ltb, leb, eqb, length, take,
  map, if◌then◌else◌, String, string_dec_eq,
}
use certrelay.Map.{Map, retain}
use certrelay.Map.Sort.{sort_by}
use certrelay.Store.Types.{Row, Bucket, bucket}
use certrelay.Store.State.{Store}
use certrelay.Store.Pages.{contains}

-- The sets are lists in which no element is repeated.
pub record QueryHeat : Type 0 where
  pub cap : ℕ
  pub active : List String
  pub prev : List String

unfoldable pub new : ℕ → QueryHeat
new cap = record { cap = max cap 1; active = []; prev = [] }

unfoldable pub insert_name : String → List String → List String
insert_name h xs = if contains xs h then xs else h ∷ xs

unfoldable pub touch : String → QueryHeat → QueryHeat
unfolding insert_name
touch h q =
    if leb q.cap (length q.active)
    then record q { prev = q.active; active = h ∷ [] }
    else record q { active = insert_name h q.active }

unfoldable pub touch_all : List String → QueryHeat → QueryHeat
unfolding touch
touch_all [] q = q
touch_all (h ∷ hs) q = touch_all hs (touch h q)

pub is_hot : String → QueryHeat → Bool
is_hot h q = contains q.active h || contains q.prev h

-- The configuration, without the pause between two sweeps.
pub record RetentionConfig : Type 0 where
  pub max_storage_bytes : ℕ
  pub entitlement_per_epoch : ℕ
  pub low_water_pct : ℕ
  pub eviction_batch : ℕ
  pub max_batches_per_sweep : ℕ

pub storage_totals : Store → ℕ × ℕ
storage_totals s = (s.total_rows, s.total_bytes)

pub usage_from : String → Map Bucket ℕ → ℕ × ℕ
usage_from space [] = (0, 0)
usage_from space ((bucket p e, n) ∷ m) =
    let rest = usage_from space m in if eqb p space then (n + rest.0, 1 + rest.1) else rest

pub space_usage : String → Store → ℕ × ℕ
unfolding usage_from
space_usage space s = usage_from space s.space_epoch_counts

pub updated_at_of : Row → ℕ
updated_at_of r = r.updated_at

-- The rows of a space but its root, the oldest first.
pub eviction_rows : String → Store → Map String Row
eviction_rows space s =
    sort_by updated_at_of (retain (λ h r. eqb r.space space && not (eqb h space)) s.handles)

pub names : Map String Row → List String
names m = map (λ x. x.0) m

pub eviction_candidates : String → ℕ → Store → List String
unfolding eviction_rows names
eviction_candidates space limit s = names (take limit (eviction_rows space s))

pub first_insert_gated : RetentionConfig → String → Store → Bool
unfolding storage_totals space_usage
first_insert_gated config space s =
    if config.max_storage_bytes == 0
    then false
    else (if leb (storage_totals s).1 config.max_storage_bytes
        then false
        else ltb (max (space_usage space s).1 1 * config.entitlement_per_epoch)
            (space_usage space s).0)
