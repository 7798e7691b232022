-- ===== src/Retention/Eviction.antt =====
-- Which rows the retention of relay/src/retention.rs may drop, and when its gate closes.
use Prim.Native.Nat.{max}
use certrelay.Prelude.{
  ℕ, ◌*◌, ◌<◌, ◌≡◌, ◌⊎◌, inl, inr, Bool, true, false, not, ◌&&◌, Bool-cases, Option-cases, some, [],
  ◌∷◌, eqb, take, String, string_dec_eq, arith,
}
use certrelay.Map.{Map, lookup, retain}
use certrelay.Map.Laws.{lookup-retain, retain-Distinct}
use certrelay.Map.Sort.{lookup-sort_by}
use certrelay.Store.Types.{Row, Codec}
use certrelay.Store.State.{Store, row_bytes}
use certrelay.Store.State.Totals.{total}
use certrelay.Store.Update.Sequence.{IsSound}
use certrelay.Store.Pages.{contains}
use certrelay.Store.Pages.Prefix.{take-Prefix, Prefix-back}
use certrelay.Store.Delete.{delete_handles}
use certrelay.Store.Delete.Effects.{delete_handles-Deleted}
use certrelay.Retention.{
  RetentionConfig, storage_totals, space_usage, updated_at_of, eviction_rows, names,
  eviction_candidates, first_insert_gated,
}

contains-names :
    (h : String) (m : Map String Row)
    → contains (names m) h ≡ true
    → (r : Row) × (lookup h m ≡ some r)
unfolding contains names lookup
contains-names h [] e = ground arith
contains-names h (x ∷ m) e = elim (Bool-cases (eqb x.0 h)) [
  | inl b ↦ (x.1, ground (arith, b))
  | inr b ↦ let (r, f) = contains-names h m (ground (arith, b, e)) in (r, ground (arith, b, f))
]

-- Every eviction candidate of a space is the handle of a stored row of this space, and never the
-- root of the space.
pub eviction_candidates_lem :
    (space : String) (limit : ℕ) (s : Store) (h : String)
    → IsSound s
    → contains (eviction_candidates space limit s) h ≡ true
    → (r : Row) × (lookup h s.handles ≡ some r) × (r.space ≡ space) × (eqb h space ≡ false)
unfolding eviction_candidates eviction_rows
eviction_candidates_lem space limit s h v e =
    let test : String → Row → Bool = λ g r. eqb r.space space && not (eqb g space) in
    let d = v.accounts.distinct in
    let (r, f) = contains-names h (take limit (eviction_rows space s)) e in
    let g =
      Prefix-back (take limit (eviction_rows space s)) (eviction_rows space s) h r
        (take-Prefix limit (eviction_rows space s)) f in
    let sorted =
      lookup-sort_by updated_at_of h (retain test s.handles) (retain-Distinct test s.handles d) in
    let seen = lookup-retain h test s.handles d in
    elim (Option-cases (lookup h s.handles)) [
      | inl n ↦ ground (arith, g, sorted, seen, n)
      | inr (q, n) ↦ (
        r,
        ground (arith, g, sorted, seen, n),
        ground (arith, g, sorted, seen, n),
        ground (arith, g, sorted, seen, n),
      )
    ]

-- A batch of eviction candidates of a space can be deleted without losing a root: the row of the
-- space itself and every row of another space stay as they are.
pub evict_keeps :
    (c : Codec) (space : String) (limit : ℕ) (s : Store) (h : String) (r : Row)
    → IsSound s
    → lookup h s.handles ≡ some r
    → (h ≡ space) ⊎ (eqb r.space space ≡ false)
    → lookup h (delete_handles c (eviction_candidates space limit s) s).0.handles ≡ some r
evict_keeps c space limit s h r v held other =
    let rows = (delete_handles-Deleted c (eviction_candidates space limit s) s v).rows h in
    elim (Bool-cases (contains (eviction_candidates space limit s) h)) [
      | inr b ↦ ground (arith, b, rows)
      | inl b ↦
          let (q, e, f, g) = eviction_candidates_lem space limit s h v b in
          ground (arith, e, f, g, held, other)
    ]

-- The gate closes for a space only when a budget is set and the stored blobs exceed it in bytes,
-- and only for a space that holds more handles than it is entitled to for its epochs.
pub first_insert_gated_lem :
    (config : RetentionConfig) (space : String) (s : Store)
    → IsSound s
    → first_insert_gated config space s ≡ true
    → (0 < config.max_storage_bytes)
      × (config.max_storage_bytes < total row_bytes s.handles)
      × (max (space_usage space s).1 1 * config.entitlement_per_epoch < (space_usage space s).0)
unfolding first_insert_gated storage_totals
first_insert_gated_lem config space s v e = ground (arith, v.accounts.bytes)
