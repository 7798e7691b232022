-- ===== src/Store/Pages/Progress.antt =====
-- `sync_page` of relay/src/store.rs moves on, and keeps its pages small.
use certrelay.Prelude.{
  ℕ, zero, suc, ◌≤◌, ◌<◌, ◌≡◌, sym, refl, Option, some, [], ◌∷◌, length, take, String,
  string_dec_eq, arith,
}
use certrelay.Map.{Map, lookup, Distinct}
use certrelay.Store.Types.{Row}
use certrelay.Store.State.{Store}
use certrelay.Store.Update.Sequence.{IsSound}
use certrelay.Store.Pages.{
  needed, take_bytes, after_cursor, selected, last_seq, pop, shrink, roots_beyond, hard_cap, shrunk,
  next_cursor_of, page_of, sync_page,
}
use certrelay.Store.Pages.Prefix.{Prefix-back}
use certrelay.Store.Pages.Loop.{shrink-keeps}
use certrelay.Store.Pages.Complete.{
  after_cursor-lookup, after_cursor-back, after_of, main_of, page-Loop,
}

abbrev IsCons : Map String Row → Type 0
IsCons [] = ⊥
IsCons (x ∷ m) = Unit

take_bytes-IsCons :
    (max bytes : ℕ) (m : Map String Row) → IsCons m → IsCons (take_bytes max bytes m)
unfolding take_bytes
take_bytes-IsCons max bytes [] c = c
take_bytes-IsCons max bytes (x ∷ m) c = ground arith

take-IsCons : (n : ℕ) (m : Map String Row) → 0 < n → IsCons m → IsCons (take n m)
take-IsCons zero m b c = ground arith
take-IsCons (suc n) [] b c = c
take-IsCons (suc n) (x ∷ m) b c = tt

lookup-IsCons : (h : String) (r : Row) (m : Map String Row) → lookup h m ≡ some r → IsCons m
unfolding lookup
lookup-IsCons h r [] e = ground arith
lookup-IsCons h r (x ∷ m) e = tt

shrink-IsCons :
    (n most : ℕ) (m roots : Map String Row) → IsCons m → IsCons (shrink n most m roots).0
unfolding pop
shrink-IsCons n most m roots c = shrink-keeps (λ k _. IsCons k) most (λ x y k q w. tt) n m roots c

-- The last number is the number of an entry.
last_seq-lookup :
    (x : String × Row) (m : Map String Row)
    → Distinct (x ∷ m)
    → (h : String) × (r : Row) × (lookup h (x ∷ m) ≡ some r) × (r.sync_seq ≡ last_seq 0 (x ∷ m))
unfolding lookup last_seq
last_seq-lookup x [] d = (x.0, x.1, ground arith, refl)
last_seq-lookup x (y ∷ m) d =
    let (h, r, e, b) = last_seq-lookup y m d.1 in (h, r, ground (arith, d.0), b)

next_cursor-found :
    (m : Map String Row)
    → Distinct m
    → IsCons m
    → (c : ℕ) × (h : String) × (r : Row) × (next_cursor_of m ≡ some c)
      × (lookup h m ≡ some r)
      × (r.sync_seq ≡ c)
unfolding next_cursor_of
next_cursor-found [] d c = elim c [ ]
next_cursor-found (x ∷ m) d c =
    let (h, r, e, b) = last_seq-lookup x m d in (last_seq 0 (x ∷ m), h, r, refl, e, b)

-- Paging moves on: while the store has a row past the cursor of the request, a page with a limit of
-- at least one row returns a cursor, which lies past the one of the request and not past the write
-- counter of the store.
pub sync_page_advances :
    (cursor : Option ℕ) (limit max : ℕ) (s : Store) (h : String) (r : Row)
    → IsSound s
    → 0 < limit
    → lookup h s.handles ≡ some r
    → after_of cursor < r.sync_seq
    → (c : ℕ) × ((sync_page cursor limit max s).next_cursor ≡ some c)
      × (after_of cursor < c)
      × (c ≤ s.sync_counter)
unfolding sync_page page_of shrunk selected
sync_page_advances cursor limit max s h r v b held past =
    let after = after_of cursor in
    let main = main_of cursor limit max s in
    let d = v.accounts.distinct in
    let l = page-Loop cursor limit max s d in
    let behind = after_cursor after s.handles in
    let first = selected after limit max s.handles in
    let filled =
      shrink-IsCons (length first) (hard_cap max) first
        (roots_beyond (last_seq after first) (needed first) s.handles)
        (take_bytes-IsCons max 0 (take limit behind) (
          take-IsCons limit behind b
            (lookup-IsCons h r behind (after_cursor-lookup after s.handles h r d held past)))) in
    let (c, g, q, n, e, same) = next_cursor-found main l.main_distinct filled in
    let back = after_cursor-back after s.handles g q d (Prefix-back main behind g q l.prefix e) in
    (c, n, rw (sym same) back.1, rw (sym same) (v.sequenced.bounded g q back.0))
