-- ===== src/Store/Pages/Complete.antt =====
-- What a page of `sync_page` of relay/src/store.rs holds.
use mathlib.Core.Option
use certrelay.Prelude.{
  ℕ, ◌≤◌, ◌<◌, ◌≡◌, ◌&&◌, inl, inr, Bool, Option-cases, Option, some, List, [], ◌∷◌, take, length,
  String, string_dec_eq, arith, ltb, eqb,
}
use certrelay.Map.{Map, lookup, retain, Distinct}
use certrelay.Map.Laws.{lookup-append, lookup-retain, retain-Distinct}
use certrelay.Map.Sort.{IsSorted, sort_by-IsSorted, lookup-sort_by, sort_by-Distinct}
use certrelay.Store.Types.{Row}
use certrelay.Store.State.{Store}
use certrelay.Store.Update.Sequence.{Sequenced, IsSound}
use certrelay.Store.Pages.{
  seq_number, needed, contains, take_bytes, after_cursor, selected, last_seq, roots_beyond,
  needed_roots, hard_cap, shrunk, next_cursor_of, page_of, sync_page,
}
use certrelay.Store.Pages.Loop.{Loop, shrink-Loop}
use certrelay.Store.Pages.Prefix.{
  Prefix, Prefix-trans, take-Prefix, take_bytes-Prefix, Unique, Prefix-lookup, Prefix-back,
}

pub after_cursor-lookup :
    (after : ℕ) (rows : Map String Row) (h : String) (r : Row)
    → Distinct rows
    → lookup h rows ≡ some r
    → after < r.sync_seq
    → lookup h (after_cursor after rows) ≡ some r
after_cursor-lookup after rows h r d e b = ground (
  arith,
  lookup-sort_by seq_number h (retain (λ _ r. ltb after r.sync_seq) rows)
      (retain-Distinct (λ _ r. ltb after r.sync_seq) rows d),
  lookup-retain h (λ _ r. ltb after r.sync_seq) rows d,
)

pub after_cursor-back :
    (after : ℕ) (rows : Map String Row) (h : String) (r : Row)
    → Distinct rows
    → lookup h (after_cursor after rows) ≡ some r
    → (lookup h rows ≡ some r) × (after < r.sync_seq)
after_cursor-back after rows h r d e = ground (
  arith,
  lookup-sort_by seq_number h (retain (λ _ r. ltb after r.sync_seq) rows)
      (retain-Distinct (λ _ r. ltb after r.sync_seq) rows d),
  lookup-retain h (λ _ r. ltb after r.sync_seq) rows d,
  Option-cases (lookup h rows),
)

pub selected-Prefix :
    (after limit max_bytes : ℕ) (rows : Map String Row)
    → Prefix (selected after limit max_bytes rows) (after_cursor after rows)
unfolding selected
selected-Prefix after limit max_bytes rows =
    Prefix-trans (take_bytes max_bytes 0 (take limit (after_cursor after rows)))
      (take limit (after_cursor after rows)) (after_cursor after rows)
      (take_bytes-Prefix max_bytes 0 (take limit (after_cursor after rows)))
      (take-Prefix limit (after_cursor after rows))

Prefix-Distinct : (m l : Map String Row) → Prefix m l → Distinct l → Distinct m
unfolding lookup
Prefix-Distinct [] l p d = tt
Prefix-Distinct (x ∷ m) [] p d = elim p [ ]
Prefix-Distinct (x ∷ m) (y ∷ l) p d = (
  elim (Option-cases (lookup x.0 m)) [
    | inl e ↦ e
    | inr (r, e) ↦ ground (arith, p.0, Prefix-back m l x.0 r p.1 e)
  ],
  Prefix-Distinct m l p.1 d.1,
)

-- The page before the loop.
pub start-Loop :
    (after last limit max_bytes : ℕ) (spaces : List String) (rows : Map String Row)
    → Distinct rows
    → Loop
        (after_cursor after rows)
        rows
        (selected after limit max_bytes rows)
        (roots_beyond last spaces rows)
unfolding roots_beyond
start-Loop after last limit max_bytes spaces rows d =
    let p = selected-Prefix after limit max_bytes rows in
    let kept : String → Row → Bool =
      λ h r. contains spaces h && eqb h r.space && ltb last r.sync_seq in
    record {
      prefix = p;
      main_distinct =
          Prefix-Distinct (selected after limit max_bytes rows) (after_cursor after rows) p (
            sort_by-Distinct seq_number (retain (λ _ r. ltb after r.sync_seq) rows)
              (retain-Distinct (λ _ r. ltb after r.sync_seq) rows d));
      main_stored = λ h r e.
          (after_cursor-back after rows h r d (
            Prefix-back (selected after limit max_bytes rows) (after_cursor after rows) h r p e)).0;
      roots_distinct = retain-Distinct kept rows d;
      roots_stored =
          λ h r e. ground (arith, lookup-retain h kept rows d, Option-cases (lookup h rows));
    }

pub after_cursor-Unique :
    (after n : ℕ) (rows : Map String Row)
    → Distinct rows
    → Sequenced n rows
    → Unique (after_cursor after rows)
after_cursor-Unique after n rows d v g h q r a b e =
    v.unique g h q r (after_cursor-back after rows g q d a).0
      (after_cursor-back after rows h r d b).0 e

abbrev pub after_of : Option ℕ → ℕ
after_of cursor = Option.get_or cursor 0

-- What the loop leaves of the page of a request.
abbrev pub main_of : Option ℕ → ℕ → ℕ → Store → Map String Row
main_of cursor limit max s =
    (shrunk (after_of cursor) max (selected (after_of cursor) limit max s.handles) s.handles).0

abbrev pub roots_of : Option ℕ → ℕ → ℕ → Store → Map String Row
roots_of cursor limit max s =
    (shrunk (after_of cursor) max (selected (after_of cursor) limit max s.handles) s.handles).1

pub page-Loop :
    (cursor : Option ℕ) (limit max : ℕ) (s : Store)
    → Distinct s.handles
    → Loop
        (after_cursor (after_of cursor) s.handles)
        s.handles
        (main_of cursor limit max s)
        (roots_of cursor limit max s)
unfolding shrunk
page-Loop cursor limit max s d =
    let main = selected (after_of cursor) limit max s.handles in
    let last = last_seq (after_of cursor) main in
    shrink-Loop (after_cursor (after_of cursor) s.handles) s.handles (length main) (hard_cap max)
      main (roots_beyond last (needed main) s.handles)
      (start-Loop (after_of cursor) last limit max (needed main) s.handles d)

pub next_cursor-lookup :
    (m l : Map String Row) (c : ℕ) (h : String) (r : Row)
    → IsSorted seq_number l
    → Distinct l
    → Unique l
    → Prefix m l
    → lookup h l ≡ some r
    → next_cursor_of m ≡ some c
    → r.sync_seq ≤ c
    → lookup h m ≡ some r
unfolding next_cursor_of
next_cursor-lookup [] l c h r s d u p e n b = ground arith
next_cursor-lookup (x ∷ m) l c h r s d u p e n b = Prefix-lookup m l x h r s d u p e (ground arith)

-- Every row that a page serves is a stored row, with what the table holds for it.
pub sync_page_stored :
    (cursor : Option ℕ) (limit max : ℕ) (s : Store) (h : String) (r : Row)
    → IsSound s
    → lookup h (sync_page cursor limit max s).records ≡ some r
    → lookup h s.handles ≡ some r
unfolding sync_page page_of needed_roots
sync_page_stored cursor limit max s h r v e =
    let main = main_of cursor limit max s in
    let roots = roots_of cursor limit max s in
    let l = page-Loop cursor limit max s v.accounts.distinct in
    let kept = λ (g : String) (_ : Row). contains (needed main) g in
    ground (
      arith,
      lookup-append h main (retain kept roots),
      lookup-retain h kept roots l.roots_distinct,
      l.main_stored h r,
      l.roots_stored h r,
      Option-cases (lookup h main),
      Option-cases (lookup h roots),
    )

-- A page skips nothing: every stored row past the cursor of the request and up to the cursor that
-- the page returns is on the page, whatever the limits on rows and bytes were.
pub sync_page_complete :
    (cursor : Option ℕ) (limit max c : ℕ) (s : Store) (h : String) (r : Row)
    → IsSound s
    → (sync_page cursor limit max s).next_cursor ≡ some c
    → lookup h s.handles ≡ some r
    → after_of cursor < r.sync_seq
    → r.sync_seq ≤ c
    → lookup h (sync_page cursor limit max s).records ≡ some r
unfolding sync_page page_of next_cursor_of
sync_page_complete cursor limit max c s h r v n held past upto =
    let main = main_of cursor limit max s in
    let roots = roots_of cursor limit max s in
    let d = v.accounts.distinct in
    let l = page-Loop cursor limit max s d in
    let on_main =
      next_cursor-lookup main (after_cursor (after_of cursor) s.handles) c h r
        (sort_by-IsSorted seq_number (retain (λ _ r. ltb (after_of cursor) r.sync_seq) s.handles))
        (sort_by-Distinct seq_number (retain (λ _ r. ltb (after_of cursor) r.sync_seq) s.handles)
          (retain-Distinct (λ _ r. ltb (after_of cursor) r.sync_seq) s.handles d))
        (after_cursor-Unique (after_of cursor) s.sync_counter s.handles d v.sequenced) l.prefix
        (after_cursor-lookup (after_of cursor) s.handles h r d held past) n upto in
    ground (arith, on_main, lookup-append h main (needed_roots main roots))
