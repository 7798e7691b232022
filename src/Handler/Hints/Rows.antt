-- ===== src/Handler/Hints/Rows.antt =====
-- How the responses of `hints` in relay/src/handler.rs are gathered from rows.
use Prim.Native.Nat.{max}
use mathlib.Core.Option
use certrelay.Prelude.{
  ℕ, ◌≡◌, refl, Bool, true, not, ◌&&◌, Option, none, some, List, [], ◌∷◌, ◌++◌, map, if◌then◌else◌,
  eqb, ltb, String, string_dec_eq, arith, Option-cases,
}
use certrelay.Map.{Map, lookup, insert, Distinct}
use certrelay.Map.Laws.{lookup-insert}
use certrelay.Store.Types.{HandleHintRow, Row}
use certrelay.Store.Pages.{contains}
use certrelay.Store.Rows.{hint_row}
use certrelay.Hints.{
  HandleHint, EpochResult, SpaceHint, flatten_res, flatten_epochs, by_name, seq_in,
}
use certrelay.Handler.Strings.{unique}
use certrelay.Handler.Hints.{
  names_space, ends_with, handle_hint, push_row, is_in_space, push_rows, find_row, space_hint,
  hints_of,
}

-- The greatest number of a handle in a list of hints.
greatest : String → List HandleHint → ℕ
greatest h [] = 0
greatest h (x ∷ xs) = let rest = greatest h xs in if eqb x.name h then max x.seq rest else rest

unfoldable pub greatest_of : String → List EpochResult → ℕ
unfolding greatest
greatest_of h [] = 0
greatest_of h (e ∷ es) = max (greatest h e.res) (greatest_of h es)

seq_in-flatten_res :
    (h : String) (xs : List HandleHint) (m : Map String ℕ)
    → seq_in h (flatten_res xs m) ≡ max (seq_in h m) (greatest h xs)
unfolding flatten_res greatest
seq_in-flatten_res h [] m = ground arith
seq_in-flatten_res h (x ∷ xs) m =
    let m' = if ltb (Option.get_or (lookup x.name m) 0) x.seq then insert x.name x.seq m else m in
    ground (arith, seq_in-flatten_res h xs m', lookup-insert h x.name x.seq m)

pub seq_in-flatten_epochs :
    (h : String) (es : List EpochResult) (m : Map String ℕ)
    → seq_in h (flatten_epochs es m) ≡ max (seq_in h m) (greatest_of h es)
unfolding flatten_epochs greatest_of
seq_in-flatten_epochs h [] m = ground arith
seq_in-flatten_epochs h (e ∷ es) m =
    ground (arith, seq_in-flatten_res h e.res m, seq_in-flatten_epochs h es (flatten_res e.res m))

greatest-append :
    (h : String) (xs : List HandleHint) (x : HandleHint)
    → greatest h (xs ++ (x ∷ [])) ≡ max (greatest h xs) (greatest h (x ∷ []))
unfolding greatest
greatest-append h [] x = ground arith
greatest-append h (y ∷ ys) x = ground (arith, greatest-append h ys x)

greatest_of-push_row :
    (h : String) (row : HandleHintRow) (es : List EpochResult)
    → greatest_of h (push_row row es) ≡ max (greatest_of h es) (greatest h (handle_hint row ∷ []))
unfolding greatest_of push_row
greatest_of-push_row h row [] = ground arith
greatest_of-push_row h row (e ∷ es) =
    ground (arith, greatest_of-push_row h row es, greatest-append h e.res (handle_hint row))

-- The greatest number of a handle among the rows of a space.
unfoldable pub greatest_row : String → String → List HandleHintRow → ℕ
unfolding greatest is_in_space
greatest_row space h [] = 0
greatest_row space h (row ∷ rows) =
    let rest = greatest_row space h rows in
    if is_in_space space row then max (greatest h (handle_hint row ∷ [])) rest else rest

pub greatest_of-push_rows :
    (space h : String) (rows : List HandleHintRow) (es : List EpochResult)
    → greatest_of h (push_rows space rows es) ≡ max (greatest_of h es) (greatest_row space h rows)
unfolding push_rows greatest_row
greatest_of-push_rows space h [] es = ground arith
greatest_of-push_rows space h (row ∷ rows) es =
    let es' = if is_in_space space row then push_row row es else es in
    ground (arith, greatest_of-push_rows space h rows es', greatest_of-push_row h row es)

abbrev pub row_seq : Option Row → ℕ
row_seq none = 0
row_seq (some r) = r.offchain_seq

-- A handle of the space other than its root.
abbrev pub is_under : String → String → Bool
is_under space h = ends_with h space && not (eqb h space)

pub greatest_row-rows :
    (space h : String) (m : Map String Row)
    → Distinct m
    → greatest_row space h (map hint_row m) ≡ (if is_under space h then row_seq (lookup h m) else 0)
unfolding greatest_row greatest is_in_space lookup
greatest_row-rows space h [] d = ground arith
greatest_row-rows space h ((g, r) ∷ m) d = ground (arith, greatest_row-rows space h m d.1)

abbrev pub row_named : String → Option Row → Option HandleHintRow
row_named h none = none
row_named h (some r) = some (hint_row (h, r))

pub find_row-rows :
    (h : String) (m : Map String Row) → find_row h (map hint_row m) ≡ row_named h (lookup h m)
unfolding find_row lookup
find_row-rows h [] = refl
find_row-rows h ((g, r) ∷ m) = ground (arith, find_row-rows h m)

abbrev pub hint_named : List HandleHintRow → String → Option HandleHintRow → Option SpaceHint
hint_named rows p none = none
hint_named rows p (some row) = some (space_hint rows p row)

pub lookup-hints_of :
    (p : String) (rows : List HandleHintRow) (hs : List String)
    → lookup p (by_name (hints_of rows hs))
      ≡ (if contains hs p && names_space p then hint_named rows p (find_row p rows) else none)
unfolding hints_of lookup contains
lookup-hints_of p rows [] = refl
lookup-hints_of p rows (h ∷ hs) =
    ground (arith, lookup-hints_of p rows hs, Option-cases (find_row h rows))

pub hints_of-Distinct :
    (rows : List HandleHintRow) (hs : List String)
    → unique hs ≡ true
    → Distinct (by_name (hints_of rows hs))
unfolding hints_of
hints_of-Distinct rows [] u = tt
hints_of-Distinct rows (h ∷ hs) u =
    ground
      (arith, lookup-hints_of h rows hs, hints_of-Distinct rows hs, Option-cases (find_row h rows))
