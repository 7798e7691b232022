-- ===== src/Store/Pages.antt =====
-- `sync_page`, `sync_summary` and the watermarks of relay/src/store.rs, and `space_name` of
-- fabric/rust/src/lib.rs. Cursors are numbers here; the program prints and parses them in decimal, and
-- casts them to an i64, so that they stand for cursors below 2^63.
pub mod Prefix
pub mod Loop
pub mod Complete
pub mod Roots
pub mod Progress
pub mod Size
use Prim.Native.Char.{code}
use Prim.Native.Nat.{min, ◌^◌}
use mathlib.Core.Option
use certrelay.Prelude.{
  ℕ, zero, suc, ◌+◌, ◌-◌, ◌*◌, Bool, true, false, not, ◌&&◌, ◌||◌, Option, none, some, List, [],
  ◌∷◌, map, ◌++◌, ltb, ◌==◌, if◌then◌else◌, eqb, length, take, String, string_dec_eq,
}
use certrelay.Map.{Map, retain, lookup, insert, or_insert}
use certrelay.Map.Sort.{sort_by}
use certrelay.Store.Types.{Bytes, Row}
use certrelay.Store.State.{Store, row_bytes}

-- The part of a handle from the first '@' or '#' on.
unfoldable pub suffix_from : String → Option String
suffix_from String.[] = none
suffix_from (String.◌∷◌ c s) =
    if code c == 0x40 || code c == 0x23 then some (String.◌∷◌ c s) else suffix_from s

unfoldable pub space_name : String → String
unfolding suffix_from
space_name h = Option.get_or (suffix_from h) h

abbrev pub seq_number : Row → ℕ
seq_number r = r.sync_seq

-- The loop over the rows: it stops behind the row that takes the page over `max_bytes`.
unfoldable pub take_bytes : ℕ → ℕ → Map String Row → Map String Row
take_bytes max_bytes bytes [] = []
take_bytes max_bytes bytes (x ∷ xs) =
    let total = bytes + row_bytes x.1 in
    let rest = take_bytes max_bytes total xs in if ltb max_bytes total then x ∷ [] else x ∷ rest

-- `WHERE sync_seq > after ORDER BY sync_seq`.
abbrev pub after_cursor : ℕ → Map String Row → Map String Row
after_cursor after rows = sort_by seq_number (retain (λ _ r. ltb after r.sync_seq) rows)

unfoldable pub selected : ℕ → ℕ → ℕ → Map String Row → Map String Row
unfolding take_bytes
selected after limit max_bytes rows = take_bytes max_bytes 0 (take limit (after_cursor after rows))

-- The sequence number of the last row.
unfoldable pub last_seq : ℕ → Map String Row → ℕ
last_seq after [] = after
last_seq after (x ∷ []) = x.1.sync_seq
last_seq after (x ∷ y ∷ m) = last_seq after (y ∷ m)

unfoldable pub is_sub : String → Bool
is_sub h = not (eqb h (space_name h))

-- The spaces of the rows that are not roots.
unfoldable pub needed : Map String Row → List String
needed [] = []
needed ((h, r) ∷ m) = if is_sub h then space_name h ∷ needed m else needed m

unfoldable pub contains : List String → String → Bool
contains [] s = false
contains (x ∷ xs) s = eqb x s || contains xs s

-- The roots of those spaces that lie beyond the page.
unfoldable pub roots_beyond : ℕ → List String → Map String Row → Map String Row
unfolding contains
roots_beyond last spaces rows =
    retain (λ h r. contains spaces h && eqb h r.space && ltb last r.sync_seq) rows

unfoldable pub sum_bytes : Map String Row → ℕ
sum_bytes [] = 0
sum_bytes (x ∷ m) = row_bytes x.1 + sum_bytes m

unfoldable pub needed_roots : Map String Row → Map String Row → Map String Row
needed_roots main roots = retain (λ h _. contains (needed main) h) roots

unfoldable pub page_bytes : Map String Row → Map String Row → ℕ
unfolding sum_bytes
page_bytes main roots = sum_bytes main + sum_bytes (needed_roots main roots)

-- `pop`, on a list that is not empty: what is left, and the last entry.
unfoldable pub pop : String × Row → Map String Row → Map String Row × (String × Row)
pop x [] = ([], x)
pop x (y ∷ ys) = let r = pop y ys in (x ∷ r.0, r.1)

-- A popped root is kept among the roots.
unfoldable pub re_home : String × Row → Map String Row → Map String Row
re_home (h, r) roots = if is_sub h then roots else or_insert h r roots

-- The loop that shrinks the page. Each round pops a row, so the number of rows bounds the rounds.
unfoldable pub shrink : ℕ → ℕ → Map String Row → Map String Row → Map String Row × Map String Row
unfolding page_bytes pop re_home
shrink zero most main roots = (main, roots)
shrink (suc n) most [] roots = ([], roots)
shrink (suc n) most (x ∷ []) roots = (x ∷ [], roots)
shrink (suc n) most (x ∷ y ∷ m) roots = elim (ltb most (page_bytes (x ∷ y ∷ m) roots)) [
  | false ↦ (x ∷ y ∷ m, roots)
  | true ↦ shrink n most (pop x (y ∷ m)).0 (re_home (pop x (y ∷ m)).1 roots)
]

pub record SyncPage : Type 0 where
  pub records : Map String Row
  pub next_cursor : Option ℕ

unfoldable pub next_cursor_of : Map String Row → Option ℕ
next_cursor_of [] = none
next_cursor_of (x ∷ m) = some (last_seq 0 (x ∷ m))

unfoldable pub page_of : Map String Row × Map String Row → SyncPage
unfolding next_cursor_of
page_of (main, roots) = record {
  records = main ++ needed_roots main roots;
  next_cursor = next_cursor_of main;
}

-- `max_bytes.saturating_mul(2)`.
unfoldable pub hard_cap : ℕ → ℕ
hard_cap max_bytes = min (max_bytes * 2) (2 ^ 64 - 1)

unfoldable pub shrunk : ℕ → ℕ → Map String Row → Map String Row → Map String Row × Map String Row
unfolding roots_beyond hard_cap shrink
shrunk after max_bytes main rows =
    shrink (length main) (hard_cap max_bytes) main
      (roots_beyond (last_seq after main) (needed main) rows)

unfoldable pub sync_page : Option ℕ → ℕ → ℕ → Store → SyncPage
unfolding selected shrunk page_of
sync_page cursor limit max_bytes s =
    let after = Option.get_or cursor 0 in
    let main = selected after limit max_bytes s.handles in
    page_of (shrunk after max_bytes main s.handles)

pub record SyncSummary : Type 0 where
  pub count : ℕ
  pub latest_cursor : Option ℕ

unfoldable pub sync_summary : Store → SyncSummary
sync_summary s = record {
  count = length s.handles;
  latest_cursor = if ltb 0 s.sync_counter then some s.sync_counter else none;
}

-- `get_watermark` with the parsing that its caller does, and `set_watermark`.
unfoldable pub get_watermark : String → Store → Option ℕ
get_watermark peer s = Option.map (λ w. w.0) (lookup peer s.sync_watermarks)

unfoldable pub set_watermark : ℕ → String → ℕ → Store → Store
set_watermark now peer cursor s = record s {
  sync_watermarks = insert peer (cursor, now) s.sync_watermarks;
}
