-- ===== src/Handler/Hints.antt =====
-- `hints` of relay/src/handler.rs. The newest anchor of libveritas is an argument.
pub mod Rows
pub mod Answers
pub mod Ranking
mod Tests
use Prim.Native.Char.{code}
use certrelay.Prelude.{
  ℕ, Bool, true, false, not, ◌&&◌, ◌||◌, ◌==◌, ◌⊎◌, inl, inr, Option, none, some, List, [], ◌∷◌,
  ◌++◌, if◌then◌else◌, eqb, String, string_dec_eq,
}
use certrelay.Store.Types.{HandleHintRow}
use certrelay.Store.State.{Store}
use certrelay.Store.Rows.{get_handle_hints}
use certrelay.Hints.{HandleHint, EpochResult, SpaceHint, HintsResponse}
use certrelay.Handler.Strings.{sort, first_repeat}

-- `starts_with("@")` or `starts_with("#")`.
unfoldable pub names_space : String → Bool
names_space String.[] = false
names_space (String.◌∷◌ c s) = code c == 0x40 || code c == 0x23

unfoldable pub ends_with : String → String → Bool
ends_with String.[] end = eqb String.[] end
ends_with (String.◌∷◌ c s) end = let rest = ends_with s end in eqb (String.◌∷◌ c s) end || rest

abbrev pub handle_hint : HandleHintRow → HandleHint
handle_hint row = record { seq = row.offchain_seq; name = row.handle }

-- Into the entry of the row's epoch, or into a new one at the end.
unfoldable pub push_row : HandleHintRow → List EpochResult → List EpochResult
push_row row [] = record { epoch = row.epoch_height; res = handle_hint row ∷ [] } ∷ []
push_row row (e ∷ es) =
    let rest = push_row row es in
    if e.epoch == row.epoch_height
    then record e { res = e.res ++ (handle_hint row ∷ []) } ∷ es
    else e ∷ rest

unfoldable pub is_in_space : String → HandleHintRow → Bool
is_in_space space row = ends_with row.handle space && not (eqb row.handle space)

unfoldable pub push_rows : String → List HandleHintRow → List EpochResult → List EpochResult
unfolding push_row is_in_space
push_rows space [] es = es
push_rows space (row ∷ rows) es =
    push_rows space rows (if is_in_space space row then push_row row es else es)

-- `find` by the handle.
unfoldable pub find_row : String → List HandleHintRow → Option HandleHintRow
find_row h [] = none
find_row h (row ∷ rows) = let rest = find_row h rows in if eqb row.handle h then some row else rest

abbrev pub space_hint : List HandleHintRow → String → HandleHintRow → SpaceHint
space_hint all_rows space row = record {
  epoch_tip = row.epoch_height;
  name = space;
  seq = row.offchain_seq;
  delegate_seq = row.delegate_offchain_seq;
  epochs = push_rows space all_rows [];
}

abbrev pub with_hint :
    List HandleHintRow → String → Option HandleHintRow → List SpaceHint → List SpaceHint
with_hint all_rows space none rest = rest
with_hint all_rows space (some row) rest = space_hint all_rows space row ∷ rest

-- The loop over the handles that name a space.
unfoldable pub hints_of : List HandleHintRow → List String → List SpaceHint
unfolding names_space push_rows find_row
hints_of all_rows [] = []
hints_of all_rows (h ∷ hs) =
    let rest = hints_of all_rows hs in
    if names_space h then with_hint all_rows h (find_row h all_rows) rest else rest

-- The response, or the duplicate handle.
abbrev pub hints_unless : ℕ → List String → Store → Option String → String ⊎ HintsResponse
hints_unless newest_anchor handles s (some h) = inl h
hints_unless newest_anchor handles s none =
    inr
      (record { anchor_tip = newest_anchor; hints = hints_of (get_handle_hints handles s) handles })

unfoldable pub hints : ℕ → List String → Store → String ⊎ HintsResponse
unfolding sort first_repeat hints_of get_handle_hints
hints newest_anchor handles s =
    hints_unless newest_anchor (sort handles) s (first_repeat (sort handles))
