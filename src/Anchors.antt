-- ===== src/Anchors.antt =====
-- The anchor sets of fabric/rust/src/anchor.rs, with `AnchorSet` of fabric/rust/src/lib.rs. An anchor of
-- spaces is its height and its other bytes; the root of a list of anchors is libveritas's.
pub mod Windows
pub mod Sets
pub mod Latest
pub mod Serve
mod Tests
use Prim.Native.Nat.{max}
use certrelay.Prelude.{
  ℕ, zero, suc, Bool, Option, none, some, List, [], ◌∷◌, ltb, leb, if◌then◌else◌, length, take,
  String,
}
use certrelay.Map.{Map, lookup, insert}
use certrelay.Store.Types.{Bytes}
use certrelay.Store.Update.{bytes_dec_eq}

pub record RootAnchor : Type 0 where
  pub height : ℕ
  pub bytes : Bytes

pub record AnchorSet : Type 0 where
  pub entries : List RootAnchor

abbrev pub tip_of : List RootAnchor → ℕ
tip_of [] = 0
tip_of (a ∷ rest) = a.height

-- The entries are newest first.
unfoldable pub tip_height : AnchorSet → ℕ
tip_height s = tip_of s.entries

abbrev pub anchor_set_size : ℕ
anchor_set_size = 60

-- `windows(n)`.
unfoldable pub windows : ℕ → List RootAnchor → List (List RootAnchor)
windows n [] = []
windows n (a ∷ xs) =
    let rest = windows n xs in if leb n (length (a ∷ xs)) then take n (a ∷ xs) ∷ rest else []

abbrev pub AnchorSets : Type 0
AnchorSets = Map Bytes AnchorSet

-- `max_by_key`: the last of the greatest.
unfoldable pub newest_from : AnchorSet → AnchorSets → AnchorSet
unfolding tip_height
newest_from best [] = best
newest_from best ((id, s) ∷ m) =
    newest_from (if leb (tip_height best) (tip_height s) then s else best) m

unfoldable pub latest : AnchorSets → Option AnchorSet
unfolding newest_from
latest [] = none
latest ((id, s) ∷ m) = some (newest_from s m)

unfoldable pub get : Bytes → AnchorSets → Option AnchorSet
get id sets = lookup id sets

module _ (compute_trust_set : List RootAnchor → Bytes) where
  unfoldable pub insert_windows : List (List RootAnchor) → AnchorSets → AnchorSets
  insert_windows [] sets = sets
  insert_windows (w ∷ ws) sets =
      insert_windows ws (insert (compute_trust_set w) (record { entries = w }) sets)

  -- Fewer anchors than a set holds are one set, when there is any.
  unfoldable pub from_anchors : List RootAnchor → AnchorSets
  unfolding insert_windows windows
  from_anchors [] = []
  from_anchors (a ∷ xs) =
      if ltb (length (a ∷ xs)) anchor_set_size
      then insert_windows ((a ∷ xs) ∷ []) []
      else insert_windows (windows anchor_set_size (a ∷ xs)) []
