-- ===== src/Hints.antt =====
-- The hints of fabric/rust/src/lib.rs and their order. A score is kept as the points of both sides; the
-- program keeps the difference in an i32.
pub mod Order
pub mod Fresher
mod Tests
use Prim.Native.Nat.{compare, Ordering, lt, eq, gt}
use mathlib.Core.Option
use certrelay.Prelude.{
  ℕ, suc, ◌+◌, Bool, true, false, ◌==◌, Option, none, some, List, [], ◌∷◌, map, ltb, if◌then◌else◌,
  DecEq, String, string_dec_eq,
}
use certrelay.Map.{Map, lookup, insert, contains_key}

pub record HandleHint : Type 0 where
  pub seq : ℕ
  pub name : String

pub record EpochResult : Type 0 where
  pub epoch : ℕ
  pub res : List HandleHint

pub record SpaceHint : Type 0 where
  pub epoch_tip : ℕ
  pub name : String
  pub seq : ℕ
  pub delegate_seq : ℕ
  pub epochs : List EpochResult

pub record HintsResponse : Type 0 where
  pub anchor_tip : ℕ
  pub hints : List SpaceHint

-- The number that a flattened space keeps for a handle; a number of zero is not kept.
abbrev pub seq_in : String → Map String ℕ → ℕ
seq_in h m = Option.get_or (lookup h m) 0

-- Points for us, and points for the other.
pub record Score : Type 0 where
  pub ups : ℕ
  pub downs : ℕ

abbrev pub up : Score
up = record { ups = 1; downs = 0 }

abbrev pub down : Score
down = record { ups = 0; downs = 1 }

abbrev pub draw : Score
draw = record { ups = 0; downs = 0 }

abbrev pub add : Score → Score → Score
add s t = record { ups = s.ups + t.ups; downs = s.downs + t.downs }

unfoldable pub cmp_score : ℕ → ℕ → Score
cmp_score a b = if ltb b a then up else (if ltb a b then down else draw)

abbrev pub against : {V : Type 0} → (V → V → Score) → V → Option V → Score
against f x none = up
against f x (some y) = f x y

module _ {K V : Type 0} ⦃d : DecEq K⦄ (f : V → V → Score) where
  -- Our entries against theirs.
  unfoldable pub matched : Map K V → Map K V → Score
  matched [] b = draw
  matched ((k, x) ∷ a) b = add (against f x (lookup k b)) (matched a b)

  -- Their entries that we do not have.
  unfoldable pub missed : Map K V → Map K V → Score
  missed a [] = draw
  missed a ((k, y) ∷ b) = let rest = missed a b in if contains_key k a then rest else add down rest

  unfoldable pub score : Map K V → Map K V → Score
  unfolding matched missed
  score a b = add (matched a b) (missed a b)

-- The loop of `flatten_handles` over the handles of an epoch: the greatest number for each name.
unfoldable pub flatten_res : List HandleHint → Map String ℕ → Map String ℕ
flatten_res [] m = m
flatten_res (h ∷ hs) m =
    flatten_res hs
      (if ltb (Option.get_or (lookup h.name m) 0) h.seq then insert h.name h.seq m else m)

unfoldable pub flatten_epochs : List EpochResult → Map String ℕ → Map String ℕ
unfolding flatten_res
flatten_epochs [] m = m
flatten_epochs (e ∷ es) m = flatten_epochs es (flatten_res e.res m)

unfoldable pub flatten_handles : SpaceHint → Map String ℕ
unfolding flatten_epochs
flatten_handles s = flatten_epochs s.epochs []

unfoldable pub space_score : SpaceHint → SpaceHint → Score
unfolding cmp_score score flatten_handles
space_score s t = add (cmp_score s.epoch_tip t.epoch_tip) (
    add (cmp_score s.seq t.seq) (
      add (cmp_score s.delegate_seq t.delegate_seq)
        (score cmp_score (flatten_handles s) (flatten_handles t))))

-- `find` by name.
abbrev pub by_name : List SpaceHint → Map String SpaceHint
by_name hs = map (λ h. (h.name, h)) hs

unfoldable pub cmp : HintsResponse → HintsResponse → Ordering
unfolding score space_score
cmp a b =
    let s = score space_score (by_name a.hints) (by_name b.hints) in
    if s.ups == s.downs then compare a.anchor_tip b.anchor_tip else compare s.ups s.downs

unfoldable pub same : HintsResponse → HintsResponse → Bool
unfolding cmp
same a b = elim (cmp a b) [ lt ↦ false | eq ↦ true | gt ↦ false ]
