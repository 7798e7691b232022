-- ===== src/Hints/Fresher.antt =====
-- The order of hints in fabric/rust/src/lib.rs on responses of which one is behind in nothing.
use Prim.Native.Nat.{lt}
use mathlib.Core.Option
use certrelay.Prelude.{
  ℕ, ◌≤◌, ◌≡◌, ◌≢◌, refl, inl, inr, true, some, List, [], ◌∷◌, ltb, if◌then◌else◌, is_some, DecEq,
  String, string_dec_eq, arith, Option-cases,
}
use certrelay.Map.{Map, lookup, insert, Distinct}
use certrelay.Map.Laws.{lookup-insert}
use certrelay.Hints.Order.{flatten_handles-Distinct}
use certrelay.Hints.{
  HandleHint, EpochResult, SpaceHint, HintsResponse, Score, cmp_score, matched, missed, score,
  flatten_res, flatten_epochs, flatten_handles, space_score, by_name, seq_in, cmp,
}

module _ {K V : Type 0} ⦃d : DecEq K⦄ (f : V → V → Score) where
  matched_downs :
      (a b : Map K V)
      → Distinct a
      → ((k : K) (x y : V) → lookup k a ≡ some x → lookup k b ≡ some y → (f x y).downs ≡ 0)
      → (matched f a b).downs ≡ 0
  unfolding matched lookup
  matched_downs [] b u h = refl
  matched_downs ((k, x) ∷ a) b u h =
      let rest = matched_downs a b u.1 (λ j y z p q. h j y z (ground (arith, p, u.0)) q) in
      elim (Option-cases (lookup k b)) [
        | inl n ↦ ground (arith, n, rest)
        | inr (y, e) ↦ ground (arith, e, rest, h k x y (ground arith) e)
      ]

  missed_downs :
      (a b : Map K V)
      → ((k : K) → is_some (lookup k b) ≡ true → is_some (lookup k a) ≡ true)
      → (missed f a b).downs ≡ 0
  unfolding missed lookup
  missed_downs a [] h = refl
  missed_downs a ((k, y) ∷ b) h =
      ground (arith, missed_downs a b (λ j p. h j (ground (arith, p))), h k)

  score_downs :
      (a b : Map K V)
      → Distinct a
      → ((k : K) (x y : V) → lookup k a ≡ some x → lookup k b ≡ some y → (f x y).downs ≡ 0)
      → ((k : K) → is_some (lookup k b) ≡ true → is_some (lookup k a) ≡ true)
      → (score f a b).downs ≡ 0
  unfolding score
  score_downs a b u h g = omega (arith, matched_downs a b u h, missed_downs a b g)

cmp_score_downs : (m n : ℕ) → n ≤ m → (cmp_score m n).downs ≡ 0
unfolding cmp_score
cmp_score_downs m n l = ground arith

-- A number that is kept is not zero.
abbrev Positive : Map String ℕ → Type 0
Positive m = (h : String) → lookup h m ≢ some 0

flatten_res-Positive :
    (xs : List HandleHint) (m : Map String ℕ) → Positive m → Positive (flatten_res xs m)
unfolding flatten_res
flatten_res-Positive [] m p = p
flatten_res-Positive (x ∷ xs) m p =
    let m' = if ltb (Option.get_or (lookup x.name m) 0) x.seq then insert x.name x.seq m else m in
    flatten_res-Positive xs m' (λ h e. ground (arith, e, p h, lookup-insert h x.name x.seq m))

flatten_epochs-Positive :
    (es : List EpochResult) (m : Map String ℕ) → Positive m → Positive (flatten_epochs es m)
unfolding flatten_epochs
flatten_epochs-Positive [] m p = p
flatten_epochs-Positive (e ∷ es) m p =
    flatten_epochs-Positive es (flatten_res e.res m) (flatten_res-Positive e.res m p)

flatten_handles-Positive : (x : SpaceHint) → Positive (flatten_handles x)
unfolding flatten_handles lookup
flatten_handles-Positive x = flatten_epochs-Positive x.epochs [] (λ h e. ground (arith, e))

-- The second response is ahead of the first in nothing: it has no later anchor, no space that the first
-- has not, and no greater number.
pub record Fresher (a b : HintsResponse) : Type 0 where
  pub tip : b.anchor_tip ≤ a.anchor_tip
  pub spaces :
      (p : String)
      → is_some (lookup p (by_name b.hints)) ≡ true
      → is_some (lookup p (by_name a.hints)) ≡ true
  pub root :
      (p : String) (x y : SpaceHint)
      → lookup p (by_name a.hints) ≡ some x
      → lookup p (by_name b.hints) ≡ some y
      → (y.epoch_tip ≤ x.epoch_tip) × (y.seq ≤ x.seq) × (y.delegate_seq ≤ x.delegate_seq)
  pub under :
      (p : String) (x y : SpaceHint) (h : String)
      → lookup p (by_name a.hints) ≡ some x
      → lookup p (by_name b.hints) ≡ some y
      → seq_in h (flatten_handles y) ≤ seq_in h (flatten_handles x)

seq_in-some : (h : String) (n : ℕ) (m : Map String ℕ) → lookup h m ≡ some n → seq_in h m ≡ n
seq_in-some h n m e = ground (arith, e)

handles_downs :
    (x y : SpaceHint)
    → ((h : String) → seq_in h (flatten_handles y) ≤ seq_in h (flatten_handles x))
    → (score cmp_score (flatten_handles x) (flatten_handles y)).downs ≡ 0
handles_downs x y l =
    let a = flatten_handles x in
    let b = flatten_handles y in
    score_downs cmp_score a b (flatten_handles-Distinct x)
      (λ h m n e f. cmp_score_downs m n (ground (arith, e, f, l h)))
      (λ h e. elim (Option-cases (lookup h b)) [
        | inl z ↦ ground (arith, e, z)
        | inr (n, f) ↦ ground (arith, f, l h, flatten_handles-Positive y h)
      ])

space_score_downs :
    (x y : SpaceHint)
    → (y.epoch_tip ≤ x.epoch_tip) × (y.seq ≤ x.seq) × (y.delegate_seq ≤ x.delegate_seq)
    → ((h : String) → seq_in h (flatten_handles y) ≤ seq_in h (flatten_handles x))
    → (space_score x y).downs ≡ 0
unfolding space_score
space_score_downs x y (p, q, r) l = omega (
  arith,
  cmp_score_downs x.epoch_tip y.epoch_tip p,
  cmp_score_downs x.seq y.seq q,
  cmp_score_downs x.delegate_seq y.delegate_seq r,
  handles_downs x y l,
)

-- A response is never ranked below one that is ahead of it in nothing.
pub cmp-Fresher :
    (a b : HintsResponse) → Distinct (by_name a.hints) → Fresher a b → ¬ (cmp a b ≡ lt)
unfolding cmp
cmp-Fresher a b d w e =
    let z : (score space_score (by_name a.hints) (by_name b.hints)).downs ≡ 0 =
      score_downs space_score (by_name a.hints) (by_name b.hints) d
        (λ p x y f g. space_score_downs x y (w.root p x y f g) (λ h. w.under p x y h f g))
        w.spaces in
    ground (arith, e, z, w.tip)
