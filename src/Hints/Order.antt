-- ===== src/Hints/Order.antt =====
-- The order of hints (`Ord for HintsResponse` of fabric/rust/src/lib.rs) from both sides.
use Prim.Native.Nat.{Ordering, lt, eq, gt}
use mathlib.Core.Option
use certrelay.Prelude.{
  ℕ, ◌≡◌, refl, inl, inr, true, none, some, List, [], ◌∷◌, ltb, length, DecEq, String,
  string_dec_eq, arith, Option-cases, Bool-cases,
}
use certrelay.Map.{Map, lookup, insert, Distinct}
use certrelay.Map.Laws.{insert-Distinct}
use certrelay.Hints.{
  HandleHint, EpochResult, SpaceHint, HintsResponse, Score, up, down, add, cmp_score, matched,
  missed, score, flatten_res, flatten_epochs, flatten_handles, space_score, by_name, cmp, same,
}

abbrev pub flip : Score → Score
flip s = record { ups = s.downs; downs = s.ups }

abbrev pub swap : Ordering → Ordering
swap lt = gt
swap eq = eq
swap gt = lt

module _ {K V : Type 0} ⦃d : DecEq K⦄ (f : V → V → Score) where
  -- One more entry on the other side, with a new name.
  matched_new :
      (k : K) (x : V) (a b : Map K V) → lookup k b ≡ none → matched f b ((k, x) ∷ a) ≡ matched f b a
  unfolding matched lookup
  matched_new k x a [] n = refl
  matched_new k x a ((j, z) ∷ b) n = ground (arith, matched_new k x a b)

  matched_known :
      (k : K) (x y : V) (a b : Map K V)
      → lookup k a ≡ none
      → Distinct b
      → lookup k b ≡ some y
      → add up (matched f b ((k, x) ∷ a)) ≡ add (f y x) (matched f b a)
  unfolding matched lookup
  matched_known k x y a [] e v n = ground arith
  matched_known k x y a ((j, z) ∷ b) e v n =
      ground (arith, v.0, matched_new k x a b, matched_known k x y a b e v.1)

  missed_new :
      (k : K) (x : V) (a b : Map K V) → lookup k b ≡ none → missed f ((k, x) ∷ a) b ≡ missed f a b
  unfolding missed lookup
  missed_new k x a [] n = refl
  missed_new k x a ((j, z) ∷ b) n = ground (arith, missed_new k x a b)

  missed_known :
      (k : K) (x y : V) (a b : Map K V)
      → lookup k a ≡ none
      → Distinct b
      → lookup k b ≡ some y
      → add down (missed f ((k, x) ∷ a) b) ≡ missed f a b
  unfolding missed lookup
  missed_known k x y a [] e v n = ground arith
  missed_known k x y a ((j, z) ∷ b) e v n =
      ground (arith, v.0, missed_new k x a b, missed_known k x y a b e v.1)

  -- Against nothing.
  score_empty :
      (b : Map K V)
      → (score f b [] ≡ record { ups = length b; downs = 0 })
        × (score f [] b ≡ record { ups = 0; downs = length b })
  unfolding score matched missed lookup
  score_empty [] = (refl, refl)
  score_empty (x ∷ b) = ground (arith, score_empty b)

  -- The two sides see opposite scores, when their names are distinct.
  pub score-flip :
      (a b : Map K V)
      → ((x y : V) → f y x ≡ flip (f x y))
      → Distinct a
      → Distinct b
      → score f b a ≡ flip (score f a b)
  unfolding score matched missed lookup
  score-flip [] b sym_f v w = ground (arith, score_empty b)
  score-flip ((k, x) ∷ a) b sym_f v w = elim (Option-cases (lookup k b)) [
    | inl n ↦
        ground
          (arith, n, v.0, score-flip a b sym_f v.1 w, matched_new k x a b n, missed_new k x a b n)
    | inr (y, n) ↦ ground (
      arith,
      n,
      v.0,
      sym_f x y,
      score-flip a b sym_f v.1 w,
      matched_known k x y a b v.0 w n,
      missed_known k x y a b v.0 w n,
    )
  ]

cmp_score-flip : (a b : ℕ) → cmp_score b a ≡ flip (cmp_score a b)
unfolding cmp_score
cmp_score-flip a b = ground arith

flatten_res-Distinct :
    (hs : List HandleHint) (m : Map String ℕ) → Distinct m → Distinct (flatten_res hs m)
unfolding flatten_res
flatten_res-Distinct [] m v = v
flatten_res-Distinct (h ∷ hs) m v =
    elim (Bool-cases (ltb (Option.get_or (lookup h.name m) 0) h.seq)) [
      | inl b ↦
          rw (b, flatten_res, Distinct)
            (flatten_res-Distinct hs (insert h.name h.seq m) (insert-Distinct h.name h.seq m v))
      | inr b ↦ rw (b, flatten_res, Distinct) (flatten_res-Distinct hs m v)
    ]

flatten_epochs-Distinct :
    (es : List EpochResult) (m : Map String ℕ) → Distinct m → Distinct (flatten_epochs es m)
unfolding flatten_epochs
flatten_epochs-Distinct [] m v = v
flatten_epochs-Distinct (e ∷ es) m v =
    flatten_epochs-Distinct es (flatten_res e.res m) (flatten_res-Distinct e.res m v)

pub flatten_handles-Distinct : (s : SpaceHint) → Distinct (flatten_handles s)
unfolding flatten_handles
flatten_handles-Distinct s = flatten_epochs-Distinct s.epochs [] tt

space_score-flip : (s t : SpaceHint) → space_score t s ≡ flip (space_score s t)
unfolding space_score
space_score-flip s t = ground (
  arith,
  cmp_score-flip s.epoch_tip t.epoch_tip,
  cmp_score-flip s.seq t.seq,
  cmp_score-flip s.delegate_seq t.delegate_seq,
  score-flip cmp_score (flatten_handles s) (flatten_handles t) cmp_score-flip
      (flatten_handles-Distinct s) (flatten_handles-Distinct t),
)

pub cmp-swap_all :
    (a b : HintsResponse)
    → Distinct (by_name a.hints)
    → Distinct (by_name b.hints)
    → cmp b a ≡ swap (cmp a b)
unfolding cmp
cmp-swap_all a b v w =
    ground (arith, score-flip space_score (by_name a.hints) (by_name b.hints) space_score-flip v w)

same_self : (a : HintsResponse) → cmp a a ≡ swap (cmp a a) → same a a ≡ true
unfolding same
same_self a e = ground arith

-- Two responses that name each space once are ordered the same way from both sides: when one is
-- fresher than the other, the other is staler than it, and equality is symmetric. Each such response
-- is equal to itself.
pub cmp-swap :
    (a b : HintsResponse)
    → Distinct (by_name a.hints)
    → Distinct (by_name b.hints)
    → (cmp b a ≡ swap (cmp a b)) × (same b a ≡ same a b) × (same a a ≡ true)
unfolding same
cmp-swap a b v w =
    (cmp-swap_all a b v w, ground (arith, cmp-swap_all a b v w), same_self a (cmp-swap_all a a v v))
