-- ===== src/Handler/Hints/Ranking.antt =====
-- What the hints of relay/src/handler.rs are worth to a client: the answers of two relays to the same
-- request, in the order of fabric/rust/src/lib.rs.
use Prim.Native.Nat.{lt}
use certrelay.Prelude.{
  ℕ, ◌≤◌, ◌≡◌, inl, inr, true, some, List, String, string_dec_eq, arith, Option-cases,
}
use certrelay.Map.{lookup}
use certrelay.Store.Types.{Row}
use certrelay.Store.State.{Store}
use certrelay.Store.Pages.{contains}
use certrelay.Store.Update.Sequence.{IsSound}
use certrelay.Hints.{HintsResponse, cmp}
use certrelay.Hints.Fresher.{Fresher, cmp-Fresher}
use certrelay.Handler.Hints.{hints}
use certrelay.Handler.Hints.Rows.{row_seq}
use certrelay.Handler.Hints.Answers.{Answers, hints-Answers}

-- Of the handles in question the first store has each that the second has, with numbers at least as
-- great.
abbrev pub IsAhead : List String → Store → Store → Type 0
IsAhead hs s t =
    (h : String) (r : Row)
    → contains hs h ≡ true
    → lookup h t.handles ≡ some r
    → (q : Row) × (lookup h s.handles ≡ some q)
      × (r.epoch_height ≤ q.epoch_height)
      × (r.offchain_seq ≤ q.offchain_seq)
      × (r.delegate_offchain_seq ≤ q.delegate_offchain_seq)

module _ (m n : ℕ) (hs : List String) (s t : Store) where
  row_seq-IsAhead :
      (h : String)
      → IsAhead hs s t
      → contains hs h ≡ true
      → row_seq (lookup h t.handles) ≤ row_seq (lookup h s.handles)
  row_seq-IsAhead h w c = elim (Option-cases (lookup h t.handles)) [
    | inl e ↦ ground (arith, e)
    | inr (r, e) ↦ let (q, f, _, l, _) = w h r c e in ground (arith, e, f, l)
  ]

  Answers-Fresher :
      (a b : HintsResponse)
      → n ≤ m
      → IsAhead hs s t
      → Answers m hs s a
      → Answers n hs t b
      → Fresher a b
  Answers-Fresher a b l w v u = record {
    tip = ground (arith, l, v.tip, u.tip);
    spaces = λ p e. elim (Option-cases (lookup p t.handles)) [
      | inl f ↦ ground (arith, e, f, u.spaces p)
      | inr (r, f) ↦
          let c : contains hs p ≡ true = ground (arith, e, u.spaces p) in
          let (q, g, _, _, _) = w p r c f in ground (arith, e, f, g, u.spaces p, v.spaces p)
    ];
    root = λ p x y e f.
        let (q, g, x1, x2, x3) = v.root p x e in
        let (r, k, y1, y2, y3) = u.root p y f in
        let c : contains hs p ≡ true = ground (arith, f, u.spaces p) in
        let (q', g', l1, l2, l3) = w p r c k in
        let same : q ≡ q' = ground (arith, g, g') in
        (
          ground (arith, same, x1, y1, l1),
          ground (arith, same, x2, y2, l2),
          ground (arith, same, x3, y3, l3),
        );
    under = λ p x y h e f. ground (arith, v.under p x h e, u.under p y h f, row_seq-IsAhead h w);
  }

  -- Two relays with sound stores answer the same request. When the first has every handle of it that
  -- the second has, with numbers at least as great, and an anchor at least as new, its answer is not
  -- ranked below the other one.
  pub hints-ranked :
      (a b : HintsResponse)
      → IsSound s
      → IsSound t
      → n ≤ m
      → IsAhead hs s t
      → hints m hs s ≡ inr a
      → hints n hs t ≡ inr b
      → ¬ (cmp a b ≡ lt)
  hints-ranked a b x y l w e f = elim (hints-Answers m s hs x) [
    | inl (h, g, _) ↦ ground (arith, e, g)
    | inr (a', g, _, v) ↦ elim (hints-Answers n t hs y) [
      | inl (h, k, _) ↦ ground (arith, f, k)
      | inr (b', k, _, u) ↦
          let p : a' ≡ a = ground (arith, e, g) in
          let q : b' ≡ b = ground (arith, f, k) in
          cmp-Fresher a b (rw p at v).names (Answers-Fresher a b l w (rw p at v) (rw q at u))
    ]
  ]
