-- ===== src/Handler/Hints/Answers.antt =====
-- What a response of `hints` in relay/src/handler.rs says, as the order of fabric/rust/src/lib.rs
-- reads it.
use certrelay.Prelude.{
  ℕ, ◌≡◌, refl, true, false, ◌&&◌, ◌⊎◌, inl, inr, none, some, List, [], ap, sym, map, if◌then◌else◌,
  is_some, String, string_dec_eq, arith, Option-cases,
}
use certrelay.Map.{lookup, Distinct}
use certrelay.Map.Laws.{lookup-retain, retain-Distinct}
use certrelay.Store.Types.{HandleHintRow, Row}
use certrelay.Store.State.{Store}
use certrelay.Store.Pages.{contains}
use certrelay.Store.Rows.{rows_in, hint_row, get_handle_hints}
use certrelay.Store.Update.Sequence.{IsSound}
use certrelay.Hints.{SpaceHint, HintsResponse, flatten_handles, by_name, seq_in}
use certrelay.Handler.Strings.{
  sort, first_repeat, unique, contains-sort, unique-sort, first_repeat-sort,
}
use certrelay.Handler.Hints.{
  names_space, push_rows, find_row, space_hint, hints_of, hints_unless, hints,
}
use certrelay.Handler.Hints.Rows.{
  row_seq, is_under, greatest_of, seq_in-flatten_epochs, greatest_of-push_rows, greatest_row-rows,
  row_named, find_row-rows, lookup-hints_of, hints_of-Distinct,
}

-- The response tells, of the handles that were asked for, exactly what the store has: each space with
-- the numbers of its root, and within it each other handle with its number.
pub record Answers (newest : ℕ) (handles : List String) (s : Store) (r : HintsResponse)
    : Type 0 where
  pub tip : r.anchor_tip ≡ newest
  pub names : Distinct (by_name r.hints)
  pub spaces :
      (p : String)
      → is_some (lookup p (by_name r.hints))
        ≡ (contains handles p && names_space p && is_some (lookup p s.handles))
  pub root :
      (p : String) (x : SpaceHint)
      → lookup p (by_name r.hints) ≡ some x
      → (row : Row) × (lookup p s.handles ≡ some row)
        × (x.epoch_tip ≡ row.epoch_height)
        × (x.seq ≡ row.offchain_seq)
        × (x.delegate_seq ≡ row.delegate_offchain_seq)
  pub under :
      (p : String) (x : SpaceHint) (h : String)
      → lookup p (by_name r.hints) ≡ some x
      → seq_in h (flatten_handles x)
        ≡ (if contains handles h && is_under p h then row_seq (lookup h s.handles) else 0)

module _ (newest : ℕ) (s : Store) where
  pub row_found :
      (p : String) (hs : List String)
      → Distinct s.handles
      → find_row p (get_handle_hints hs s)
        ≡ row_named p (if contains hs p then lookup p s.handles else none)
  unfolding get_handle_hints rows_in
  row_found p hs d = ground (
    arith,
    find_row-rows p (rows_in hs s.handles),
    lookup-retain p (λ h _. contains hs h) s.handles d,
    Option-cases (lookup p s.handles),
  )

  seq_in-space_hint :
      (p h : String) (hs : List String) (row : HandleHintRow)
      → Distinct s.handles
      → seq_in h (flatten_handles (space_hint (get_handle_hints hs s) p row))
        ≡ (if contains hs h && is_under p h then row_seq (lookup h s.handles) else 0)
  unfolding get_handle_hints rows_in flatten_handles greatest_of lookup
  seq_in-space_hint p h hs row d =
      let rows = rows_in hs s.handles in
      ground (
        arith,
        seq_in-flatten_epochs h (push_rows p (map hint_row rows) []) [],
        greatest_of-push_rows p h (map hint_row rows) [],
        greatest_row-rows p h rows (retain-Distinct (λ g _. contains hs g) s.handles d),
        lookup-retain h (λ g _. contains hs g) s.handles d,
        Option-cases (lookup h s.handles),
      )

  hints_of-Answers :
      (hs : List String)
      → Distinct s.handles
      → unique hs ≡ true
      → Answers newest hs s
          (record { anchor_tip = newest; hints = hints_of (get_handle_hints hs s) hs })
  hints_of-Answers hs d u =
      let rows = get_handle_hints hs s in
      record {
        tip = refl;
        names = hints_of-Distinct rows hs u;
        spaces = λ p.
            ground (
              arith,
              lookup-hints_of p rows hs,
              row_found p hs d,
              Option-cases (lookup p s.handles),
            );
        root = λ p x e. elim (Option-cases (lookup p s.handles)) [
          | inl n ↦ ground (arith, e, n, lookup-hints_of p rows hs, row_found p hs d)
          | inr (row, q) ↦
              let f : space_hint rows p (hint_row (p, row)) ≡ x =
                ground (arith, e, q, lookup-hints_of p rows hs, row_found p hs d) in
              (
                row,
                q,
                ap (λ y. y.epoch_tip) (sym f),
                ap (λ y. y.seq) (sym f),
                ap (λ y. y.delegate_seq) (sym f),
              )
        ];
        under = λ p x h e. elim (Option-cases (find_row p rows)) [
          | inl n ↦ ground (arith, e, n, lookup-hints_of p rows hs)
          | inr (row, q) ↦
              ground (arith, e, q, lookup-hints_of p rows hs, seq_in-space_hint p h hs row d)
        ];
      }

  Answers-sort :
      (hs : List String) (r : HintsResponse) → Answers newest (sort hs) s r → Answers newest hs s r
  Answers-sort hs r a = record {
    tip = a.tip;
    names = a.names;
    spaces = λ p. ground (arith, a.spaces p, contains-sort p hs);
    root = a.root;
    under = λ p x h e. ground (arith, a.under p x h e, contains-sort h hs);
  }

  -- Over a sound store a request with a repeated handle is refused, and any other is answered with the
  -- newest anchor, one hint for each space that is asked for and stored, with the numbers of its root,
  -- and within it the number of each handle of the space that is asked for and stored.
  pub hints-Answers :
      (hs : List String)
      → IsSound s
      → ((h : String) × (hints newest hs s ≡ inl h) × (unique hs ≡ false))
        ⊎ ((r : HintsResponse) × (hints newest hs s ≡ inr r)
            × (unique hs ≡ true)
            × Answers newest hs s r)
  unfolding hints
  hints-Answers hs v = elim (Option-cases (first_repeat (sort hs))) [
    | inr (h, e) ↦
        inl (h, ap (hints_unless newest (sort hs) s) e, ground (arith, e, first_repeat-sort hs))
    | inl e ↦
        let u : unique hs ≡ true = ground (arith, e, first_repeat-sort hs) in
        let r : HintsResponse = record {
          anchor_tip = newest;
          hints = hints_of (get_handle_hints (sort hs) s) (sort hs);
        } in
        let a : Answers newest (sort hs) s r =
          hints_of-Answers (sort hs) v.accounts.distinct (ground (arith, u, unique-sort hs)) in
        inr (r, ap (hints_unless newest (sort hs) s) e, u, Answers-sort hs r a)
  ]
