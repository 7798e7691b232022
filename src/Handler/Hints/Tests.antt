-- ===== src/Handler/Hints/Tests.antt =====
-- Instances of the theorems on the hints of relay/src/handler.rs: two relays, one with a later record
-- of a handle.
use Prim.Native.Nat.{lt}
use certrelay.Prelude.{
  ℕ, ◌≡◌, refl, ◌⊎◌, inl, inr, true, false, List, [], ◌∷◌, String, string_dec_eq, string_discrete,
  ℕ_discrete, arith, dec_eq,
}
use certrelay.Map.{lookup, retain}
use certrelay.Store.Types.{Row, bucket, bucket_dec_eq, bucket_discrete}
use certrelay.Store.State.{Store, empty}
use certrelay.Store.Pages.{contains}
use certrelay.Store.Rows.{rows_in, get_handle_hints}
use certrelay.Store.Update.Sequence.{IsSound}
use certrelay.Hints.{HintsResponse, cmp}
use certrelay.Handler.Strings.{str_le, insert_sorted, sort, first_repeat, unique}
use certrelay.Handler.Hints.{
  names_space, ends_with, push_row, is_in_space, push_rows, find_row, hints_of, hints,
}
use certrelay.Handler.Hints.Answers.{Answers, hints-Answers}
use certrelay.Handler.Hints.Ranking.{IsAhead, hints-ranked}

abbrev row : ℕ → ℕ → Row
row seq number = record {
  space = "@bitcoin";
  cert_data = 1 ∷ [];
  zone_data = 2 ∷ [];
  epoch_height = 5;
  offchain_seq = seq;
  delegate_offchain_seq = 0;
  sync_seq = number;
  zone_hash = [];
  updated_at = 10;
}

-- A store in which the handle has this number.
abbrev stored : ℕ → Store
stored seq = record empty {
  handles = ("@bitcoin", row 3 1) ∷ ("alice@bitcoin", row seq 2) ∷ [];
  sync_counter = 2;
  space_epoch_counts = (bucket "@bitcoin" 5, 2) ∷ [];
  total_rows = 2;
  total_bytes = 4;
}

stored-IsSound : (seq : ℕ) → IsSound (stored seq)
unfolding lookup string_discrete bucket_discrete ℕ_discrete
stored-IsSound seq = record {
  accounts = record {
    distinct = (refl, (refl, tt));
    rows = refl;
    bytes = refl;
    counts = λ b. ground arith;
  };
  sequenced = record { bounded = λ h r e. ground arith; unique = λ g h q r e f same. ground arith };
}

abbrev asked : List String
asked = "alice@bitcoin" ∷ "bob@bitcoin" ∷ "@bitcoin" ∷ []

abbrev response : ℕ → HintsResponse
response seq = record {
  anchor_tip = 9;
  hints =
      record {
        epoch_tip = 5;
        name = "@bitcoin";
        seq = 3;
        delegate_seq = 0;
        epochs = record { epoch = 5; res = record { seq = seq; name = "alice@bitcoin" } ∷ [] } ∷ [];
      }
      ∷ [];
}

answered : (seq : ℕ) → hints 9 asked (stored seq) ≡ inr (response seq)
unfolding hints sort insert_sorted str_le first_repeat hints_of names_space find_row push_rows
    push_row is_in_space ends_with get_handle_hints rows_in retain contains string_discrete
answered seq = refl

refused : hints 9 ("@bitcoin" ∷ asked) (stored 1) ≡ inl "@bitcoin"
unfolding hints sort insert_sorted str_le first_repeat string_discrete
refused = refl

hints-Answers_example :
    ((h : String) × (hints 9 asked (stored 1) ≡ inl h) × (unique asked ≡ false))
    ⊎ ((r : HintsResponse) × (hints 9 asked (stored 1) ≡ inr r)
        × (unique asked ≡ true)
        × Answers 9 asked (stored 1) r)
hints-Answers_example = hints-Answers 9 (stored 1) asked (stored-IsSound 1)

ahead : IsAhead asked (stored 2) (stored 1)
unfolding lookup
ahead h r c e = elim (dec_eq "@bitcoin" h) [
  | yes p ↦ (row 3 1, ground arith, ground arith, ground arith, ground arith)
  | no p ↦ elim (dec_eq "alice@bitcoin" h) [
    | yes q ↦ (row 2 2, ground arith, ground arith, ground arith, ground arith)
    | no q ↦ ground (arith, e, p, q)
  ]
]

hints-ranked_example : ¬ (cmp (response 2) (response 1) ≡ lt)
hints-ranked_example =
    hints-ranked 9 9 asked (stored 2) (stored 1) (response 2) (response 1) (stored-IsSound 2)
      (stored-IsSound 1) (omega arith) ahead (answered 2) (answered 1)
