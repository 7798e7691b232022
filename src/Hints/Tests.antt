-- ===== src/Hints/Tests.antt =====
-- The order of hints on three responses that beat each other in turn, so that it is not transitive, and
-- instances of the theorems.
use Prim.Native.Nat.{lt}
use certrelay.Prelude.{ℕ, ◌≡◌, refl, true, [], ◌∷◌, String, string_dec_eq, string_discrete}
use certrelay.Map.{lookup, Distinct}
use certrelay.Hints.{
  SpaceHint, HintsResponse, cmp_score, matched, missed, score, flatten_epochs, flatten_handles,
  space_score, by_name, cmp, same,
}
use certrelay.Hints.Order.{swap, cmp-swap}

abbrev hint : String → ℕ → SpaceHint
hint name seq = record { epoch_tip = 0; name = name; seq = seq; delegate_seq = 0; epochs = [] }

abbrev response : ℕ → ℕ → ℕ → HintsResponse
response a b c = record { anchor_tip = 0; hints = hint "@a" a ∷ hint "@b" b ∷ hint "@c" c ∷ [] }

first_below_second : cmp (response 1 2 3) (response 2 3 1) ≡ lt
unfolding cmp score matched missed space_score flatten_handles flatten_epochs cmp_score lookup
    string_discrete
first_below_second = refl

second_below_third : cmp (response 2 3 1) (response 3 1 2) ≡ lt
unfolding cmp score matched missed space_score flatten_handles flatten_epochs cmp_score lookup
    string_discrete
second_below_third = refl

third_below_first : cmp (response 3 1 2) (response 1 2 3) ≡ lt
unfolding cmp score matched missed space_score flatten_handles flatten_epochs cmp_score lookup
    string_discrete
third_below_first = refl

names-Distinct : (a b c : ℕ) → Distinct (by_name (response a b c).hints)
unfolding lookup string_discrete
names-Distinct a b c = (refl, (refl, (refl, tt)))

cmp-swap_example :
    (cmp (response 2 3 1) (response 1 2 3) ≡ swap (cmp (response 1 2 3) (response 2 3 1)))
    × (same (response 2 3 1) (response 1 2 3) ≡ same (response 1 2 3) (response 2 3 1))
    × (same (response 1 2 3) (response 1 2 3) ≡ true)
cmp-swap_example =
    cmp-swap (response 1 2 3) (response 2 3 1) (names-Distinct 1 2 3) (names-Distinct 2 3 1)
