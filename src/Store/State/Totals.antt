-- ===== src/Store/State/Totals.antt =====
-- Sums over the rows of a map, and what the statements do to them.
use certrelay.Prelude.{ℕ, ◌+◌, ◌≡◌, refl, none, some, [], ◌∷◌, DecEq, arith}
use certrelay.Map.{Map, lookup, insert, remove, Distinct}

-- The sum of `f` over the values.
abbrev pub total {ℓ} : {K V : Type ℓ} → (V → ℕ) → Map K V → ℕ
total f [] = 0
total f ((k, v) ∷ m) = f v + total f m

module _ {ℓ} {K V : Type ℓ} ⦃e : DecEq K⦄ (f : V → ℕ) where
  total-remove_absent : (k : K) (m : Map K V) → lookup k m ≡ none → total f (remove k m) ≡ total f m
  unfolding lookup remove
  total-remove_absent k [] h = refl
  total-remove_absent k ((j, v) ∷ m) h = ground (arith, total-remove_absent k m)

  pub total-remove :
      (k : K) (v : V) (m : Map K V)
      → Distinct m
      → lookup k m ≡ some v
      → total f (remove k m) + f v ≡ total f m
  unfolding lookup remove
  total-remove k v [] d h = ground arith
  total-remove k v ((j, w) ∷ m) d h =
      ground (arith, total-remove k v m d.1, total-remove_absent k m)

  pub total-insert :
      (k : K) (v : V) (m : Map K V) → lookup k m ≡ none → total f (insert k v m) ≡ total f m + f v
  unfolding lookup insert
  total-insert k v [] h = omega arith
  total-insert k v ((j, w) ∷ m) h = ground (arith, total-insert k v m)
