-- ===== src/Map.antt =====
-- The hash maps of the program (std::collections::HashMap), as association lists. The order of the
-- list stands for the iteration order, which the standard library leaves open.
pub mod Laws
pub mod Sort
use certrelay.Prelude.{
  ℕ, Bool, ◌<◌, ◌≡◌, Option, none, some, List, [], ◌∷◌, ite, if◌then◌else◌, DecEq, dec_eq, dec_lt,
  is_some,
}

abbrev pub Map {ℓ} : Type ℓ → Type ℓ → Type ℓ
Map K V = List (K × V)

module _ {ℓ} {K V : Type ℓ} where
  -- `retain`: keeps the entries that pass the test.
  unfoldable pub retain : (K → V → Bool) → Map K V → Map K V
  retain p [] = []
  retain p ((k, v) ∷ m) = if p k v then (k, v) ∷ retain p m else retain p m

  -- The first entry with the smallest measure (`min_by_key`).
  unfoldable pub min_from : (V → ℕ) → K × V → Map K V → K × V
  min_from f best [] = best
  min_from f best ((j, w) ∷ m) = min_from f (ite (dec_lt (f w) (f best.1)) (j, w) best) m

  unfoldable pub min_by_key : (V → ℕ) → Map K V → Option (K × V)
  unfolding min_from
  min_by_key f [] = none
  min_by_key f (e ∷ m) = some (min_from f e m)

module _ {ℓ} {K V : Type ℓ} ⦃e : DecEq K⦄ where
  unfoldable pub lookup : K → Map K V → Option V
  lookup k [] = none
  lookup k ((j, v) ∷ m) = ite (dec_eq j k) (some v) (lookup k m)

  abbrev pub contains_key : K → Map K V → Bool
  contains_key k m = is_some (lookup k m)

  unfoldable pub insert : K → V → Map K V → Map K V
  insert k v [] = (k, v) ∷ []
  insert k v ((j, w) ∷ m) = ite (dec_eq j k) ((k, v) ∷ m) ((j, w) ∷ insert k v m)

  unfoldable pub remove : K → Map K V → Map K V
  remove k [] = []
  remove k ((j, v) ∷ m) = ite (dec_eq j k) (remove k m) ((j, v) ∷ remove k m)

  -- `get_mut` followed by an assignment: nothing happens on a missing key.
  unfoldable pub modify : K → (V → V) → Map K V → Map K V
  modify k f [] = []
  modify k f ((j, v) ∷ m) = ite (dec_eq j k) ((j, f v) ∷ modify k f m) ((j, v) ∷ modify k f m)

  -- No key has two entries.
  abbrev pub Distinct : Map K V → Type ℓ
  Distinct [] = Unit
  Distinct ((k, v) ∷ m) = (lookup k m ≡ none) × Distinct m

  -- `entry(k).or_insert(v)`.
  unfoldable pub or_insert : K → V → Map K V → Map K V
  unfolding insert
  or_insert k v m = if contains_key k m then m else insert k v m
