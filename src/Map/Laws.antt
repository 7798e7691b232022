-- ===== src/Map/Laws.antt =====
-- The laws of the maps: what each operation does to a lookup, to the size and to distinct keys.
use mathlib.Core.Option
use certrelay.Prelude.{
  not, ◌+◌, ℕ, suc, ◌+◌, ◌≤◌, ◌≡◌, refl, Bool, Option, none, some, [], ◌∷◌, ◌++◌, ite,
  if◌then◌else◌, DecEq, dec_eq, dec_lt, length, arith, ◌⊎◌, inl, inr,
}
use certrelay.Map.{
  Map, retain, min_from, min_by_key, lookup, contains_key, insert, remove, modify, or_insert,
  Distinct,
}

module _ {ℓ} {K V : Type ℓ} where
  pub length-retain-le : (p : K → V → Bool) (m : Map K V) → length (retain p m) ≤ length m
  unfolding retain
  length-retain-le p [] = omega arith
  length-retain-le p ((k, v) ∷ m) = ground (arith, length-retain-le p m)

module _ {ℓ} {K V : Type ℓ} where
  pub length-retain-split :
      (p : K → V → Bool) (m : Map K V)
      → length (retain p m) + length (retain (λ k v. not (p k v)) m) ≡ length m
  unfolding retain
  length-retain-split p [] = omega arith
  length-retain-split p ((k, v) ∷ m) = ground (arith, length-retain-split p m)

-- What a lookup sees through `retain`.
abbrev pub keep_if {ℓ} : {V : Type ℓ} → (V → Bool) → Option V → Option V
keep_if p none = none
keep_if p (some v) = if p v then some v else none

module _ {ℓ} {K V : Type ℓ} ⦃e : DecEq K⦄ where
  pub lookup-retain-none :
      (j : K) (p : K → V → Bool) (m : Map K V) → lookup j m ≡ none → lookup j (retain p m) ≡ none
  unfolding lookup retain
  lookup-retain-none j p [] h = refl
  lookup-retain-none j p ((k, v) ∷ m) h = ground (arith, lookup-retain-none j p m)

  pub lookup-retain :
      (j : K) (p : K → V → Bool) (m : Map K V)
      → Distinct m
      → lookup j (retain p m) ≡ keep_if (p j) (lookup j m)
  unfolding lookup retain
  lookup-retain j p [] d = refl
  lookup-retain j p ((k, v) ∷ m) d =
      ground (arith, lookup-retain j p m d.1, lookup-retain-none k p m)

  pub lookup-insert :
      (j k : K) (v : V) (m : Map K V)
      → lookup j (insert k v m) ≡ ite (dec_eq k j) (some v) (lookup j m)
  unfolding lookup insert
  lookup-insert j k v [] = refl
  lookup-insert j k v ((i, w) ∷ m) = ground (arith, lookup-insert j k v m)

  pub lookup-remove :
      (j k : K) (m : Map K V) → lookup j (remove k m) ≡ ite (dec_eq k j) none (lookup j m)
  unfolding lookup remove
  lookup-remove j k [] = ground arith
  lookup-remove j k ((i, w) ∷ m) = ground (arith, lookup-remove j k m)

  pub lookup-modify :
      (j k : K) (f : V → V) (m : Map K V)
      → lookup j (modify k f m) ≡ ite (dec_eq k j) (Option.map f (lookup j m)) (lookup j m)
  unfolding lookup modify
  lookup-modify j k f [] = ground arith
  lookup-modify j k f ((i, w) ∷ m) = ground (arith, lookup-modify j k f m)

  pub retain-Distinct : (p : K → V → Bool) (m : Map K V) → Distinct m → Distinct (retain p m)
  unfolding retain
  retain-Distinct p [] d = tt
  retain-Distinct p ((k, v) ∷ m) d =
      ground (arith, retain-Distinct p m d.1, lookup-retain-none k p m)

  pub insert-Distinct : (k : K) (v : V) (m : Map K V) → Distinct m → Distinct (insert k v m)
  unfolding lookup insert
  insert-Distinct k v [] d = (refl, tt)
  insert-Distinct k v ((i, w) ∷ m) d =
      ground (arith, insert-Distinct k v m d.1, lookup-insert i k v m)

  pub remove-Distinct : (k : K) (m : Map K V) → Distinct m → Distinct (remove k m)
  unfolding remove
  remove-Distinct k [] d = tt
  remove-Distinct k ((i, w) ∷ m) d = ground (arith, remove-Distinct k m d.1, lookup-remove i k m)

  pub modify-Distinct : (k : K) (f : V → V) (m : Map K V) → Distinct m → Distinct (modify k f m)
  unfolding modify
  modify-Distinct k f [] d = tt
  modify-Distinct k f ((i, w) ∷ m) d =
      ground (arith, modify-Distinct k f m d.1, lookup-modify i k f m)

  pub length-insert :
      (k : K) (v : V) (m : Map K V)
      → length (insert k v m) ≡ (if contains_key k m then length m else suc (length m))
  unfolding lookup insert
  length-insert k v [] = refl
  length-insert k v ((i, w) ∷ m) = ground (arith, length-insert k v m)

  pub length-modify : (k : K) (f : V → V) (m : Map K V) → length (modify k f m) ≡ length m
  unfolding modify
  length-modify k f [] = refl
  length-modify k f ((i, w) ∷ m) = ground (arith, length-modify k f m)

  pub or_insert-Distinct : (k : K) (v : V) (m : Map K V) → Distinct m → Distinct (or_insert k v m)
  unfolding or_insert
  or_insert-Distinct k v m d = ground (arith, insert-Distinct k v m d)

  pub lookup-or_insert :
      (j k : K) (v : V) (m : Map K V)
      → lookup j (or_insert k v m)
        ≡ (if contains_key j m then lookup j m else ite (dec_eq k j) (some v) none)
  unfolding or_insert
  lookup-or_insert j k v m = ground (arith, lookup-insert j k v m)

  pub length-or_insert-le :
      (k : K) (v : V) (m : Map K V) → length (or_insert k v m) ≤ suc (length m)
  unfolding or_insert
  length-or_insert-le k v m = ground (arith, length-insert k v m)

  pub length-remove-le : (k : K) (m : Map K V) → length (remove k m) ≤ length m
  unfolding remove
  length-remove-le k [] = omega arith
  length-remove-le k ((i, w) ∷ m) = ground (arith, length-remove-le k m)

  pub remove_absent : (k : K) (m : Map K V) → lookup k m ≡ none → remove k m ≡ m
  unfolding lookup remove
  remove_absent k [] h = refl
  remove_absent k ((i, w) ∷ m) h = ground (arith, remove_absent k m)

  pub length-remove :
      (k : K) (m : Map K V)
      → Distinct m
      → (if contains_key k m then suc (length (remove k m)) else length (remove k m)) ≡ length m
  unfolding lookup remove
  length-remove k [] d = refl
  length-remove k ((i, w) ∷ m) d = ground (arith, length-remove k m d.1, remove_absent k m)

  -- Removal of a present key shortens the map, duplicates or not.
  pub length-remove-lt :
      (k : K) (m : Map K V) (v : V) → lookup k m ≡ some v → suc (length (remove k m)) ≤ length m
  unfolding lookup remove
  length-remove-lt k [] v h = ground arith
  length-remove-lt k ((i, w) ∷ m) v h = ground (arith, length-remove-lt k m v, length-remove-le k m)

module _ {ℓ} {K V : Type ℓ} ⦃e : DecEq K⦄ where
  pub lookup-append :
      (j : K) (m n : Map K V)
      → lookup j (m ++ n) ≡ (if contains_key j m then lookup j m else lookup j n)
  unfolding lookup
  lookup-append j [] n = refl
  lookup-append j ((k, v) ∷ m) n = ground (arith, lookup-append j m n)

module _ {ℓ} {K V : Type ℓ} ⦃e : DecEq K⦄ (f : V → ℕ) where
  min_from-le : (best : K × V) (m : Map K V) → f (min_from f best m).1 ≤ f best.1
  unfolding min_from
  min_from-le best [] = omega arith
  min_from-le best ((i, u) ∷ m) =
      ground (arith, min_from-le (ite (dec_lt (f u) (f best.1)) (i, u) best) m)

  min_from-le_all :
      (best : K × V) (m : Map K V) (j : K) (w : V)
      → lookup j m ≡ some w
      → f (min_from f best m).1 ≤ f w
  unfolding min_from lookup
  min_from-le_all best [] j w h = ground arith
  min_from-le_all best ((i, u) ∷ m) j w h =
      let next = ite (dec_lt (f u) (f best.1)) (i, u) best in
      ground (arith, min_from-le next m, min_from-le_all next m j w)

  min_from-entry :
      (best : K × V) (m : Map K V)
      → Distinct m
      → (min_from f best m ≡ best) ⊎ (lookup (min_from f best m).0 m ≡ some (min_from f best m).1)
  unfolding min_from lookup
  min_from-entry best [] d = inl refl
  min_from-entry best ((i, u) ∷ m) d =
      ground (arith, min_from-entry (ite (dec_lt (f u) (f best.1)) (i, u) best) m d.1)

  first_entry :
      (b : K × V) (m : Map K V)
      → Distinct (b ∷ m)
      → lookup (min_from f b m).0 (b ∷ m) ≡ some (min_from f b m).1
  unfolding lookup
  first_entry b m d = ground (arith, min_from-entry b m d.1)

  first_le :
      (b : K × V) (m : Map K V) (j : K) (w : V)
      → lookup j (b ∷ m) ≡ some w
      → f (min_from f b m).1 ≤ f w
  unfolding lookup
  first_le b m j w h = ground (arith, min_from-le b m, min_from-le_all b m j w)

  -- `min_by_key` finds an entry with the smallest measure, on every map but the empty one.
  pub min_by_key-cases :
      (m : Map K V)
      → Distinct m
      → ((m ≡ []) × (min_by_key f m ≡ none))
        ⊎ ((k : K) × (v : V) × (min_by_key f m ≡ some (k, v))
            × (lookup k m ≡ some v)
            × ((j : K) (w : V) → lookup j m ≡ some w → f v ≤ f w))
  unfolding min_by_key
  min_by_key-cases [] d = inl (refl, refl)
  min_by_key-cases (b ∷ m) d =
      let r = min_from f b m in inr (r.0, r.1, refl, first_entry b m d, λ j w h. first_le b m j w h)
