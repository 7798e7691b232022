-- ===== src/Map/Sort.antt =====
-- Stable sorting of a map by a measure of its values (`sort_by_key`, `ORDER BY`).
use certrelay.Prelude.{
  ℕ, ◌≤◌, ◌≡◌, ◌∙◌, refl, none, some, [], ◌∷◌, All, leb, ite, dec_eq, DecEq, if◌then◌else◌, arith,
}
use certrelay.Map.{Map, lookup, Distinct}

module _ {K V : Type 0} (f : V → ℕ) where
  -- An entry stays before the later ones with the same measure.
  unfoldable pub insert_by : K × V → Map K V → Map K V
  insert_by x [] = x ∷ []
  insert_by x (y ∷ ys) =
      let rest = insert_by x ys in if leb (f x.1) (f y.1) then x ∷ y ∷ ys else y ∷ rest

  unfoldable pub sort_by : Map K V → Map K V
  unfolding insert_by
  sort_by [] = []
  sort_by (x ∷ xs) = insert_by x (sort_by xs)

  -- No entry has a measure below `n`.
  abbrev pub From : ℕ → Map K V → Type 0
  From n = All (λ x. n ≤ f x.1)

  abbrev pub IsSorted : Map K V → Type 0
  IsSorted [] = Unit {0}
  IsSorted (x ∷ m) = From (f x.1) m × IsSorted m

  From-mono : (k n : ℕ) (m : Map K V) → k ≤ n → From n m → From k m
  From-mono k n [] h a = tt
  From-mono k n (x ∷ m) h a = (omega arith, From-mono k n m h a.1)

  From-insert_by : (n : ℕ) (x : K × V) (m : Map K V) → n ≤ f x.1 → From n m → From n (insert_by x m)
  unfolding insert_by
  From-insert_by n x [] h a = (h, tt)
  From-insert_by n x (y ∷ m) h a = ground (arith, From-insert_by n x m h a.1)

  insert_by-IsSorted : (x : K × V) (m : Map K V) → IsSorted m → IsSorted (insert_by x m)
  unfolding insert_by
  insert_by-IsSorted x [] s = (tt, tt)
  insert_by-IsSorted x (y ∷ m) s =
      ground
        (arith, insert_by-IsSorted x m s.1, From-insert_by (f y.1) x m, From-mono (f x.1) (f y.1) m)

  pub sort_by-IsSorted : (m : Map K V) → IsSorted (sort_by m)
  unfolding sort_by
  sort_by-IsSorted [] = tt
  sort_by-IsSorted (x ∷ m) = insert_by-IsSorted x (sort_by m) (sort_by-IsSorted m)

module _ {K V : Type 0} ⦃e : DecEq K⦄ (f : V → ℕ) where
  pub From-lookup :
      (n : ℕ) (m : Map K V) (u : K) (v : V) → From f n m → lookup u m ≡ some v → n ≤ f v
  unfolding lookup
  From-lookup n [] u v a h = ground arith
  From-lookup n (x ∷ m) u v a h = ground (arith, From-lookup n m u v a.1)

  lookup-insert_by :
      (u : K) (x : K × V) (m : Map K V)
      → lookup x.0 m ≡ none
      → lookup u (insert_by f x m) ≡ ite (dec_eq x.0 u) (some x.1) (lookup u m)
  unfolding lookup insert_by
  lookup-insert_by u x [] h = refl
  lookup-insert_by u x (y ∷ m) h = ground (arith, lookup-insert_by u x m)

  -- Sorting keeps every entry.
  pub lookup-sort_by : (u : K) (m : Map K V) → Distinct m → lookup u (sort_by f m) ≡ lookup u m
  unfolding lookup sort_by
  lookup-sort_by u [] d = refl
  lookup-sort_by u (x ∷ m) d =
      ground (
        arith,
        lookup-sort_by u m d.1,
        lookup-sort_by x.0 m d.1,
        lookup-insert_by u x (sort_by f m),
      )

  insert_by-Distinct :
      (x : K × V) (m : Map K V) → lookup x.0 m ≡ none → Distinct m → Distinct (insert_by f x m)
  unfolding lookup insert_by
  insert_by-Distinct x [] h d = (refl, tt)
  insert_by-Distinct x (y ∷ m) h d =
      ground (arith, insert_by-Distinct x m, lookup-insert_by y.0 x m)

  pub sort_by-Distinct : (m : Map K V) → Distinct m → Distinct (sort_by f m)
  unfolding sort_by
  sort_by-Distinct [] d = tt
  sort_by-Distinct (x ∷ m) d =
      insert_by-Distinct x (sort_by f m) (lookup-sort_by x.0 m d.1 ∙ d.0) (sort_by-Distinct m d.1)
