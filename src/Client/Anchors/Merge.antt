-- ===== src/Client/Anchors/Merge.antt =====
-- What `AnchorPool::merged` of fabric/rust/src/client.rs makes of the three sources.
use certrelay.Prelude.{
  ℕ, ◌≡◌, ◌≤◌, ◌<◌, ◌∙◌, refl, inl, inr, ◌==◌, Option, none, some, List, [], ◌∷◌, ◌++◌, All,
  if◌then◌else◌, arith, Bool-cases,
}
use certrelay.Client.{AnchorPool, Anchoring}
use certrelay.Client.Anchors.{insert_anchor, sort_anchors, dedup_from, dedup_anchors, merged}

abbrev pub or_else : {A : Type 0} → Option A → Option A → Option A
or_else none o = o
or_else (some a) o = some a

module _ {A V : Type 0} (k : Anchoring A V) where
  -- The first anchor of this height.
  unfoldable pub at_height : ℕ → List A → Option A
  at_height n [] = none
  at_height n (x ∷ xs) = let rest = at_height n xs in if k.height x == n then some x else rest

  -- No anchor is higher than `n`.
  abbrev UpTo : ℕ → List A → Type 0
  UpTo n = All (λ x. k.height x ≤ n)

  abbrev IsSorted : List A → Type 0
  IsSorted [] = Unit {0}
  IsSorted (x ∷ xs) = UpTo (k.height x) xs × IsSorted xs

  -- Each anchor lies below the one before it.
  abbrev pub Descending : List A → Type 0
  Descending [] = Unit {0}
  Descending (x ∷ xs) = All (λ y. k.height y < k.height x) xs × Descending xs

  at_height-append :
      (n : ℕ) (xs ys : List A) → at_height n (xs ++ ys) ≡ or_else (at_height n xs) (at_height n ys)
  unfolding at_height
  at_height-append n [] ys = refl
  at_height-append n (x ∷ xs) ys = ground (arith, at_height-append n xs ys)

  at_height-insert_anchor :
      (n : ℕ) (x : A) (ys : List A) → at_height n (insert_anchor k x ys) ≡ at_height n (x ∷ ys)
  unfolding at_height insert_anchor
  at_height-insert_anchor n x [] = refl
  at_height-insert_anchor n x (y ∷ ys) = ground (arith, at_height-insert_anchor n x ys)

  at_height-sort_anchors : (n : ℕ) (xs : List A) → at_height n (sort_anchors k xs) ≡ at_height n xs
  unfolding at_height sort_anchors
  at_height-sort_anchors n [] = refl
  at_height-sort_anchors n (x ∷ xs) =
      ground (arith, at_height-insert_anchor n x (sort_anchors k xs), at_height-sort_anchors n xs)

  UpTo-mono : (n m : ℕ) (xs : List A) → n ≤ m → UpTo n xs → UpTo m xs
  UpTo-mono n m [] l a = tt
  UpTo-mono n m (x ∷ xs) l a = (omega arith, UpTo-mono n m xs l a.1)

  insert_anchor-UpTo :
      (n : ℕ) (x : A) (ys : List A) → k.height x ≤ n → UpTo n ys → UpTo n (insert_anchor k x ys)
  unfolding insert_anchor
  insert_anchor-UpTo n x [] l a = (l, tt)
  insert_anchor-UpTo n x (y ∷ ys) l a = ground (arith, insert_anchor-UpTo n x ys l a.1)

  insert_anchor-IsSorted : (x : A) (ys : List A) → IsSorted ys → IsSorted (insert_anchor k x ys)
  unfolding insert_anchor
  insert_anchor-IsSorted x [] s = (tt, tt)
  insert_anchor-IsSorted x (y ∷ ys) s = ground (
    arith,
    insert_anchor-IsSorted x ys s.1,
    insert_anchor-UpTo (k.height y) x ys,
    UpTo-mono (k.height y) (k.height x) ys,
  )

  sort_anchors-IsSorted : (xs : List A) → IsSorted (sort_anchors k xs)
  unfolding sort_anchors
  sort_anchors-IsSorted [] = tt
  sort_anchors-IsSorted (x ∷ xs) =
      insert_anchor-IsSorted x (sort_anchors k xs) (sort_anchors-IsSorted xs)

  -- Of a sorted list only the anchors of one height with the last one kept go.
  at_height-dedup_from :
      (n : ℕ) (x : A) (xs : List A) → at_height n (x ∷ dedup_from k x xs) ≡ at_height n (x ∷ xs)
  unfolding at_height dedup_from
  at_height-dedup_from n x [] = refl
  at_height-dedup_from n x (y ∷ ys) =
      ground (arith, at_height-dedup_from n x ys, at_height-dedup_from n y ys)

  below :
      (n m : ℕ) (xs : List A) → n < m → All (λ y. k.height y < n) xs → All (λ y. k.height y < m) xs
  below n m [] l a = tt
  below n m (x ∷ xs) l a = (omega (arith, a.0), below n m xs l a.1)

  dedup_from-Below :
      (x : A) (xs : List A)
      → UpTo (k.height x) xs
      → IsSorted xs
      → All (λ y. k.height y < k.height x) (dedup_from k x xs) × Descending (dedup_from k x xs)
  unfolding dedup_from
  dedup_from-Below x [] a s = (tt, tt)
  dedup_from-Below x (y ∷ ys) a s = elim (Bool-cases (k.height y == k.height x)) [
    | inl b ↦ rw b (dedup_from-Below x ys a.1 s.1)
    | inr b ↦
        let rest = dedup_from-Below y ys s.0 s.1 in
        rw b (
          (
            ground (arith, a, b),
            below (k.height y) (k.height x) (dedup_from k y ys) (ground (arith, a, b)) rest.0,
          ),
          rest,
        )
  ]

  at_height-dedup_anchors :
      (n : ℕ) (xs : List A) → at_height n (dedup_anchors k xs) ≡ at_height n xs
  unfolding dedup_anchors
  at_height-dedup_anchors n [] = refl
  at_height-dedup_anchors n (x ∷ xs) = at_height-dedup_from n x xs

  dedup_anchors-Descending : (xs : List A) → IsSorted xs → Descending (dedup_anchors k xs)
  unfolding dedup_anchors
  dedup_anchors-Descending [] s = tt
  dedup_anchors-Descending (x ∷ xs) s = dedup_from-Below x xs s.0 s.1

  -- The merged anchors are one for each height, from the highest down. The anchor of a height is the
  -- trusted one, or else the semi-trusted one, or else the observed one.
  pub merged-Descending :
      (p : AnchorPool A)
      → ((n : ℕ)
          → at_height n (merged k p)
            ≡ or_else
                (at_height n p.trusted)
                (or_else (at_height n p.semi_trusted) (at_height n p.observed)))
        × Descending (merged k p)
  unfolding merged
  merged-Descending p =
      let all = p.trusted ++ p.semi_trusted ++ p.observed in
      (
        λ n.
            at_height-dedup_anchors n (sort_anchors k all)
            ∙ at_height-sort_anchors n all
            ∙ ground (
              arith,
              at_height-append n (p.trusted ++ p.semi_trusted) p.observed,
              at_height-append n p.trusted p.semi_trusted,
            ),
        dedup_anchors-Descending (sort_anchors k all) (sort_anchors-IsSorted all),
      )
