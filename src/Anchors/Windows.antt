-- ===== src/Anchors/Windows.antt =====
-- The windows of fabric/rust/src/anchor.rs, and the sets under which they are kept.
use mathlib.Core.List.{Memᴰ}
use mathlib.Core.List.Memᴰ
use certrelay.Prelude.{
  ℕ, zero, suc, ◌≤◌, ◌≡◌, refl, sym, ap, ◌⊎◌, inl, inr, true, some, List, [], ◌∷◌, ◌++◌, leb,
  length, length-append, take, dec_eq, is_some, arith, Bool-cases,
}
use certrelay.Map.{lookup, insert, Distinct}
use certrelay.Map.Laws.{lookup-insert, insert-Distinct}
use certrelay.Store.Types.{Bytes}
use certrelay.Store.Update.{bytes_dec_eq}
use certrelay.Anchors.{RootAnchor, AnchorSet, windows, AnchorSets, insert_windows}

pub split_at :
    (n : ℕ) (xs : List RootAnchor)
    → n ≤ length xs
    → (ys : List RootAnchor) × (xs ≡ take n xs ++ ys) × (length (take n xs) ≡ n)
split_at zero xs l = (xs, refl, refl)
split_at (suc n) [] l = ground (arith, l)
split_at (suc n) (x ∷ xs) l =
    let (ys, e, f) = split_at n xs (omega arith) in (ys, ap (λ zs. x ∷ zs) e, omega (arith, f))

pub windows-parts :
    (n : ℕ) (xs w : List RootAnchor)
    → Memᴰ w (windows n xs)
    → (pre post : List RootAnchor) × (xs ≡ pre ++ (w ++ post)) × (length w ≡ n)
unfolding windows
windows-parts n [] w m = absurd (Memᴰ.not-nil m)
windows-parts n (x ∷ xs) w m = elim (Bool-cases (leb n (length (x ∷ xs)))) [
  | inr b ↦ absurd (Memᴰ.not-nil (rw (b, windows) at m))
  | inl b ↦ elim (Memᴰ.cases_cons (rw (b, windows) at m)) [
    | inl e ↦
        let (post, p, q) = split_at n (x ∷ xs) (ground (arith, b)) in ([], post, rw e p, rw e q)
    | inr r ↦
        let (pre, post, p, q) = windows-parts n xs w r in (x ∷ pre, post, ap (λ zs. x ∷ zs) p, q)
  ]
]

take-append : (w post : List RootAnchor) → take (length w) (w ++ post) ≡ w
take-append [] post = refl
take-append (x ∷ w) post = ap (λ zs. x ∷ zs) (take-append w post)

pub windows-complete :
    (n : ℕ) (pre w post : List RootAnchor)
    → length w ≡ suc n
    → Memᴰ w (windows (suc n) (pre ++ (w ++ post)))
unfolding windows
windows-complete n [] [] post e = ground (arith, e)
windows-complete n [] (x ∷ w) post e =
    let b : leb (suc n) (length (x ∷ (w ++ post))) ≡ true =
      ground (arith, e, length-append w post) in
    let q : length w ≡ n = omega (arith, e) in
    rw (b, windows) (Memᴰ.head (ap (λ zs. x ∷ zs) (sym (rw q at (take-append w post)))))
windows-complete n (y ∷ pre) w post e =
    let b : leb (suc n) (length (y ∷ (pre ++ (w ++ post)))) ≡ true =
      ground (arith, e, length-append pre (w ++ post), length-append w post) in
    rw (b, windows) (Memᴰ.tail (windows-complete n pre w post e))

pub append_nil : (xs : List RootAnchor) → xs ≡ xs ++ []
append_nil [] = refl
append_nil (x ∷ xs) = ap (λ zs. x ∷ zs) (append_nil xs)

module _ (compute_trust_set : List RootAnchor → Bytes) where
  pub insert_windows-origin :
      (ws : List (List RootAnchor)) (m : AnchorSets) (id : Bytes) (s : AnchorSet)
      → lookup id (insert_windows compute_trust_set ws m) ≡ some s
      → (lookup id m ≡ some s) ⊎ (Memᴰ s.entries ws × (compute_trust_set s.entries ≡ id))
  unfolding insert_windows
  insert_windows-origin [] m id s e = inl e
  insert_windows-origin (w ∷ ws) m id s e =
      let key = compute_trust_set w in
      elim (insert_windows-origin ws (insert key (record { entries = w }) m) id s e) [
        | inr (n, f) ↦ inr (Memᴰ.tail n, f)
        | inl f ↦
            let l = lookup-insert id key (record { entries = w }) m in
            elim (dec_eq key id) [
              | no other ↦ inl (ground (arith, f, l, other))
              | yes same ↦
                  let q : w ≡ s.entries = ground (arith, f, l, same) in
                  inr (Memᴰ.head (sym q), rw q at same)
            ]
      ]

  insert_windows-old :
      (ws : List (List RootAnchor)) (m : AnchorSets) (id : Bytes)
      → is_some (lookup id m) ≡ true
      → is_some (lookup id (insert_windows compute_trust_set ws m)) ≡ true
  unfolding insert_windows
  insert_windows-old [] m id e = e
  insert_windows-old (w ∷ ws) m id e =
      let key = compute_trust_set w in
      insert_windows-old ws (insert key (record { entries = w }) m) id
        (ground (arith, e, lookup-insert id key (record { entries = w }) m))

  pub insert_windows-new :
      (ws : List (List RootAnchor)) (m : AnchorSets) (w : List RootAnchor)
      → Memᴰ w ws
      → is_some (lookup (compute_trust_set w) (insert_windows compute_trust_set ws m)) ≡ true
  unfolding insert_windows
  insert_windows-new [] m w n = absurd (Memᴰ.not-nil n)
  insert_windows-new (v ∷ ws) m w n =
      let key = compute_trust_set v in
      let m' = insert key (record { entries = v }) m in
      elim (Memᴰ.cases_cons n) [
        | inr r ↦ insert_windows-new ws m' w r
        | inl e ↦
            insert_windows-old ws m' (compute_trust_set w)
              (rw e (ground (arith, lookup-insert key key (record { entries = v }) m)))
      ]

  pub insert_windows-Distinct :
      (ws : List (List RootAnchor)) (m : AnchorSets)
      → Distinct m
      → Distinct (insert_windows compute_trust_set ws m)
  unfolding insert_windows
  insert_windows-Distinct [] m d = d
  insert_windows-Distinct (w ∷ ws) m d =
      insert_windows-Distinct ws (insert (compute_trust_set w) (record { entries = w }) m)
        (insert-Distinct (compute_trust_set w) (record { entries = w }) m d)
