-- ===== src/Handler/Resolve/Asks.antt =====
-- The handles that a query of relay/src/handler.rs asks for, and the receipt that its hint makes
-- dispensable, said without the sets and the tests of `resolve`.
use mathlib.Core.List.{Memᴰ}
use mathlib.Core.List.Memᴰ
use certrelay.Prelude.{
  ℕ, ◌≡◌, ◌<◌, refl, ◌⊎◌, inl, inr, true, Option, none, some, List, [], ◌∷◌, String, string_dec_eq,
  dec_eq, arith, Bool-cases, Option-cases,
}
use certrelay.Store.Types.{Bytes, Certificate, Codec, HandleRecord}
use certrelay.Store.Pages.{contains}
use certrelay.Handler.{EpochHint, epoch_hint_verifiable_by}
use certrelay.Handler.Resolve.{Query, Resolver, read_names, join_names, parent_cert, unique_handles}

read_names-from :
    (f : String → Option String) (ns : List String) (x : String)
    → contains (read_names f ns) x ≡ true
    → (n : String) × Memᴰ n ns × (f n ≡ some x)
unfolding read_names contains
read_names-from f [] x h = ground (arith, h)
read_names-from f (n ∷ ns) x h = elim (Option-cases (f n)) [
  | inl e ↦ let (m, i, g) = read_names-from f ns x (rw (e, read_names) at h) in (m, Memᴰ.tail i, g)
  | inr (y, e) ↦ elim (dec_eq y x) [
    | yes same ↦ (n, Memᴰ.head refl, ground (arith, e, same))
    | no other ↦
        let rest : contains (read_names f ns) x ≡ true = ground (arith, h, e, other) in
        let (m, i, g) = read_names-from f ns x rest in (m, Memᴰ.tail i, g)
  ]
]

read_names-has :
    (f : String → Option String) (ns : List String) (n x : String)
    → Memᴰ n ns
    → f n ≡ some x
    → contains (read_names f ns) x ≡ true
unfolding read_names contains
read_names-has f [] n x m e = absurd (Memᴰ.not-nil m)
read_names-has f (y ∷ ns) n x m e = elim (Memᴰ.cases_cons m) [
  | inl same ↦ let here : f y ≡ some x = rw (← same) e in ground (arith, here)
  | inr i ↦
      let rest = read_names-has f ns n x i e in
      elim (Option-cases (f y)) [
        | inl g ↦ ground (arith, g, rest)
        | inr (z, g) ↦ ground (arith, g, rest)
      ]
]

join_names-from :
    (f : String → Option String) (ns : List String) (h : String)
    → contains (join_names f ns) h ≡ true
    → (x : String) × (contains ns x ≡ true) × (f x ≡ some h)
unfolding join_names contains
join_names-from f [] h c = ground (arith, c)
join_names-from f (n ∷ ns) h c = elim (Option-cases (f n)) [
  | inl e ↦
      let (x, i, g) = join_names-from f ns h (ground (arith, c, e)) in (x, ground (arith, i), g)
  | inr (y, e) ↦ elim (dec_eq y h) [
    | yes same ↦ (n, ground arith, ground (arith, e, same))
    | no other ↦
        let (x, i, g) = join_names-from f ns h (ground (arith, c, e, other)) in
        (x, ground (arith, i), g)
  ]
]

join_names-has :
    (f : String → Option String) (ns : List String) (x h : String)
    → contains ns x ≡ true
    → f x ≡ some h
    → contains (join_names f ns) h ≡ true
unfolding join_names contains
join_names-has f [] x h m e = ground (arith, m)
join_names-has f (y ∷ ns) x h m e = elim (dec_eq y x) [
  | yes same ↦ let here : f y ≡ some h = rw same e in ground (arith, here)
  | no other ↦
      let rest = join_names-has f ns x h (ground (arith, m, other)) e in
      elim (Option-cases (f y)) [
        | inl g ↦ ground (arith, g, rest)
        | inr (z, g) ↦ ground (arith, g, rest)
      ]
]

module _ {M Proof : Type 0} (k : Resolver M Proof) where
  -- One of the names of the query is a label, and the space under it is this handle.
  abbrev pub Asks : String → Query → String → Type 0
  Asks space q h =
      (n : String) × (x : String) × Memᴰ n q.handles
      × (k.subname_from_str n ≡ some x)
      × (k.join x space ≡ some h)

  -- The zone's commitment lies below the height of the hint, or the hint names it.
  abbrev pub Dispensable : EpochHint → HandleRecord → Type 0
  Dispensable hint z =
      (height : ℕ) × (root : Bytes) × (z.zone.commitment ≡ some (height, root))
      × ((height < hint.height) ⊎ ((hint.height ≡ height) × (hint.root ≡ k.hex_encode root)))

  -- The stored certificate, or the same without a receipt that the hint makes dispensable.
  abbrev pub RootCert : Option EpochHint → HandleRecord → Certificate → Type 0
  RootCert o z c =
      ((c ≡ z.cert)
        × ((o ≡ none) ⊎ ((hint : EpochHint) × (o ≡ some hint) × (¬ Dispensable hint z))))
      ⊎ ((hint : EpochHint) × (o ≡ some hint) × Dispensable hint z × (c ≡ k.take_receipt z.cert))

  pub unique_handles-Asks :
      (codec : Codec) (space h : String) (q : Query)
      → contains (unique_handles k codec space q.handles) h ≡ true
      → Asks space q h
  unfolding unique_handles
  unique_handles-Asks codec space h q c =
      let (x, i, f) =
        join_names-from (λ n. k.join n space) (read_names k.subname_from_str q.handles) h c in
      let (n, m, g) = read_names-from k.subname_from_str q.handles x i in (n, x, m, g, f)

  pub Asks-unique_handles :
      (codec : Codec) (space h : String) (q : Query)
      → Asks space q h
      → contains (unique_handles k codec space q.handles) h ≡ true
  unfolding unique_handles
  Asks-unique_handles codec space h q (n, x, m, g, f) =
      join_names-has (λ n. k.join n space) (read_names k.subname_from_str q.handles) x h
        (read_names-has k.subname_from_str q.handles n x m g) f

  verifiable-Dispensable :
      (hint : EpochHint) (z : HandleRecord)
      → epoch_hint_verifiable_by k.hex_encode hint z.zone ≡ true
      → Dispensable hint z
  unfolding epoch_hint_verifiable_by
  verifiable-Dispensable hint z e = elim (Option-cases z.zone.commitment) [
    | inl n ↦ ground (arith, e, n)
    | inr ((height, root), n) ↦ (height, root, n, ground (arith, e, n))
  ]

  Dispensable-verifiable :
      (hint : EpochHint) (z : HandleRecord)
      → Dispensable hint z
      → epoch_hint_verifiable_by k.hex_encode hint z.zone ≡ true
  unfolding epoch_hint_verifiable_by
  Dispensable-verifiable hint z (height, root, n, w) = ground (arith, n, w)

  pub parent_cert-RootCert :
      (codec : Codec) (o : Option EpochHint) (z : HandleRecord)
      → RootCert o z (parent_cert k codec o z)
  unfolding parent_cert
  parent_cert-RootCert codec none z = inl (refl, inl refl)
  parent_cert-RootCert codec (some hint) z =
      elim (Bool-cases (epoch_hint_verifiable_by k.hex_encode hint z.zone)) [
        | inl e ↦ inr (hint, refl, verifiable-Dispensable hint z e, ground (arith, e))
        | inr e ↦ inl (
          ground (arith, e),
          inr (hint, refl, λ d. ground (arith, e, Dispensable-verifiable hint z d)),
        )
      ]
