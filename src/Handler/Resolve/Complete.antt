-- ===== src/Handler/Resolve/Complete.antt =====
-- Which certificates `resolve` of relay/src/handler.rs puts into a message.
use mathlib.Core.List.{Memᴰ}
use mathlib.Core.List.Memᴰ
use certrelay.Prelude.{
  ◌≡◌, refl, ◌⊎◌, inl, inr, true, false, Option, none, some, List, [], ◌∷◌, map, String,
  string_dec_eq, arith, Bool-cases, Option-cases,
}
use certrelay.Map.{Distinct}
use certrelay.Store.Types.{Certificate, Codec}
use certrelay.Store.State.{Store}
use certrelay.Store.Pages.{contains}
use certrelay.Store.Update.Sequence.{IsSound}
use certrelay.Handler.Strings.{unique}
use certrelay.Handler.Resolve.{
  Query, MessageBuilder, Resolver, ResolveError, try_then, add_query, add_queries, empty_builder,
  Unsigned, none_empty, signed, prove_and_build, resolve,
}
use certrelay.Handler.Resolve.Origin.{
  Origin, Answered, Answered-grows, Step, add_query-Step, Unreadable, add_query-Unreadable,
}

abbrev pub spaces_asked : List Query → List String
spaces_asked qs = map (λ q. q.space) qs

contains-asked :
    (q : Query) (qs : List Query) → Memᴰ q qs → contains (spaces_asked qs) q.space ≡ true
unfolding contains
contains-asked q [] m = absurd (Memᴰ.not-nil m)
contains-asked q (p ∷ qs) m = elim (Memᴰ.cases_cons m) [
  | inl e ↦ rw e (ground arith)
  | inr n ↦ ground (arith, contains-asked q qs n)
]

either : {A B : Type 0} (x : A ⊎ B) → ((a : A) × (x ≡ inl a)) ⊎ ((b : B) × (x ≡ inr b))
either (inl a) = inl (a, refl)
either (inr b) = inr (b, refl)

try_then-inr :
    {A B : Type 0} (x : ResolveError ⊎ A) (f : A → ResolveError ⊎ B) (b : B)
    → try_then x f ≡ inr b
    → (a : A) × (x ≡ inr a) × (f a ≡ inr b)
try_then-inr (inl e) f b h = ground (arith, h)
try_then-inr (inr a) f b h = (a, refl, h)

module _ {M Proof : Type 0} (k : Resolver M Proof) (codec : Codec) (s : Store) where
  -- What the queries do to the builder.
  record Steps (qs : List Query) (b b' : MessageBuilder) : Type 0 where
    old : (c : Certificate) → Memᴰ c b.certs → Memᴰ c b'.certs
    origin :
        (c : Certificate)
        → Memᴰ c b'.certs
        → Memᴰ c b.certs ⊎ ((q : Query) × Memᴰ q qs × Origin k codec s q c)
    answered : (q : Query) → Memᴰ q qs → Answered k codec s q b'

  Steps-cons :
      (q : Query) (qs : List Query) (b b1 b' : MessageBuilder)
      → Step k codec s q b b1
      → Steps qs b1 b'
      → Steps (q ∷ qs) b b'
  Steps-cons q qs b b1 b' v w = record {
    old = λ c m. w.old c (v.old c m);
    origin = λ c m. elim (w.origin c m) [
      | inr (p, n, o) ↦ inr (p, Memᴰ.tail n, o)
      | inl n ↦ elim (v.origin c n) [ inl o ↦ inl o | inr o ↦ inr (q, Memᴰ.head refl, o) ]
    ];
    answered = λ p m. elim (Memᴰ.cases_cons m) [
      | inl e ↦ rw e (Answered-grows k codec s q b1 b' w.old v.answered)
      | inr n ↦ w.answered p n
    ];
  }

  add_queries-Steps :
      (qs : List Query) (seen : List String) (b b' : MessageBuilder)
      → Distinct s.handles
      → unique (spaces_asked qs) ≡ true
      → ((p : String) → contains (spaces_asked qs) p ≡ true → contains seen p ≡ false)
      → add_queries k codec s qs seen b ≡ inr b'
      → Steps qs b b'
  unfolding add_queries contains
  add_queries-Steps [] seen b b' d u n e =
      let same : b ≡ b' = ground (arith, e) in
      rw same (record {
        old = λ c m. m;
        origin = λ c m. inl m;
        answered = λ q m. absurd (Memᴰ.not-nil m);
      })
  add_queries-Steps (q ∷ qs) seen b b' d u n e =
      let fresh : contains seen q.space ≡ false = n q.space (ground arith) in
      let (b1, f, g) =
        try_then-inr (add_query k codec q s b (k.space_from_str q.space))
          (λ b1. add_queries k codec s qs (q.space ∷ seen) b1) b' (rw fresh at e) in
      Steps-cons q qs b b1 b' (add_query-Step k codec s q b b1 d f) (
        add_queries-Steps qs (q.space ∷ seen) b1 b' d (ground (arith, u))
          (λ p h. ground (arith, u, h, n p)) g)

  -- The certificates of a message are the ones that the queries ask for.
  pub record Complete (qs : List Query) (b : MessageBuilder) : Type 0 where
    pub asked : (c : Certificate) → Memᴰ c b.certs → (q : Query) × Memᴰ q qs × Origin k codec s q c
    pub answered : (q : Query) → Memᴰ q qs → Answered k codec s q b

  add_queries-Unreadable :
      (qs : List Query) (seen : List String) (b : MessageBuilder) (x : ResolveError)
      → Distinct s.handles
      → add_queries k codec s qs seen b ≡ inl x
      → (q : Query) × Memᴰ q qs × Unreadable k codec s q
  unfolding add_queries
  add_queries-Unreadable [] seen b x d e = ground (arith, e)
  add_queries-Unreadable (q ∷ qs) seen b x d e = elim (Bool-cases (contains seen q.space)) [
    | inl y ↦
        let (p, m, u) = add_queries-Unreadable qs seen b x d (rw y at e) in (p, Memᴰ.tail m, u)
    | inr y ↦ elim (either (add_query k codec q s b (k.space_from_str q.space))) [
      | inl (z, f) ↦ (q, Memᴰ.head refl, add_query-Unreadable k codec s q b z d f)
      | inr (b1, f) ↦
          let (p, m, u) = add_queries-Unreadable qs (q.space ∷ seen) b1 x d (rw (y, f) at e) in
          (p, Memᴰ.tail m, u)
    ]
  ]

  -- Over a sound store, for queries that name each space once: either a query names a space that is no
  -- name or the store has a row that cannot be read, or the certificates are put together. Then each
  -- of them answers a query: it is a placeholder for a space that is not stored, the stored root, or a
  -- stored handle that one of the query's labels names under the space. The root comes without its
  -- receipt exactly when the query's hint lies above the stored commitment or names it. And each query
  -- is answered: its space by a placeholder, or by the root together with every stored handle that one
  -- of its labels names.
  pub add_queries-Complete :
      (qs : List Query)
      → IsSound s
      → unique (spaces_asked qs) ≡ true
      → ((q : Query) × Memᴰ q qs × Unreadable k codec s q)
        ⊎ ((b : MessageBuilder) × (add_queries k codec s qs [] empty_builder ≡ inr b)
            × Complete qs b)
  unfolding contains
  add_queries-Complete qs v u = elim (either (add_queries k codec s qs [] empty_builder)) [
    | inl (x, e) ↦ inl (add_queries-Unreadable qs [] empty_builder x v.accounts.distinct e)
    | inr (b, e) ↦
        let w = add_queries-Steps qs [] empty_builder b v.accounts.distinct u (λ p h. refl) e in
        inr (
          b,
          e,
          record {
            asked = λ c m. elim (w.origin c m) [ inl n ↦ absurd (Memᴰ.not-nil n) | inr o ↦ o ];
            answered = w.answered;
          },
        )
  ]

  signed_built :
      (o : Option (M × List Unsigned)) (m : M)
      → signed k codec o ≡ inr m
      → (us : List Unsigned) × (o ≡ some (m, us))
  unfolding signed
  signed_built none m e = ground (arith, e)
  signed_built (some (n, [])) m e = ([], ground (arith, e))
  signed_built (some (n, u ∷ us)) m e = elim (Bool-cases (none_empty (u ∷ us))) [
    | inl b ↦ ground (arith, e, b)
    | inr b ↦ (u ∷ us, ground (arith, e, b))
  ]

  -- A message is built of the certificates that its queries ask for.
  pub record Built (qs : List Query) (m : M) : Type 0 where
    pub builder : MessageBuilder
    pub complete : Complete qs builder
    pub chain : Proof
    pub unsigned : List Unsigned
    pub built : k.build builder chain ≡ some (m, unsigned)

  pub resolve-Built :
      (qs : List Query) (m : M)
      → IsSound s
      → unique (spaces_asked qs) ≡ true
      → resolve k codec s qs ≡ inr m
      → Built qs m
  unfolding resolve prove_and_build contains
  resolve-Built qs m v u e =
      let (b, f, g) =
        try_then-inr (add_queries k codec s qs [] empty_builder)
          (λ b. prove_and_build k codec b (k.prove b)) m e in
      elim (Option-cases (k.prove b)) [
        | inl n ↦ ground (arith, g, n)
        | inr (chain, n) ↦
            let (us, o) = signed_built (k.build b chain) m (ground (arith, g, n)) in
            let w = add_queries-Steps qs [] empty_builder b v.accounts.distinct u (λ p h. refl) f in
            record {
              builder = b;
              complete = record {
                asked = λ c x. elim (w.origin c x) [ inl y ↦ absurd (Memᴰ.not-nil y) | inr y ↦ y ];
                answered = w.answered;
              };
              chain = chain;
              unsigned = us;
              built = o;
            }
      ]
