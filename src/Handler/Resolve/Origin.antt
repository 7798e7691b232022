-- ===== src/Handler/Resolve/Origin.antt =====
-- What one query of `resolve` in relay/src/handler.rs adds to a message.
use mathlib.Core.List.{Memᴰ}
use mathlib.Core.List.Memᴰ
use certrelay.Prelude.{
  ◌≡◌, refl, sym, ◌⊎◌, inl, inr, none, some, List, [], ◌∷◌, ◌++◌, String, string_dec_eq, arith,
  Option-cases,
}
use certrelay.Map.{lookup, Distinct}
use certrelay.Map.Laws.{lookup-retain, retain-Distinct}
use certrelay.Store.Types.{Certificate, Codec, HandleRecord, Row, StoreError, ok, err, Result-cases}
use certrelay.Store.State.{Store}
use certrelay.Store.Pages.{contains}
use certrelay.Store.Rows.{record_of, found, get_handle, get_handles, rows_in}
use certrelay.Handler.Resolve.{
  Query, MessageBuilder, Resolver, ResolveError, add_record, add_records, parent_cert,
  unique_handles, with_parent, add_query,
}
use certrelay.Handler.Resolve.Asks.{
  Asks, RootCert, unique_handles-Asks, Asks-unique_handles, parent_cert-RootCert,
}
use certrelay.Handler.Resolve.Records.{
  Served, add_records-old, add_records-new, add_records-cases, records_of-new, records_of-origin,
  records_of-fails,
}

module _ {M Proof : Type 0} (k : Resolver M Proof) (codec : Codec) (s : Store) where
  -- Where a certificate of a query comes from: a space that is not stored, the root of the space, or a
  -- handle that was asked for.
  pub data Origin (q : Query) (c : Certificate) : Type 0 where
    placeholder :
        (space : String)
        → k.space_from_str q.space ≡ some space
        → lookup q.space s.handles ≡ none
        → k.root_without_receipt space ≡ c
        → Origin q c
    parent :
        (z : HandleRecord) → Served codec s q.space z → RootCert k q.epoch_hint z c → Origin q c
    handle :
        (space h : String) (z : HandleRecord)
        → k.space_from_str q.space ≡ some space
        → Asks k space q h
        → Served codec s h z
        → z.cert ≡ c
        → Origin q c

  -- The root, and each handle in question that is stored.
  pub record Whole (q : Query) (space : String) (b : MessageBuilder) : Type 0 where
    pub root : HandleRecord
    pub served : Served codec s q.space root
    pub root_cert : (c : Certificate) × RootCert k q.epoch_hint root c × Memᴰ c b.certs
    pub handles :
        (h : String) (r : Row)
        → Asks k space q h
        → lookup h s.handles ≡ some r
        → (z : HandleRecord) × (record_of codec r ≡ ok z) × Memᴰ z.cert b.certs

  abbrev pub Answered : Query → MessageBuilder → Type 0
  Answered q b =
      (space : String) × (k.space_from_str q.space ≡ some space)
      × (((lookup q.space s.handles ≡ none) × Memᴰ (k.root_without_receipt space) b.certs)
          ⊎ Whole q space b)

  -- What a query does to the builder.
  pub record Step (q : Query) (b b' : MessageBuilder) : Type 0 where
    pub old : (c : Certificate) → Memᴰ c b.certs → Memᴰ c b'.certs
    pub origin : (c : Certificate) → Memᴰ c b'.certs → Memᴰ c b.certs ⊎ Origin q c
    pub answered : Answered q b'

  placeholder-Step :
      (q : Query) (space : String) (b : MessageBuilder)
      → k.space_from_str q.space ≡ some space
      → lookup q.space s.handles ≡ none
      → Step q b (record b { certs = b.certs ++ (k.root_without_receipt space ∷ []) })
  placeholder-Step q space b e n = record {
    old = λ c m. Memᴰ.append_left (k.root_without_receipt space ∷ []) m;
    origin = λ c m. elim (Memᴰ.append_cases b.certs m) [
      | inl o ↦ inl o
      | inr o ↦ inr (placeholder space e n (sym (Memᴰ.eq_of_singleton o)))
    ];
    answered = (space, e, inl (n, Memᴰ.append_right b.certs (Memᴰ.head refl)));
  }

  entries-Step :
      (q : Query) (space : String) (b : MessageBuilder) (z : HandleRecord) (zs : List HandleRecord)
      → Distinct s.handles
      → k.space_from_str q.space ≡ some space
      → Served codec s q.space z
      → get_handles codec (unique_handles k codec space q.handles) s ≡ ok zs
      → Step q b (add_records zs (add_record (parent_cert k codec q.epoch_hint z) z.zone b))
  unfolding get_handles rows_in add_record
  entries-Step q space b z zs d e v g =
      let cert = parent_cert k codec q.epoch_hint z in
      let given : RootCert k q.epoch_hint z cert = parent_cert-RootCert k codec q.epoch_hint z in
      let b1 = add_record cert z.zone b in
      let hs = unique_handles k codec space q.handles in
      let rows = rows_in hs s.handles in
      record {
        old = λ c m. add_records-old zs b1 c (Memᴰ.append_left (cert ∷ []) m);
        origin = λ c m. elim (add_records-cases zs b1 c m) [
          | inl o ↦ elim (Memᴰ.append_cases b.certs o) [
            | inl p ↦ inl p
            | inr p ↦ inr (parent z v (rw (Memᴰ.eq_of_singleton p) given))
          ]
          | inr (y, n, f) ↦
              let (h, r, i, j) =
                records_of-origin codec rows zs y
                  (retain-Distinct (λ h _. contains hs h) s.handles d) g n in
              let l = lookup-retain h (λ h _. contains hs h) s.handles d in
              inr (
                handle space h y e
                  (unique_handles-Asks k codec space h q
                    (ground (arith, i, l, Option-cases (lookup h s.handles))))
                  (r, ground (arith, i, l, Option-cases (lookup h s.handles)), j) f)
        ];
        answered = (
          space,
          e,
          inr (record {
            root = z;
            served = v;
            root_cert = (
              cert,
              given,
              add_records-old zs b1 cert (Memᴰ.append_right b.certs (Memᴰ.head refl)),
            );
            handles = λ h r w f.
                let l = lookup-retain h (λ h _. contains hs h) s.handles d in
                let asked = Asks-unique_handles k codec space h q w in
                let (y, i, n) = records_of-new codec rows zs h r g (ground (arith, asked, f, l)) in
                (y, i, add_records-new zs b1 y n);
          }),
        );
      }

  Whole-grows :
      (q : Query) (space : String) (b b' : MessageBuilder)
      → ((c : Certificate) → Memᴰ c b.certs → Memᴰ c b'.certs)
      → Whole q space b
      → Whole q space b'
  Whole-grows q space b b' g w = record {
    root = w.root;
    served = w.served;
    root_cert = let (c, given, m) = w.root_cert in (c, given, g c m);
    handles = λ h r x e. let (z, f, m) = w.handles h r x e in (z, f, g z.cert m);
  }

  pub Answered-grows :
      (q : Query) (b b' : MessageBuilder)
      → ((c : Certificate) → Memᴰ c b.certs → Memᴰ c b'.certs)
      → Answered q b
      → Answered q b'
  Answered-grows q b b' g (space, e, inl (n, m)) =
      (space, e, inl (n, g (k.root_without_receipt space) m))
  Answered-grows q b b' g (space, e, inr w) = (space, e, inr (Whole-grows q space b b' g w))

  pub add_query-Step :
      (q : Query) (b b' : MessageBuilder)
      → Distinct s.handles
      → add_query k codec q s b (k.space_from_str q.space) ≡ inr b'
      → Step q b b'
  unfolding add_query with_parent get_handle found
  add_query-Step q b b' d e = elim (Option-cases (k.space_from_str q.space)) [
    | inl n ↦ ground (arith, e, n)
    | inr (space, f) ↦ elim (Option-cases (lookup q.space s.handles)) [
      | inl n ↦
          let same : record b { certs = b.certs ++ (k.root_without_receipt space ∷ []) } ≡ b' =
            ground (arith, e, f, n) in
          rw (← same) (placeholder-Step q space b f n)
      | inr (r, n) ↦ elim (Result-cases (record_of codec r)) [
        | inr (x, p) ↦ ground (arith, e, f, n, p)
        | inl (z, p) ↦
            elim (Result-cases (get_handles codec (unique_handles k codec space q.handles) s)) [
              | inr (x, g) ↦ ground (arith, e, f, n, p, g)
              | inl (zs, g) ↦
                  let same : add_records zs
                        (add_record (parent_cert k codec q.epoch_hint z) z.zone b)
                      ≡ b' =
                    ground (arith, e, f, n, p, g) in
                  rw (← same) (entries-Step q space b z zs d f (r, n, p) g)
            ]
      ]
    ]
  ]

  -- A space that is no name, or a row that cannot be read.
  abbrev pub Unreadable : Query → Type 0
  Unreadable q =
      (k.space_from_str q.space ≡ none)
      ⊎ ((h : String) × (r : Row) × (x : StoreError) × (lookup h s.handles ≡ some r)
          × (record_of codec r ≡ err x))

  pub add_query-Unreadable :
      (q : Query) (b : MessageBuilder) (x : ResolveError)
      → Distinct s.handles
      → add_query k codec q s b (k.space_from_str q.space) ≡ inl x
      → Unreadable q
  unfolding add_query with_parent get_handle get_handles found rows_in
  add_query-Unreadable q b x d e = elim (Option-cases (k.space_from_str q.space)) [
    | inl n ↦ inl n
    | inr (space, f) ↦ elim (Option-cases (lookup q.space s.handles)) [
      | inl n ↦ ground (arith, e, f, n)
      | inr (r, n) ↦ elim (Result-cases (record_of codec r)) [
        | inr (y, p) ↦ inr (q.space, r, y, n, p)
        | inl (z, p) ↦
            let hs = unique_handles k codec space q.handles in
            let rows = rows_in hs s.handles in
            elim (Result-cases (get_handles codec hs s)) [
              | inl (zs, g) ↦ ground (arith, e, f, n, p, g)
              | inr (y, g) ↦
                  let (h, r', i, j) =
                    records_of-fails codec rows y
                      (retain-Distinct (λ h _. contains hs h) s.handles d) g in
                  inr (
                    h,
                    r',
                    y,
                    ground (
                      arith,
                      i,
                      lookup-retain h (λ h _. contains hs h) s.handles d,
                      Option-cases (lookup h s.handles),
                    ),
                    j,
                  )
            ]
      ]
    ]
  ]
