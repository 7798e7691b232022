-- ===== src/Handler/Resolve/Records.antt =====
-- The records of relay/src/store.rs that `resolve` of relay/src/handler.rs puts into a message.
use mathlib.Core.List.{Memᴰ}
use mathlib.Core.List.Memᴰ
use certrelay.Prelude.{
  ◌≡◌, refl, sym, ap, ◌⊎◌, inl, inr, some, List, [], ◌∷◌, dec_eq, String, string_dec_eq, arith,
}
use certrelay.Map.{Map, lookup, Distinct}
use certrelay.Store.Types.{Certificate, Codec, HandleRecord, Row, StoreError, ok, err, Result-cases}
use certrelay.Store.State.{Store}
use certrelay.Store.Rows.{record_of, records_of}
use certrelay.Handler.Resolve.{MessageBuilder, add_record, add_records}

pub add_records-old :
    (zs : List HandleRecord) (b : MessageBuilder) (c : Certificate)
    → Memᴰ c b.certs
    → Memᴰ c (add_records zs b).certs
unfolding add_records add_record
add_records-old [] b c m = m
add_records-old (z ∷ zs) b c m =
    add_records-old zs (add_record z.cert z.zone b) c (Memᴰ.append_left (z.cert ∷ []) m)

pub add_records-new :
    (zs : List HandleRecord) (b : MessageBuilder) (z : HandleRecord)
    → Memᴰ z zs
    → Memᴰ z.cert (add_records zs b).certs
unfolding add_records add_record
add_records-new [] b z m = absurd (Memᴰ.not-nil m)
add_records-new (y ∷ ys) b z m = elim (Memᴰ.cases_cons m) [
  | inl e ↦
      add_records-old ys (add_record y.cert y.zone b) z.cert
        (Memᴰ.append_right b.certs (Memᴰ.head (ap (λ x. x.cert) e)))
  | inr n ↦ add_records-new ys (add_record y.cert y.zone b) z n
]

pub add_records-cases :
    (zs : List HandleRecord) (b : MessageBuilder) (c : Certificate)
    → Memᴰ c (add_records zs b).certs
    → Memᴰ c b.certs ⊎ ((z : HandleRecord) × Memᴰ z zs × (z.cert ≡ c))
unfolding add_records add_record
add_records-cases [] b c m = inl m
add_records-cases (z ∷ zs) b c m = elim (add_records-cases zs (add_record z.cert z.zone b) c m) [
  | inr (y, n, e) ↦ inr (y, Memᴰ.tail n, e)
  | inl n ↦ elim (Memᴰ.append_cases b.certs n) [
    | inl o ↦ inl o
    | inr o ↦ inr (z, Memᴰ.head refl, sym (Memᴰ.eq_of_singleton o))
  ]
]

pub records_of-new :
    (codec : Codec) (m : Map String Row) (zs : List HandleRecord) (h : String) (r : Row)
    → records_of codec m ≡ ok zs
    → lookup h m ≡ some r
    → (z : HandleRecord) × (record_of codec r ≡ ok z) × Memᴰ z zs
unfolding records_of lookup
records_of-new codec [] zs h r e f = ground (arith, f)
records_of-new codec ((g, p) ∷ m) zs h r e f = elim (Result-cases (record_of codec p)) [
  | inr (x, q) ↦ ground (arith, e, q)
  | inl (y, q) ↦ elim (Result-cases (records_of codec m)) [
    | inr (x, k) ↦ ground (arith, e, q, k)
    | inl (ys, k) ↦
        let same : (y ∷ ys) ≡ zs = ground (arith, e, q, k) in
        elim (dec_eq g h) [
          | yes here ↦
              let s : p ≡ r = ground (arith, f, here) in
              (y, rw (← s) q, rw (← same) (Memᴰ.head refl))
          | no there ↦
              let (z, a, b) = records_of-new codec m ys h r k (ground (arith, f, there)) in
              (z, a, rw (← same) (Memᴰ.tail b))
        ]
  ]
]

-- A record of the store under its handle.
abbrev pub Served : Codec → Store → String → HandleRecord → Type 0
Served codec s h z = (r : Row) × (lookup h s.handles ≡ some r) × (record_of codec r ≡ ok z)

pub records_of-origin :
    (codec : Codec) (m : Map String Row) (zs : List HandleRecord) (z : HandleRecord)
    → Distinct m
    → records_of codec m ≡ ok zs
    → Memᴰ z zs
    → (h : String) × (r : Row) × (lookup h m ≡ some r) × (record_of codec r ≡ ok z)
unfolding records_of lookup
records_of-origin codec [] zs z d e n =
    let same : [] ≡ zs = ground (arith, e) in absurd (Memᴰ.not-nil (rw (← same) at n))
records_of-origin codec ((g, p) ∷ m) zs z d e n = elim (Result-cases (record_of codec p)) [
  | inr (x, q) ↦ ground (arith, e, q)
  | inl (y, q) ↦ elim (Result-cases (records_of codec m)) [
    | inr (x, k) ↦ ground (arith, e, q, k)
    | inl (ys, k) ↦
        let same : (y ∷ ys) ≡ zs = ground (arith, e, q, k) in
        elim (Memᴰ.cases_cons (rw (← same) at n)) [
          | inl here ↦ (g, p, ground arith, rw here q)
          | inr there ↦
              let (h, r, a, b) = records_of-origin codec m ys z d.1 k there in
              (h, r, ground (arith, a, d.0), b)
        ]
  ]
]

pub records_of-fails :
    (codec : Codec) (m : Map String Row) (x : StoreError)
    → Distinct m
    → records_of codec m ≡ err x
    → (h : String) × (r : Row) × (lookup h m ≡ some r) × (record_of codec r ≡ err x)
unfolding records_of lookup
records_of-fails codec [] x d e = ground (arith, e)
records_of-fails codec ((g, p) ∷ m) x d e = elim (Result-cases (record_of codec p)) [
  | inr (y, q) ↦ (g, p, ground arith, ground (arith, e, q))
  | inl (y, q) ↦ elim (Result-cases (records_of codec m)) [
    | inl (ys, k) ↦ ground (arith, e, q, k)
    | inr (z, k) ↦
        let (h, r, a, b) = records_of-fails codec m x d.1 (ground (arith, e, q, k)) in
        (h, r, ground (arith, a, d.0), b)
  ]
]
