-- ===== src/Store/Update/Origin.antt =====
-- Where the rows come from that `update_handles` of relay/src/store.rs leaves.
use certrelay.Prelude.{
  ℕ, suc, none, ◌+◌, ◌-◌, ◌≡◌, ◌⊎◌, inl, inr, some, List, [], ◌∷◌, dec_eq, map, length, All, String,
  string_dec_eq, arith, Option-cases, Bool-cases,
}
use certrelay.Map.{Map, insert, lookup}
use certrelay.Map.Laws.{lookup-insert}
use certrelay.Store.Types.{
  Bytes, select_zones, Zone, Codec, HandleRecord, BulkStoreResult, Row, ok, Result-cases,
}
use certrelay.Store.State.{Store, put_row}
use certrelay.Store.State.Accounting.{lookup-put_row}
use certrelay.Store.Update.{
  Prepared, prepare, prepare_all, get_zones_inner, stored_zones, insert_bulk, insert_bulk-ok,
  merge_records, keep_receipt, replace_zone, accept, accept_all, row_of, cert_of, insert_all,
  write_all, update_handles,
}

-- Each zone that is read belongs to a row.
stored_zones-old :
    (c : Codec) (rows : Map String Row) (hs : List String) (zones : Map String Zone) (h : String)
    (old : Zone)
    → get_zones_inner c rows hs ≡ ok zones
    → lookup h zones ≡ some old
    → (r : Row) × (lookup h rows ≡ some r) × (c.zone_from_slice r.zone_data ≡ some old)
unfolding get_zones_inner lookup
stored_zones-old c rows [] zones h old e f = ground (arith, e, f)
stored_zones-old c rows (g ∷ hs) zones h old e f = elim (Option-cases (lookup g rows)) [
  | inl n ↦ stored_zones-old c rows hs zones h old (ground (arith, n, e)) f
  | inr (r, n) ↦ elim (Option-cases (c.zone_from_slice r.zone_data)) [
    | inl m ↦ ground (arith, n, m, e)
    | inr (z, m) ↦ elim (Result-cases (get_zones_inner c rows hs)) [
      | inr (x, k) ↦ ground (arith, n, m, k, e)
      | inl (rest, k) ↦
          let same : insert g z rest ≡ zones = ground (arith, n, m, k, e) in
          let put = lookup-insert h g z rest in
          let here : lookup h (insert g z rest) ≡ some old = rw same f in
          elim (dec_eq g h) [
            | yes y ↦ (r, rw (← y) n, ground (arith, m, here, put, y))
            | no y ↦ stored_zones-old c rows hs rest h old k (ground (arith, here, put, y))
          ]
    ]
  ]
]

module _ (c : Codec) (rows : Map String Row) (Q : String → String → Bytes → Type 0) where
  -- What may be written of a zone under this name: the zone itself, or the zone with the records of the
  -- one that is stored.
  abbrev pub Writes : Zone → String → Bytes → Type 0
  Writes z h bytes =
      (c.zone_to_vec z ≡ some bytes)
      ⊎ ((r : Row) × (old : Zone) × (lookup h rows ≡ some r)
          × (c.zone_from_slice r.zone_data ≡ some old)
          × (c.zone_to_vec (record z { records = old.records }) ≡ some bytes))

  -- The name, the space and what may be written are as `Q` wants them.
  abbrev pub Allowed : HandleRecord → Type 0
  Allowed u =
      (space : String) (bytes : Bytes)
      → u.cert.space ≡ some space
      → Writes u.zone u.cert.subject bytes
      → Q u.cert.subject space bytes

  abbrev AllowedEntry : Prepared → Type 0
  AllowedEntry e = Q e.handle e.space e.zone_data

  abbrev AllowedPair : Prepared × HandleRecord → Type 0
  AllowedPair (e, u) =
      (c.zone_to_vec u.zone ≡ some e.zone_data)
      × ((bytes : Bytes) → Writes u.zone e.handle bytes → Q e.handle e.space bytes)

  -- A row was there before, or is as `Q` wants it.
  abbrev pub FromBefore : Map String Row → Map String Row → Type 0
  FromBefore before after =
      (h : String) (r : Row)
      → lookup h after ≡ some r
      → (lookup h before ≡ some r) ⊎ Q h r.space r.zone_data

  prepare-Allowed :
      (u : HandleRecord) (e : Prepared) → prepare c u ≡ ok e → Allowed u → AllowedPair (e, u)
  unfolding prepare
  prepare-Allowed u e p a = elim (Option-cases u.cert.space) [
    | inl n ↦ ground (arith, n)
    | inr (space, f) ↦
        let named : e.handle ≡ u.cert.subject = ground (arith, f) in
        let placed : e.space ≡ space = ground (arith, f) in
        (ground (arith, f), rw (named, placed) (λ bytes w. a space bytes f w))
  ]

  prepare_all-Allowed :
      (us : List HandleRecord) (es : List (Prepared × HandleRecord))
      → prepare_all c us ≡ ok es
      → All Allowed us
      → All AllowedPair es
  unfolding prepare_all
  prepare_all-Allowed [] es p a = let same : [] ≡ es = ground arith in rw (← same) tt
  prepare_all-Allowed (u ∷ us) es p a = elim (Result-cases (prepare c u)) [
    | inr (x, e) ↦ ground (arith, e)
    | inl (y, e) ↦ elim (Result-cases (prepare_all c us)) [
      | inr (x, f) ↦ ground (arith, e, f)
      | inl (ys, f) ↦
          let same : (y, u) ∷ ys ≡ es = ground (arith, e, f) in
          rw (← same) (prepare-Allowed u y e a.0, prepare_all-Allowed us ys f a.1)
    ]
  ]

  merge_records-bytes :
      (z old : Zone) (e : Prepared)
      → ((merge_records c z old e).zone_data ≡ e.zone_data)
        ⊎ (c.zone_to_vec (record z { records = old.records })
            ≡ some (merge_records c z old e).zone_data)
  unfolding merge_records
  merge_records-bytes z old e =
      elim (Option-cases (c.zone_to_vec (record z { records = old.records }))) [
        | inl n ↦ ground (arith, n)
        | inr (b, n) ↦ ground (arith, n)
      ]

  replace_zone-bytes :
      (old : Zone) (e f : Prepared) (u : HandleRecord)
      → replace_zone c (some old) e u ≡ some f
      → f.zone_data ≡ (merge_records c u.zone old e).zone_data
  unfolding replace_zone keep_receipt
  replace_zone-bytes old e f u h = ground (arith, h)

  replace_zone-named :
      (old : Zone) (e f : Prepared) (u : HandleRecord)
      → replace_zone c (some old) e u ≡ some f
      → (f.handle ≡ e.handle) × (f.space ≡ e.space)
  unfolding replace_zone keep_receipt merge_records
  replace_zone-named old e f u h = ground (arith, h)

  accept_new :
      (now : ℕ) (zones : Map String Zone) (e f : Prepared) (u : HandleRecord)
      → lookup e.handle zones ≡ none
      → accept c now zones (e, u) ≡ some f
      → e ≡ f
  unfolding accept replace_zone
  accept_new now zones e f u n h = ground (arith, n, h)

  accept-Allowed :
      (now : ℕ) (hs : List String) (zones : Map String Zone) (e f : Prepared) (u : HandleRecord)
      → get_zones_inner c rows hs ≡ ok zones
      → accept c now zones (e, u) ≡ some f
      → AllowedPair (e, u)
      → AllowedEntry f
  unfolding accept
  accept-Allowed now hs zones e f u g h (own, a) = elim (Option-cases (lookup e.handle zones)) [
    | inl n ↦
        let same : e ≡ f = accept_new now zones e f u n h in rw (← same) (a e.zone_data (inl own))
    | inr (old, n) ↦
        let (r, held, read) = stored_zones-old c rows hs zones e.handle old g n in
        let step : replace_zone c (some old) e u ≡ some f = ground (arith, n, h) in
        let (named, placed) = replace_zone-named old e f u step in
        let bytes = replace_zone-bytes old e f u step in
        rw (named, placed)
          (a f.zone_data (elim (merge_records-bytes u.zone old e) [
            | inl kept ↦ inl (ground (arith, own, bytes, kept))
            | inr put ↦ inr (r, old, held, read, ground (arith, put, bytes))
          ]))
  ]

  accept_all-Allowed :
      (now : ℕ) (hs : List String) (zones : Map String Zone) (es : List (Prepared × HandleRecord))
      → get_zones_inner c rows hs ≡ ok zones
      → All AllowedPair es
      → All AllowedEntry (accept_all c now zones es)
  unfolding accept_all
  accept_all-Allowed now hs zones [] g a = tt
  accept_all-Allowed now hs zones (x ∷ es) g a =
      let rest = accept_all-Allowed now hs zones es g a.1 in
      elim (Option-cases (accept c now zones x)) [
        | inl n ↦ rw (n, accept_all) rest
        | inr (f, e) ↦ rw (e, accept_all) (accept-Allowed now hs zones x.0 f x.1 g e a.0, rest)
      ]

  insert_all-FromBefore :
      (now base : ℕ) (before : Map String Row) (es : List Prepared) (s t : Store)
      → insert_all c now before base es s ≡ ok t
      → All AllowedEntry es
      → FromBefore s.handles t.handles
  unfolding insert_all row_of
  insert_all-FromBefore now base before [] s t e a h r held = ground arith
  insert_all-FromBefore now base before (x ∷ es) s t e a h r held =
      elim (Result-cases (cert_of before x)) [
        | inr (f, p) ↦ ground (arith, p)
        | inl (d, p) ↦
            let row = row_of c now (suc base) d x in
            let step : insert_all c now before (suc base) es (put_row x.handle row s) ≡ ok t =
              ground (arith, p) in
            let put = lookup-put_row h x.handle row s in
            elim (insert_all-FromBefore now (suc base) before es (put_row x.handle row s) t step a.1
              h r held) [
                | inr q ↦ inr q
                | inl q ↦ elim (dec_eq x.handle h) [
                  | no other ↦ inl (ground (arith, put, q, other))
                  | yes same ↦
                      let here : r ≡ row = ground (arith, put, q, same) in
                      inr (rw (← same, here) a.0)
                ]
              ]
      ]

  write_all-FromBefore :
      (now skipped : ℕ) (es : List Prepared) (s t : Store) (r : BulkStoreResult)
      → write_all c now skipped es s ≡ ok (t, r)
      → All AllowedEntry es
      → FromBefore s.handles t.handles
  unfolding write_all
  write_all-FromBefore now skipped [] s t r e a = λ h row held. inl (ground arith)
  write_all-FromBefore now skipped (x ∷ es) s t r e a =
      let bumped = record s { sync_counter = s.sync_counter + length (x ∷ es) } in
      elim (Result-cases (insert_bulk c now s.handles s.sync_counter (x ∷ es) bumped)) [
        | inr (f, p) ↦ ground (arith, p)
        | inl (u, p) ↦
            let same : u ≡ t = ground (arith, p) in
            rw (← same) (
              insert_all-FromBefore now s.sync_counter s.handles (x ∷ es) bumped u
                (insert_bulk-ok c now s.handles s.sync_counter (x ∷ es) bumped u p) a)
      ]

  stored_zones-get :
      (now : ℕ) (hs : List String) (zones : Map String Zone)
      → stored_zones c now rows hs ≡ ok zones
      → get_zones_inner c rows hs ≡ ok zones
  unfolding stored_zones get_zones_inner
  stored_zones-get now [] zones e = e
  stored_zones-get now (h ∷ hs) zones e =
      elim (Bool-cases (c.sql_runs now (select_zones (length (h ∷ hs))))) [
        | inl b ↦ rw (b, stored_zones) at e
        | inr b ↦ ground (arith, b, e)
      ]

  -- Whatever `Q` holds of all updates of the rows holds of every new row.
  pub update_handles-FromBefore :
      (now : ℕ) (us : List HandleRecord) (s t : Store) (r : BulkStoreResult)
      → rows ≡ s.handles
      → update_handles c now us s ≡ ok (t, r)
      → All Allowed us
      → FromBefore s.handles t.handles
  unfolding update_handles
  update_handles-FromBefore now us s t r before e a = elim (Result-cases (prepare_all c us)) [
    | inr (x, p) ↦ ground (arith, p)
    | inl (es, p) ↦
        let hs = map (λ (x : Prepared × HandleRecord). x.0.handle) es in
        elim (Result-cases (stored_zones c now s.handles hs)) [
          | inr (x, q) ↦ ground (arith, p, q)
          | inl (zones, q) ↦
              let kept = accept_all c now zones es in
              let read = stored_zones-get now hs zones (rw before q) in
              write_all-FromBefore now (length us - length kept) kept s t r (ground (arith, p, q))
                (accept_all-Allowed now hs zones es read (prepare_all-Allowed us es p a))
        ]
  ]
