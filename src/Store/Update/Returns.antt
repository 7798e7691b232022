-- ===== src/Store/Update/Returns.antt =====
-- When `update_handles` of relay/src/store.rs succeeds.
use certrelay.Prelude.{
  ℕ, suc, ◌+◌, ◌*◌, ap, ◌-◌, ◌≤◌, ◌≡◌, sym, refl, inl, inr, true, false, Bool-cases, Option-cases,
  some, List, [], ◌∷◌, dec_eq, map, length, String, string_dec_eq, arith, All,
}
use certrelay.Map.{Map, lookup, insert}
use certrelay.Map.Laws.{lookup-insert}
use certrelay.Store.Types.{
  Bytes, Zone, Certificate, Codec, HandleRecord, BulkStoreResult, Row, select_zones, insert_rows,
  ok, Result-cases,
}
use certrelay.Store.State.{Store, put_row}
use certrelay.Store.Update.{
  Prepared, prepare, prepare_all, get_zones_inner, stored_zones, insert_bulk, merge_records,
  keep_receipt, replace_zone, accept, accept_all, row_of, cert_of, insert_all, write_all,
  update_handles,
}

abbrev pub HasSpace : HandleRecord → Type 0
HasSpace u = (p : String) × (u.cert.space ≡ some p)

-- Serialization never fails.
pub record Writes (c : Codec) : Type 0 where
  pub cert : (x : Certificate) → (b : Bytes) × (c.cert_to_vec x ≡ some b)
  pub zone : (x : Zone) → (b : Bytes) × (c.zone_to_vec x ≡ some b)

-- Every stored zone can be read.
abbrev pub Reads : Codec → Map String Row → Type 0
Reads c rows =
    (h : String) (r : Row)
    → lookup h rows ≡ some r
    → (z : Zone) × (c.zone_from_slice r.zone_data ≡ some z)

abbrev Fresh : Prepared × HandleRecord → Type 0
Fresh x = x.0.preserve_cert ≡ false

prepare-ok :
    (c : Codec) (u : HandleRecord)
    → Writes c
    → HasSpace u
    → (e : Prepared) × (prepare c u ≡ ok e) × (e.preserve_cert ≡ false)
unfolding prepare
prepare-ok c u w (p, e) =
    let (b, f) = w.cert u.cert in
    let (d, g) = w.zone u.zone in
    (
      record {
        handle = u.cert.subject;
        space = p;
        cert_data = b;
        zone_data = d;
        epoch_height = u.epoch_height;
        offchain_seq = u.offchain_seq;
        delegate_offchain_seq = u.delegate_offchain_seq;
        preserve_cert = false;
      },
      ground (arith, e, f, g),
      refl,
    )

prepare_all-ok :
    (c : Codec) (us : List HandleRecord)
    → Writes c
    → All HasSpace us
    → (es : List (Prepared × HandleRecord)) × (prepare_all c us ≡ ok es) × All Fresh es
unfolding prepare_all
prepare_all-ok c [] w a = ([], refl, tt)
prepare_all-ok c (u ∷ us) w a =
    let (e, p, f) = prepare-ok c u w a.0 in
    let (es, q, g) = prepare_all-ok c us w a.1 in ((e, u) ∷ es, rw (p, q) refl, (f, g))

abbrev Present : Map String Row → Map String Zone → Type 0
Present rows zones =
    (h : String) (z : Zone) → lookup h zones ≡ some z → (r : Row) × (lookup h rows ≡ some r)

get_zones_inner-ok :
    (c : Codec) (rows : Map String Row) (hs : List String)
    → Reads c rows
    → (zones : Map String Zone) × (get_zones_inner c rows hs ≡ ok zones) × Present rows zones
unfolding get_zones_inner lookup
get_zones_inner-ok c rows [] read = ([], refl, λ h z e. ground arith)
get_zones_inner-ok c rows (h ∷ hs) read =
    let (zones, e, p) = get_zones_inner-ok c rows hs read in
    elim (Option-cases (lookup h rows)) [
      | inl n ↦ (zones, ground (arith, n, e), p)
      | inr (r, f) ↦
          let (z, g) = read h r f in
          (
            insert h z zones,
            ground (arith, f, g, e),
            λ j y k. elim (dec_eq h j) [
              | yes same ↦ (r, rw (sym same) f)
              | no other ↦ p j y (ground (arith, lookup-insert j h z zones))
            ],
          )
    ]

-- SQLite binds at most this many parameters.
abbrev pub max_variables : ℕ
max_variables = 32766

-- SQLite runs the statements of an update that are within its limit.
pub record Runs (c : Codec) (now : ℕ) : Type 0 where
  pub select : (n : ℕ) → n ≤ max_variables → c.sql_runs now (select_zones n) ≡ true
  pub insert : (n : ℕ) → n ≤ max_variables → c.sql_runs now (insert_rows n) ≡ true

stored_zones-ok :
    (c : Codec) (now : ℕ) (rows : Map String Row) (hs : List String)
    → Runs c now
    → length hs ≤ max_variables
    → Reads c rows
    → (zones : Map String Zone) × (stored_zones c now rows hs ≡ ok zones) × Present rows zones
unfolding stored_zones lookup
stored_zones-ok c now rows [] runs few read = ([], refl, λ h z e. ground arith)
stored_zones-ok c now rows (h ∷ hs) runs few read =
    let (zones, e, p) = get_zones_inner-ok c rows (h ∷ hs) read in
    let ran = runs.select (length (h ∷ hs)) few in (zones, rw (ran, stored_zones) e, p)

abbrev Kept : Map String Row → Prepared → Type 0
Kept rows e = e.preserve_cert ≡ true → (r : Row) × (lookup e.handle rows ≡ some r)

accept-Kept :
    (c : Codec) (now : ℕ) (rows : Map String Row) (zones : Map String Zone) (e f : Prepared)
    (u : HandleRecord)
    → Present rows zones
    → e.preserve_cert ≡ false
    → accept c now zones (e, u) ≡ some f
    → Kept rows f
unfolding accept replace_zone keep_receipt merge_records
accept-Kept c now rows zones e f u p fresh a k = elim (Option-cases (lookup e.handle zones)) [
  | inl n ↦ ground (arith, n)
  | inr (z, g) ↦
      let (r, h) = p e.handle z g in
      let same : f.handle ≡ e.handle = ground (arith, g) in (r, rw same h)
]

accept_all-Kept :
    (c : Codec) (now : ℕ) (rows : Map String Row) (zones : Map String Zone)
    (es : List (Prepared × HandleRecord))
    → Present rows zones
    → All Fresh es
    → All (Kept rows) (accept_all c now zones es)
unfolding accept_all
accept_all-Kept c now rows zones [] p a = tt
accept_all-Kept c now rows zones (x ∷ es) p a =
    let rest = accept_all-Kept c now rows zones es p a.1 in
    elim (Option-cases (accept c now zones x)) [
      | inl n ↦ rw (n, accept_all) rest
      | inr (f, e) ↦ rw (e, accept_all) (accept-Kept c now rows zones x.0 f x.1 p a.0 e, rest)
    ]

cert_of-ok :
    (before : Map String Row) (x : Prepared)
    → Kept before x
    → (b : Bytes) × (cert_of before x ≡ ok b)
unfolding cert_of
cert_of-ok before x k = elim (Bool-cases x.preserve_cert) [
  | inl e ↦ let (r, f) = k e in (r.cert_data, ground (arith, f))
  | inr e ↦ (x.cert_data, ground (arith, e))
]

insert_all-ok :
    (c : Codec) (now base : ℕ) (before : Map String Row) (es : List Prepared) (s : Store)
    → All (Kept before) es
    → (t : Store) × (insert_all c now before base es s ≡ ok t)
unfolding insert_all
insert_all-ok c now base before [] s a = (s, refl)
insert_all-ok c now base before (x ∷ es) s a =
    let (b, f) = cert_of-ok before x a.0 in
    let (t, g) =
      insert_all-ok c now (suc base) before es (put_row x.handle (row_of c now (suc base) b x) s)
        a.1 in
    (t, rw (f, insert_all) g)

write_all-ok :
    (c : Codec) (now skipped : ℕ) (es : List Prepared) (s : Store)
    → Runs c now
    → 10 * length es ≤ max_variables
    → All (Kept s.handles) es
    → (t : Store) × (r : BulkStoreResult) × (write_all c now skipped es s ≡ ok (t, r))
      × (r.stored ≡ length es)
      × (r.skipped ≡ skipped)
unfolding write_all insert_bulk
write_all-ok c now skipped [] s runs few a =
    (s, record { stored = 0; skipped = skipped; gated = 0; stored_handles = [] }, refl, refl, refl)
write_all-ok c now skipped (e ∷ es) s runs few a =
    let n = length (e ∷ es) in
    let ran = runs.insert (10 * n) few in
    let (t, f) =
      insert_all-ok c now s.sync_counter s.handles (e ∷ es)
        (record s { sync_counter = s.sync_counter + n }) a in
    (
      t,
      record {
        stored = n;
        skipped = skipped;
        gated = 0;
        stored_handles = map (λ p. p.handle) (e ∷ es);
      },
      rw (ran, write_all, insert_bulk, f) refl,
      refl,
      refl,
    )

length-accept_all :
    (c : Codec) (now : ℕ) (zones : Map String Zone) (es : List (Prepared × HandleRecord))
    → length (accept_all c now zones es) ≤ length es
unfolding accept_all
length-accept_all c now zones [] = omega arith
length-accept_all c now zones (x ∷ es) = ground (arith, length-accept_all c now zones es)

length-handles :
    (es : List (Prepared × HandleRecord)) → length (map (λ x. x.0.handle) es) ≡ length es
length-handles [] = refl
length-handles (x ∷ es) = ap suc (length-handles es)

length-prepare_all :
    (c : Codec) (us : List HandleRecord) (es : List (Prepared × HandleRecord))
    → prepare_all c us ≡ ok es
    → length es ≡ length us
unfolding prepare_all
length-prepare_all c [] es e = ground arith
length-prepare_all c (u ∷ us) es e = elim (Result-cases (prepare_all c us)) [
  | inl (fs, f) ↦ ground (arith, f, length-prepare_all c us fs f)
  | inr (x, f) ↦ ground (arith, f)
]

-- `update_handles` succeeds, and counts every update as stored or skipped, when every certificate has
-- a space, serialization succeeds, the stored zones can be read, ten parameters for each update are
-- within the 32766 that SQLite binds, and SQLite runs the statements within that limit.
pub update_handles_returns :
    (c : Codec) (now : ℕ) (updates : List HandleRecord) (s : Store)
    → Writes c
    → Reads c s.handles
    → Runs c now
    → 10 * length updates ≤ max_variables
    → All HasSpace updates
    → (t : Store) × (r : BulkStoreResult) × (update_handles c now updates s ≡ ok (t, r))
      × (r.stored + r.skipped ≡ length updates)
unfolding update_handles
update_handles_returns c now updates s w read runs few a =
    let (es, p, f) = prepare_all-ok c updates w a in
    let size = length-prepare_all c updates es p in
    let (zones, q, present) =
      stored_zones-ok c now s.handles (map (λ x. x.0.handle) es) runs
        (omega (arith, size, length-handles es)) read in
    let kept = accept_all c now zones es in
    let shorter = length-accept_all c now zones es in
    let (t, r, g, st, sk) =
      write_all-ok c now (length updates - length kept) kept s runs (omega (arith, size, shorter))
        (accept_all-Kept c now s.handles zones es present f) in
    (t, r, rw (p, update_handles, q) g, omega (arith, st, sk, shorter, size))
