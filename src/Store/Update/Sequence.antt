-- ===== src/Store/Update/Sequence.antt =====
-- `update_handles` of relay/src/store.rs keeps the accounts, and numbers what it writes past all that
-- was written before.
use certrelay.Prelude.{
  ℕ, suc, ◌+◌, ◌≤◌, ◌<◌, ◌≡◌, ◌⊎◌, refl, ◌∙◌, inl, inr, some, List, [], ◌∷◌, map, ◌-◌, length,
  String, string_dec_eq, arith,
}
use certrelay.Map.{Map, lookup}
use certrelay.Store.Types.{Codec, HandleRecord, BulkStoreResult, Row, Result, ok, err, Result-cases}
use certrelay.Store.State.{Store, put_row}
use certrelay.Store.State.Accounting.{Accounts, put_row-Accounts, put_row-counter, lookup-put_row}
use certrelay.Store.Update.{
  Prepared, prepare_all, stored_zones, insert_bulk, insert_bulk-ok, accept_all, row_of, cert_of,
  insert_all, write_all, update_handles,
}

-- The rows are numbered up to `n`, no two alike.
pub record Sequenced (n : ℕ) (m : Map String Row) : Type 0 where
  pub bounded : (h : String) (r : Row) → lookup h m ≡ some r → r.sync_seq ≤ n
  pub unique :
      (g h : String) (q r : Row)
      → lookup g m ≡ some q
      → lookup h m ≡ some r
      → q.sync_seq ≡ r.sync_seq
      → g ≡ h

pub put_row-Sequenced :
    (n : ℕ) (h : String) (r : Row) (s : Store)
    → r.sync_seq ≡ suc n
    → Sequenced n s.handles
    → Sequenced (suc n) (put_row h r s).handles
put_row-Sequenced n h r s e v = record {
  bounded = λ j q held. ground (arith, lookup-put_row j h r s, v.bounded j q);
  unique = λ i j p q held other same. ground (
    arith,
    lookup-put_row i h r s,
    lookup-put_row j h r s,
    v.bounded i p,
    v.bounded j q,
    v.unique i j p q,
  );
}

-- A row is as it was, or has a number past `n`.
abbrev pub SinceOrSame : ℕ → Map String Row → Map String Row → Type 0
SinceOrSame n before after =
    (h : String) (r : Row) → lookup h after ≡ some r → (lookup h before ≡ some r) ⊎ (n < r.sync_seq)

pub record Written (base count : ℕ) (s t : Store) : Type 0 where
  pub accounts : Accounts t
  pub sequenced : Sequenced (base + count) t.handles
  pub same_counter : t.sync_counter ≡ s.sync_counter
  pub since : SinceOrSame base s.handles t.handles

-- What holds of the state that an operation returns, when it returns one.
abbrev pub Ensures : (Store → Type 0) → Result Store → Type 0
Ensures P (ok t) = P t
Ensures P (err e) = Unit

Written-put :
    (base count : ℕ) (h : String) (r : Row) (s t : Store)
    → r.sync_seq ≡ suc base
    → Written (suc base) count (put_row h r s) t
    → Written base (suc count) s t
Written-put base count h r s t e w = record {
  accounts = w.accounts;
  sequenced = let same : base + suc count ≡ suc base + count = omega arith in rw same w.sequenced;
  same_counter = w.same_counter ∙ put_row-counter h r s;
  since = λ j q held. ground (arith, w.since j q, lookup-put_row j h r s);
}

Ensures-put :
    (base count : ℕ) (h : String) (r : Row) (s : Store) (m : Result Store)
    → r.sync_seq ≡ suc base
    → Ensures (Written (suc base) count (put_row h r s)) m
    → Ensures (Written base (suc count) s) m
Ensures-put base count h r s (err f) e w = tt
Ensures-put base count h r s (ok t) e w = Written-put base count h r s t e w

insert_all-Written :
    (c : Codec) (now : ℕ) (before : Map String Row) (base : ℕ) (es : List Prepared) (s : Store)
    → Accounts s
    → Sequenced base s.handles
    → Ensures (Written base (length es) s) (insert_all c now before base es s)
unfolding insert_all row_of
insert_all-Written c now before base [] s a q = record {
  accounts = a;
  sequenced = let same : base + 0 ≡ base = omega arith in rw same q;
  same_counter = refl;
  since = λ h r held. inl held;
}
insert_all-Written c now before base (x ∷ es) s a q = elim (Result-cases (cert_of before x)) [
  | inr (f, e) ↦ rw (e, insert_all) tt
  | inl (d, e) ↦
      let r = row_of c now (suc base) d x in
      rw (e, insert_all)
        (Ensures-put base (length es) x.handle r s
          (insert_all c now before (suc base) es (put_row x.handle r s)) refl
          (insert_all-Written c now before (suc base) es (put_row x.handle r s)
            (put_row-Accounts x.handle r s a) (put_row-Sequenced base x.handle r s refl q)))
]

-- The accounts agree with the rows, and the counter covers every number that a row has.
pub record IsSound (s : Store) : Type 0 where
  pub accounts : Accounts s
  pub sequenced : Sequenced s.sync_counter s.handles

pub record Updated (s t : Store) (r : BulkStoreResult) : Type 0 where
  pub sound : IsSound t
  pub counter : t.sync_counter ≡ s.sync_counter + r.stored
  pub since : SinceOrSame s.sync_counter s.handles t.handles

abbrev EnsuresUpdated : Store → Result (Store × BulkStoreResult) → Type 0
EnsuresUpdated s (ok (t, r)) = Updated s t r
EnsuresUpdated s (err e) = Unit

Updated-of :
    (s t : Store) (r : BulkStoreResult) (n : ℕ)
    → r.stored ≡ n
    → Written s.sync_counter n (record s { sync_counter = s.sync_counter + n }) t
    → Updated s t r
Updated-of s t r n e w = record {
  sound = record { accounts = w.accounts; sequenced = rw w.same_counter w.sequenced };
  counter = rw (w.same_counter, e);
  since = w.since;
}

Accounts-counter : (n : ℕ) (s : Store) → Accounts s → Accounts (record s { sync_counter = n })
Accounts-counter n s a = record {
  distinct = a.distinct;
  rows = a.rows;
  bytes = a.bytes;
  counts = a.counts;
}

write_all-Updated :
    (c : Codec) (now skipped : ℕ) (es : List Prepared) (s : Store)
    → IsSound s
    → EnsuresUpdated s (write_all c now skipped es s)
unfolding write_all
write_all-Updated c now skipped [] s v = record {
  sound = v;
  counter = omega arith;
  since = λ h r held. inl held;
}
write_all-Updated c now skipped (e ∷ es) s v =
    let bumped = record s { sync_counter = s.sync_counter + length (e ∷ es) } in
    let m = insert_all c now s.handles s.sync_counter (e ∷ es) bumped in
    let w : Ensures (Written s.sync_counter (length (e ∷ es)) bumped) m =
      insert_all-Written c now s.handles s.sync_counter (e ∷ es) bumped
        (Accounts-counter _ s v.accounts) v.sequenced in
    elim (Result-cases (insert_bulk c now s.handles s.sync_counter (e ∷ es) bumped)) [
      | inr (f, h) ↦ rw (h, write_all) tt
      | inl (t, h) ↦
          let done = insert_bulk-ok c now s.handles s.sync_counter (e ∷ es) bumped t h in
          rw (h, write_all) (Updated-of s t _ (length (e ∷ es)) refl (rw done at w))
    ]

update_handles-EnsuresUpdated :
    (c : Codec) (now : ℕ) (updates : List HandleRecord) (s : Store)
    → IsSound s
    → EnsuresUpdated s (update_handles c now updates s)
unfolding update_handles
update_handles-EnsuresUpdated c now updates s v = elim (Result-cases (prepare_all c updates)) [
  | inr (f, e) ↦ rw (e, update_handles) tt
  | inl (entries, e) ↦
      let hs = map (λ x. x.0.handle) entries in
      elim (Result-cases (stored_zones c now s.handles hs)) [
        | inr (f, z) ↦ rw (e, update_handles, z) tt
        | inl (zones, z) ↦
            let es = accept_all c now zones entries in
            rw (e, update_handles, z) (write_all-Updated c now (length updates - length es) es s v)
      ]
]

-- A successful `update_handles` keeps the accounting tables true and the sequence numbers distinct
-- and covered by the counter. It advances the counter by the number of rows that it stored, and
-- every row afterwards is one from before, unchanged, or has a number past the old counter.
pub update_handles-Updated :
    (c : Codec) (now : ℕ) (updates : List HandleRecord) (s t : Store) (r : BulkStoreResult)
    → update_handles c now updates s ≡ ok (t, r)
    → IsSound s
    → Updated s t r
update_handles-Updated c now updates s t r h v =
    rw h at (update_handles-EnsuresUpdated c now updates s v)
