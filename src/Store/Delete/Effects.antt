-- ===== src/Store/Delete/Effects.antt =====
-- What `delete_handles` of relay/src/store.rs changes, and what it leaves.
use certrelay.Prelude.{
  ℕ, suc, ◌+◌, ◌≡◌, ◌⊎◌, inl, inr, refl, true, not, ◌&&◌, Bool-cases, Option-cases, Option, none,
  some, List, [], ◌∷◌, filter, eqb, if◌then◌else◌, length, String, string_dec_eq, arith, ite,
  dec_eq,
}
use certrelay.Map.{Map, lookup, contains_key, Distinct}
use certrelay.Map.Laws.{length-remove, lookup-remove, lookup-retain, retain-Distinct}
use certrelay.Store.Types.{Row, Zone, Codec, AddrRow}
use certrelay.Store.State.{Store, delete_row, count_delete}
use certrelay.Store.State.Accounting.{delete_row-Accounts}
use certrelay.Store.Update.Sequence.{IsSound}
use certrelay.Store.Pages.{contains}
use certrelay.Store.Delete.{
  reverse_of, delete_reverse, zone_of, clear_zone, clear_reverse, delete_rows, delete_handles,
}

-- What the deletion of rows leaves of the state, and how many rows it deleted.
pub record Deleted (hs : List String) (s t : Store) (n : ℕ) : Type 0 where
  pub sound : IsSound t
  pub same_counter : t.sync_counter ≡ s.sync_counter
  pub same_watermarks : t.sync_watermarks ≡ s.sync_watermarks
  pub rows :
      (h : String) → lookup h t.handles ≡ (if contains hs h then none else lookup h s.handles)
  pub count : n + length t.handles ≡ length s.handles
  pub addrs : t.addrs ≡ filter (λ a. not (contains hs a.handle)) s.addrs

delete_row-rest :
    (h : String) (s : Store)
    → ((delete_row h s).sync_counter ≡ s.sync_counter)
      × ((delete_row h s).sync_watermarks ≡ s.sync_watermarks)
      × ((delete_row h s).reverse ≡ s.reverse)
      × ((delete_row h s).addrs ≡ s.addrs)
unfolding delete_row count_delete
delete_row-rest h s = elim (Option-cases (lookup h s.handles)) [
  | inl e ↦ ground (arith, e)
  | inr (r, e) ↦ ground (arith, e)
]

lookup-delete_row_at :
    (j h : String) (s : Store)
    → lookup j (delete_row h s).handles ≡ ite (dec_eq h j) none (lookup j s.handles)
unfolding delete_row count_delete
lookup-delete_row_at j h s = ground (arith, lookup-remove j h s.handles)

length-delete_row :
    (h : String) (s : Store)
    → Distinct s.handles
    → (if contains_key h s.handles
        then suc (length (delete_row h s).handles)
        else length (delete_row h s).handles)
      ≡ length s.handles
unfolding delete_row count_delete
length-delete_row h s d = ground (arith, length-remove h s.handles d)

delete_row-IsSound : (h : String) (s : Store) → IsSound s → IsSound (delete_row h s)
delete_row-IsSound h s v = record {
  accounts = delete_row-Accounts h s v.accounts;
  sequenced = record {
    bounded = λ j r e.
        ground
          (arith, lookup-delete_row_at j h s, v.sequenced.bounded j r, (delete_row-rest h s).0);
    unique = λ i j q r a b same.
        ground (
          arith,
          lookup-delete_row_at i h s,
          lookup-delete_row_at j h s,
          v.sequenced.unique i j q r,
        );
  };
}

delete_rows-rest :
    (hs : List String) (s : Store)
    → ((delete_rows hs s).0.sync_counter ≡ s.sync_counter)
      × ((delete_rows hs s).0.sync_watermarks ≡ s.sync_watermarks)
      × ((delete_rows hs s).0.reverse ≡ s.reverse)
      × ((delete_rows hs s).0.addrs ≡ s.addrs)
unfolding delete_rows
delete_rows-rest [] s = (refl, refl, refl, refl)
delete_rows-rest (h ∷ hs) s =
    ground (arith, delete_rows-rest hs (delete_row h s), delete_row-rest h s)

delete_rows-IsSound : (hs : List String) (s : Store) → IsSound s → IsSound (delete_rows hs s).0
unfolding delete_rows
delete_rows-IsSound [] s v = v
delete_rows-IsSound (h ∷ hs) s v =
    let rest = delete_rows-IsSound hs (delete_row h s) (delete_row-IsSound h s v) in
    elim (Option-cases (lookup h s.handles)) [
      | inl e ↦ rw (e, delete_rows) rest
      | inr (r, e) ↦ rw (e, delete_rows) rest
    ]

delete_rows-lookup :
    (hs : List String) (s : Store) (j : String)
    → lookup j (delete_rows hs s).0.handles ≡ (if contains hs j then none else lookup j s.handles)
unfolding delete_rows contains
delete_rows-lookup [] s j = refl
delete_rows-lookup (h ∷ hs) s j =
    ground (arith, delete_rows-lookup hs (delete_row h s) j, lookup-delete_row_at j h s)

delete_rows-length :
    (hs : List String) (s : Store)
    → IsSound s
    → (delete_rows hs s).1 + length (delete_rows hs s).0.handles ≡ length s.handles
unfolding delete_rows
delete_rows-length [] s v = omega arith
delete_rows-length (h ∷ hs) s v = ground (
  arith,
  delete_rows-length hs (delete_row h s) (delete_row-IsSound h s v),
  length-delete_row h s v.accounts.distinct,
)

clear_zone-keeps :
    (o : Option Zone) (m : Map String (String × ℕ)) (k : String) (v : String × ℕ)
    → Distinct m
    → lookup k m ≡ some v
    → (lookup k (clear_zone o m) ≡ some v)
      ⊎ ((z : Zone) × (o ≡ some z) × (reverse_of z ≡ some (k, v.0)))
unfolding clear_zone delete_reverse
clear_zone-keeps none m k v d e = inl e
clear_zone-keeps (some z) m k v d e = elim (Option-cases (reverse_of z)) [
  | inl f ↦ inl (ground (arith, f))
  | inr ((n, name), f) ↦
      let seen =
        lookup-retain k (λ (j : String) (w : String × ℕ). not (eqb j n && eqb w.0 name)) m d in
      elim (Bool-cases (eqb k n && eqb v.0 name)) [
        | inl b ↦ inr (z, refl, ground (arith, b, f))
        | inr b ↦ inl (ground (arith, b, f, seen))
      ]
]

clear_zone-Distinct :
    (o : Option Zone) (m : Map String (String × ℕ)) → Distinct m → Distinct (clear_zone o m)
unfolding clear_zone delete_reverse
clear_zone-Distinct none m d = d
clear_zone-Distinct (some z) m d = elim (Option-cases (reverse_of z)) [
  | inl f ↦ ground (arith, f)
  | inr ((n, name), f) ↦ ground (
    arith,
    f,
    retain-Distinct (λ (j : String) (w : String × ℕ). not (eqb j n && eqb w.0 name)) m d,
  )
]

-- A reverse row is gone only if the zone of one of the handles gave it.
clear_reverse-keeps :
    (c : Codec) (rows : Map String Row) (hs : List String) (m : Map String (String × ℕ))
    (k : String) (v : String × ℕ)
    → Distinct m
    → lookup k m ≡ some v
    → (lookup k (clear_reverse c rows hs m) ≡ some v)
      ⊎ ((h : String) × (z : Zone) × (contains hs h ≡ true)
          × (zone_of c (lookup h rows) ≡ some z)
          × (reverse_of z ≡ some (k, v.0)))
unfolding clear_reverse contains
clear_reverse-keeps c rows [] m k v d e = inl e
clear_reverse-keeps c rows (h ∷ hs) m k v d e =
    elim (clear_zone-keeps (zone_of c (lookup h rows)) m k v d e) [
      | inr (z, f, g) ↦ inr (h, z, ground arith, f, g)
      | inl f ↦
          elim (clear_reverse-keeps c rows hs (clear_zone (zone_of c (lookup h rows)) m) k v
            (clear_zone-Distinct (zone_of c (lookup h rows)) m d) f) [
              | inl g ↦ inl g
              | inr (j, z, a, b, g) ↦ inr (j, z, ground arith, b, g)
            ]
    ]

IsSound-cleared :
    (s : Store) (m : Map String (String × ℕ)) (kept : List AddrRow)
    → IsSound s
    → IsSound (record s { reverse = m; addrs = kept })
IsSound-cleared s m kept v = record {
  accounts = record {
    distinct = v.accounts.distinct;
    rows = v.accounts.rows;
    bytes = v.accounts.bytes;
    counts = v.accounts.counts;
  };
  sequenced = v.sequenced;
}

-- `delete_handles` removes the rows of the given handles and no others, returns how many there were,
-- removes the address rows of these handles and no others, and keeps the accounting tables true and
-- the sequence numbers distinct. The write counter and the watermarks stay.
pub delete_handles-Deleted :
    (c : Codec) (hs : List String) (s : Store)
    → IsSound s
    → Deleted hs s (delete_handles c hs s).0 (delete_handles c hs s).1
unfolding delete_handles
delete_handles-Deleted c hs s v =
    let m = clear_reverse c s.handles hs s.reverse in
    let kept = filter (λ (a : AddrRow). not (contains hs a.handle)) s.addrs in
    let cleared : Store = record s { reverse = m; addrs = kept } in
    let w = IsSound-cleared s m kept v in
    let rest = delete_rows-rest hs cleared in
    record {
      sound = delete_rows-IsSound hs cleared w;
      same_counter = rest.0;
      same_watermarks = rest.1;
      rows = λ h. delete_rows-lookup hs cleared h;
      count = delete_rows-length hs cleared w;
      addrs = rest.3;
    }

-- `delete_handles` removes a reverse row only if the stored zone of one of the deleted handles is the
-- one that gave it: its number is the zone's, and its name is the one that the primary record of the
-- zone gives.
pub delete_handles_reverse :
    (c : Codec) (hs : List String) (s : Store) (k : String) (v : String × ℕ)
    → Distinct s.reverse
    → lookup k s.reverse ≡ some v
    → (lookup k (delete_handles c hs s).0.reverse ≡ some v)
      ⊎ ((h : String) × (z : Zone) × (contains hs h ≡ true)
          × (zone_of c (lookup h s.handles) ≡ some z)
          × (reverse_of z ≡ some (k, v.0)))
unfolding delete_handles
delete_handles_reverse c hs s k v d e =
    let m = clear_reverse c s.handles hs s.reverse in
    let kept = filter (λ (a : AddrRow). not (contains hs a.handle)) s.addrs in
    rw (delete_rows-rest hs (record s { reverse = m; addrs = kept })).2
      (clear_reverse-keeps c s.handles hs s.reverse k v d e)
