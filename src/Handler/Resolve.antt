-- ===== src/Handler/Resolve.antt =====
-- `resolve` of relay/src/handler.rs, with `Query` of fabric/rust/src/lib.rs. The names and the builder of
-- messages are libveritas's, and the proofs come from spaced.
pub mod Records
pub mod Asks
pub mod Origin
pub mod Complete
mod Tests
use certrelay.Prelude.{
  ℕ, Bool, true, false, not, ◌&&◌, ◌⊎◌, inl, inr, Option, none, some, List, [], ◌∷◌, ◌++◌, map,
  if◌then◌else◌, eqb, String, string_dec_eq,
}
use certrelay.Store.Types.{
  Bytes, RecordSet, Zone, Certificate, Codec, HandleRecord, StoreError, Result, ok, err,
}
use certrelay.Store.State.{Store}
use certrelay.Store.Pages.{contains}
use certrelay.Store.Rows.{get_handle, get_handles}
use certrelay.Handler.{EpochHint, epoch_hint_verifiable_by}

pub record Query : Type 0 where
  pub space : String
  pub handles : List String
  pub epoch_hint : Option EpochHint

-- libveritas::builder: the certificates and the records that a message is built of.
pub record DataUpdateRequest : Type 0 where
  pub handle : String
  pub records : Option RecordSet
  pub delegate_records : Option RecordSet

pub record MessageBuilder : Type 0 where
  pub certs : List Certificate
  pub updates : List DataUpdateRequest

-- A record set that a built message has no signature for, and whether it has no records.
pub record Unsigned : Type 0 where
  pub canonical : String
  pub is_empty : Bool

-- libveritas on names, on the receipt of a root, and on what is built; the proof is the node's.
pub record Resolver (M Proof : Type 0) : Type 0 where
  pub hex_encode : Bytes → String
  pub space_from_str : String → Option String
  pub subname_from_str : String → Option String
  pub join : String → String → Option String
  pub take_receipt : Certificate → Certificate
  pub root_without_receipt : String → Certificate
  pub prove : MessageBuilder → Option Proof
  pub build : MessageBuilder → Proof → Option (M × List Unsigned)

pub data ResolveError : Type 0 where
  invalid_space : String → ResolveError
  store_failed : StoreError → ResolveError
  prove_failed build_failed : ResolveError
  missing_signatures : List String → ResolveError

abbrev pub try_then : {A B : Type 0} → ResolveError ⊎ A → (A → ResolveError ⊎ B) → ResolveError ⊎ B
try_then (inl e) f = inl e
try_then (inr a) f = f a

-- The records of a zone, under the subject of its certificate, and the certificate.
unfoldable pub add_record : Certificate → Zone → MessageBuilder → MessageBuilder
add_record cert zone b = record {
  certs = b.certs ++ (cert ∷ []);
  updates =
      b.updates
      ++ (record {
        handle = cert.subject;
        records = some zone.records;
        delegate_records = zone.delegate;
      }
          ∷ []);
}

unfoldable pub add_records : List HandleRecord → MessageBuilder → MessageBuilder
unfolding add_record
add_records [] b = b
add_records (z ∷ zs) b = add_records zs (add_record z.cert z.zone b)

-- What `filter_map` and the set keep: the names that can be read, each once.
abbrev pub push_some : Option String → List String → List String
push_some none xs = xs
push_some (some x) xs = if contains xs x then xs else x ∷ xs

unfoldable pub read_names : (String → Option String) → List String → List String
read_names from_str [] = []
read_names from_str (h ∷ hs) = let rest = read_names from_str hs in push_some (from_str h) rest

-- The second `filter_map`.
unfoldable pub join_names : (String → Option String) → List String → List String
join_names join [] = []
join_names join (n ∷ ns) =
    let rest = join_names join ns in elim (join n) [ none ↦ rest | some h ↦ h ∷ rest ]

abbrev pub empty_builder : MessageBuilder
empty_builder = record { certs = []; updates = [] }

abbrev pub canonicals : List Unsigned → List String
canonicals us = map (λ u. u.canonical) us

unfoldable pub none_empty : List Unsigned → Bool
none_empty [] = true
none_empty (u ∷ us) = not u.is_empty && none_empty us

module _ {M Proof : Type 0} (k : Resolver M Proof) (codec : Codec) where
  -- The root's certificate, without the receipt that the client can do without.
  unfoldable pub parent_cert : Option EpochHint → HandleRecord → Certificate
  unfolding epoch_hint_verifiable_by
  parent_cert none z = z.cert
  parent_cert (some hint) z =
      if epoch_hint_verifiable_by k.hex_encode hint z.zone then k.take_receipt z.cert else z.cert

  unfoldable pub unique_handles : String → List String → List String
  unfolding read_names join_names
  unique_handles space hs = join_names (λ n. k.join n space) (read_names k.subname_from_str hs)

  abbrev pub with_entries :
      Result (List HandleRecord) → MessageBuilder → ResolveError ⊎ MessageBuilder
  with_entries (err e) b = inl (store_failed e)
  with_entries (ok zs) b = inr (add_records zs b)

  unfoldable pub with_parent :
      String
      → Query
      → Store
      → MessageBuilder
      → Result (Option HandleRecord)
      → ResolveError ⊎ MessageBuilder
  unfolding add_record add_records parent_cert unique_handles get_handles
  with_parent space q s b (err e) = inl (store_failed e)
  with_parent space q s b (ok none) =
      inr (record b { certs = b.certs ++ (k.root_without_receipt space ∷ []) })
  with_parent space q s b (ok (some z)) =
      with_entries (get_handles codec (unique_handles space q.handles) s)
        (add_record (parent_cert q.epoch_hint z) z.zone b)

  unfoldable pub add_query :
      Query → Store → MessageBuilder → Option String → ResolveError ⊎ MessageBuilder
  unfolding with_parent get_handle
  add_query q s b none = inl (invalid_space q.space)
  add_query q s b (some space) = with_parent space q s b (get_handle codec q.space s)

  -- The loop over the queries, with the spaces that it has seen.
  unfoldable pub add_queries :
      Store → List Query → List String → MessageBuilder → ResolveError ⊎ MessageBuilder
  unfolding add_query
  add_queries s [] seen b = inr b
  add_queries s (q ∷ qs) seen b =
      if contains seen q.space
      then add_queries s qs seen b
      else try_then (add_query q s b (k.space_from_str q.space))
          (λ b'. add_queries s qs (q.space ∷ seen) b')

  unfoldable pub signed : Option (M × List Unsigned) → ResolveError ⊎ M
  unfolding none_empty
  signed none = inl build_failed
  signed (some (m, [])) = inr m
  signed (some (m, u ∷ us)) =
      if none_empty (u ∷ us) then inl (missing_signatures (canonicals (u ∷ us))) else inr m

  unfoldable pub prove_and_build : MessageBuilder → Option Proof → ResolveError ⊎ M
  unfolding signed
  prove_and_build b none = inl prove_failed
  prove_and_build b (some chain) = signed (k.build b chain)

  unfoldable pub resolve : Store → List Query → ResolveError ⊎ M
  unfolding add_queries prove_and_build
  resolve s queries =
      try_then (add_queries s queries [] empty_builder) (λ b. prove_and_build b (k.prove b))
