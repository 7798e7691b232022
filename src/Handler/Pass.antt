-- ===== src/Handler/Pass.antt =====
-- The closure that `handle_message_opts` of relay/src/handler.rs runs on each certificate.
use mathlib.Core.Option
use certrelay.Prelude.{
  ℕ, suc, Bool, false, not, ◌&&◌, ◌==◌, Option, none, some, List, [], ◌∷◌, ◌++◌, ltb, eqb,
  if◌then◌else◌, length, is_some, String, string_dec_eq,
}
use certrelay.Map.{Map, lookup, insert}
use certrelay.Store.Types.{Bytes, Zone, Sig, RecordSet, Certificate, HandleRecord, HandleHintRow}
use certrelay.Store.Update.{seq_of, bytes_dec_eq}
use certrelay.Store.Pages.{contains}
use certrelay.Handler.{Env, charges_churn}

-- What the closure reads: the verified zones by name, the epochs by space, the stored rows, and the
-- arguments of the call.
pub record Batch : Type 0 where
  pub zone_map : Map String Zone
  pub epoch_map : Map String ℕ
  pub existing : Map String HandleHintRow
  pub gated_spaces : List String
  pub charge_content_limits : Bool
  pub dev_mode : Bool

-- What it changes.
pub record Pass (L : Type 0) : Type 0 where
  pub space_rate : L
  pub handle_rate : L
  pub preskipped : ℕ
  pub gated : ℕ
  pub revs : List (String × String)
  pub addr_index : Map String (String × List (String × String))

abbrev pub max_records_size : ℕ
max_records_size = 1024

abbrev pub rev_of : Sig → Option String → List (String × String)
rev_of g none = []
rev_of g (some id) = if g.is_primary then (id, g.handle) ∷ [] else []

abbrev pub index_addrs :
    String
    → String
    → List (String × String)
    → Map String (String × List (String × String))
    → Map String (String × List (String × String))
index_addrs h rev [] m = m
index_addrs h rev (a ∷ as') m = insert h (rev, a ∷ as') m

abbrev pub same_meta : HandleHintRow → ℕ → ℕ → ℕ → Bool
same_meta r epoch seq delegate_seq =
    r.epoch_height == epoch && r.offchain_seq == seq && r.delegate_offchain_seq == delegate_seq

unfoldable pub delegate_seq_of : Option RecordSet → ℕ
delegate_seq_of none = 0
delegate_seq_of (some r) = seq_of r

unfoldable pub record_with : Certificate → Zone → ℕ → HandleRecord
unfolding delegate_seq_of
record_with cert z epoch = record {
  cert = cert;
  zone = z;
  epoch_height = epoch;
  offchain_seq = seq_of z.records;
  delegate_offchain_seq = delegate_seq_of z.delegate;
}

module _ {L M : Type 0} (env : Env L M) where
  unfoldable pub collect_sig : String → Zone → Option Sig → Pass L → Pass L
  collect_sig h z none p = p
  collect_sig h z (some g) p = record p {
    revs = p.revs ++ rev_of g z.num_id;
    addr_index = index_addrs h g.handle (env.ver.addrs z.records) p.addr_index;
  }

  -- The reverse name and the addresses of a zone with a Sig record.
  unfoldable pub collect : String → Zone → Pass L → Pass L
  unfolding collect_sig
  collect h z p = collect_sig h z z.records.sig p

  unfoldable pub same_blob : HandleHintRow → Option Bytes → Bool
  same_blob r none = false
  same_blob r (some b) = eqb (env.codec.zone_hash b) r.zone_hash

  -- An exact copy of the stored row.
  unfoldable pub is_duplicate : Option HandleHintRow → ℕ → ℕ → ℕ → Zone → Bool
  unfolding same_blob
  is_duplicate none epoch seq delegate_seq z = false
  is_duplicate (some r) epoch seq delegate_seq z =
      same_meta r epoch seq delegate_seq && same_blob r (env.codec.zone_to_vec z)

  -- Both limiters have to agree; the second is asked only after the first.
  unfoldable pub charge : String → String → Pass L → Bool × Pass L
  charge space h p =
      let (a, l) = env.gov.check_key space p.space_rate in
      let (b, k) = env.gov.check_key h p.handle_rate in
      if a
      then (b, record p { space_rate = l; handle_rate = k })
      else (false, record p { space_rate = l })

  unfoldable pub limited :
      Batch
      → Option HandleHintRow
      → String
      → String
      → HandleRecord
      → Pass L
      → Option HandleRecord × Pass L
  unfolding charge
  limited b stored space h u p =
      if b.charge_content_limits
        && not b.dev_mode
        && charges_churn (Option.map (λ r. r.epoch_height) stored) u.epoch_height
      then (if (charge space h p).0 then some u else none, (charge space h p).1)
      else (some u, p)

  -- The duplicate pre-skip, the admission gate and the rate limits.
  unfoldable pub admit :
      Batch
      → Option HandleHintRow
      → String
      → String
      → HandleRecord
      → Pass L
      → Option HandleRecord × Pass L
  unfolding is_duplicate limited
  admit b stored space h u p =
      if is_duplicate stored u.epoch_height u.offchain_seq u.delegate_offchain_seq u.zone
      then (none, record p { preskipped = suc p.preskipped })
      else (if not (is_some stored) && contains b.gated_spaces space
          then (none, record p { gated = suc p.gated })
          else limited b stored space h u p)

  unfoldable pub in_space :
      Batch → Certificate → Zone → Option String → Pass L → Option HandleRecord × Pass L
  unfolding admit record_with
  in_space b cert z none p = (none, p)
  in_space b cert z (some space) p =
      admit b (lookup cert.subject b.existing) space cert.subject
        (record_with cert z (Option.get_or (lookup space b.epoch_map) 0)) p

  unfoldable pub with_zone :
      Batch → Certificate → Option Zone → Pass L → Option HandleRecord × Pass L
  unfolding in_space collect
  with_zone b cert none p = (none, p)
  with_zone b cert (some z) p =
      if ltb max_records_size (length z.records.bytes)
      then (none, p)
      else in_space b cert z cert.space (collect cert.subject z p)

  -- The closure.
  unfoldable pub bundle : Batch → Certificate → Pass L → Option HandleRecord × Pass L
  unfolding with_zone
  bundle b cert p = with_zone b cert (lookup cert.subject b.zone_map) p

  -- `filter_map`, in the order of the certificates.
  unfoldable pub bundle_all : Batch → List Certificate → Pass L → List HandleRecord × Pass L
  unfolding bundle
  bundle_all b [] p = ([], p)
  bundle_all b (x ∷ xs) p =
      let r = bundle b x p in
      let rest = bundle_all b xs r.1 in elim r.0 [ none ↦ rest | some u ↦ (u ∷ rest.0, rest.1) ]
