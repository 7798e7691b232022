-- ===== src/Store/Types.antt =====
-- The data of relay/src/store.rs: what it reads of libveritas's certificates and zones, its table
-- rows, and what it takes from other libraries.
use certrelay.Prelude.{
  ◌≡◌, ◌⊎◌, refl, inl, inr, ℕ, Bool, Option, none, some, List, String, ℕ_discrete, DecEq,
  string_discrete,
}

abbrev pub Bytes : Type 0
Bytes = List ℕ

-- libveritas::SovereigntyState.
pub data SovereigntyState : Type 0 where
  sovereign pending dependent : SovereigntyState

-- A Sig record of a record set: its flags and the name that it gives.
pub record Sig : Type 0 where
  pub is_primary : Bool
  pub handle : String

-- libveritas::sip7::RecordSet: its bytes, and what it parses to.
pub record RecordSet : Type 0 where
  pub bytes : Bytes
  pub seq : Option ℕ
  pub sig : Option Sig

-- libveritas::Zone; `commitment` and `delegate` are the values of ProvableOption::Exists.
pub record Zone : Type 0 where
  pub canonical : String
  pub script_pubkey : Bytes
  pub anchor : ℕ
  pub sovereignty : SovereigntyState
  pub records : RecordSet
  pub delegate : Option RecordSet
  pub commitment : Option (ℕ × Bytes)
  pub num_id : Option String

-- libveritas::cert::Certificate: its subject, the space of the subject, and whether its witness is
-- a root without a receipt.
pub record Certificate : Type 0 where
  pub subject : String
  pub space : Option String
  pub is_receiptless_root : Bool
  pub witness : Bytes

-- The statements that may fail: the SELECT of the stored zones and the INSERT of rows, with the number
-- of parameters that they bind, and the transactions of `set_revs` and `set_addrs`.
pub data Statement : Type 0 where
  select_zones insert_rows write_reverse : ℕ → Statement
  write_addrs : String → Statement

-- What the store takes from borsh, sha2 and libveritas, and whether SQLite runs a statement at a time.
pub record Codec : Type 0 where
  pub cert_to_vec : Certificate → Option Bytes
  pub cert_from_slice : Bytes → Option Certificate
  pub zone_to_vec : Zone → Option Bytes
  pub zone_from_slice : Bytes → Option Zone
  pub zone_hash : Bytes → Bytes
  pub is_better_than : Zone → Zone → Option Bool
  pub sql_runs : ℕ → Statement → Bool

pub record HandleRecord : Type 0 where
  pub cert : Certificate
  pub zone : Zone
  pub epoch_height : ℕ
  pub offchain_seq : ℕ
  pub delegate_offchain_seq : ℕ

pub record BulkStoreResult : Type 0 where
  pub stored : ℕ
  pub skipped : ℕ
  pub gated : ℕ
  pub stored_handles : List String

pub record HandleHintRow : Type 0 where
  pub handle : String
  pub epoch_height : ℕ
  pub offchain_seq : ℕ
  pub delegate_offchain_seq : ℕ
  pub zone_hash : Bytes

-- A row of the table `handles`, under its key `handle`.
pub record Row : Type 0 where
  pub space : String
  pub cert_data : Bytes
  pub zone_data : Bytes
  pub epoch_height : ℕ
  pub offchain_seq : ℕ
  pub delegate_offchain_seq : ℕ
  pub sync_seq : ℕ
  pub zone_hash : Bytes
  pub updated_at : ℕ

-- The key of the table `space_epoch_counts`.
pub data Bucket : Type 0 where
  bucket : String → ℕ → Bucket

unfoldable pub bucket_discrete : Discrete Bucket
bucket_discrete = hlevel (string_discrete, ℕ_discrete)

instance abbrev pub bucket_dec_eq : DecEq Bucket
bucket_dec_eq = record { same = bucket_discrete }

-- A row of the table `addrs`.
pub record AddrRow : Type 0 where
  pub name : String
  pub addr : String
  pub handle : String
  pub rev : String
  pub updated_at : ℕ

-- The failures of the operations: a subject without a space, bytes that cannot be written or read,
-- and a message that libveritas rejects.
pub data StoreError : Type 0 where
  missing_space serialize_failed deserialize_failed constraint_failed verify_failed sql_failed :
      StoreError

pub data Result {ℓ} (A : Type ℓ) : Type ℓ where
  ok : A → Result A
  err : StoreError → Result A

infixl 5 ◌>>=◌
abbrev pub ◌>>=◌ {ℓ κ} : {A : Type ℓ} {B : Type κ} → Result A → (A → Result B) → Result B
ok a >>= f = f a
err e >>= f = err e

abbrev pub or_fail {ℓ} : {A : Type ℓ} → Option A → StoreError → Result A
or_fail none e = err e
or_fail (some a) e = ok a

pub Result-cases {ℓ} :
    {A : Type ℓ} (r : Result A) → ((a : A) × (r ≡ ok a)) ⊎ ((e : StoreError) × (r ≡ err e))
Result-cases (ok a) = inl (a, refl)
Result-cases (err e) = inr (e, refl)
