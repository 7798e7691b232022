-- ===== src/Sync.antt =====
-- The data of relay/src/sync.rs, and what it takes from libveritas's builder, from spaced and from
-- the network.
pub mod Ingest
pub mod Pull
mod Tests
use certrelay.Prelude.{◌≡◌, ◌⊎◌, inl, inr, refl, ℕ, Bool, false, Option, List, String}
use certrelay.Store.Types.{Bytes, Zone, Certificate, RecordSet, StoreError}
use certrelay.Handler.{Env}
use certrelay.Retention.{RetentionConfig}

-- `SyncRecord` of fabric/rust/src/lib.rs.
pub record SyncRecord : Type 0 where
  pub handle : String
  pub epoch_height : ℕ
  pub seq : ℕ
  pub delegate_seq : ℕ
  pub cert : Bytes
  pub zone : Bytes

pub record SyncIngest : Type 0 where
  pub stored : ℕ
  pub prefiltered : ℕ
  pub failed_spaces : ℕ
  pub gated : ℕ
  pub incomplete : Bool

abbrev pub no_ingest : SyncIngest
no_ingest = record { stored = 0; prefiltered = 0; failed_spaces = 0; gated = 0; incomplete = false }

-- `SyncConfig`, as far as one round with a peer reads it.
pub record SyncConfig : Type 0 where
  pub max_pages_per_peer : ℕ
  pub max_page_bytes : ℕ

-- What ends a batch or a round: a failure of the store, an infrastructure failure, an undecodable
-- record, one with another's handle, and the refusals of `sync_with_peer`.
pub data SyncError : Type 0 where
  store_error : StoreError → SyncError
  infra_failed undecodable handle_mismatch unreachable page_too_large missing_cursor bad_cursor
        stuck_cursor budget_spent :
      SyncError

pub data Outcome {ℓ} (A : Type ℓ) : Type ℓ where
  done : A → Outcome A
  failed : SyncError → Outcome A

pub Outcome-cases {ℓ} :
    {A : Type ℓ} (o : Outcome A) → ((a : A) × (o ≡ done a)) ⊎ ((e : SyncError) × (o ≡ failed e))
Outcome-cases (done a) = inl (a, refl)
Outcome-cases (failed e) = inr (e, refl)

-- The update that a builder gets with each certificate.
pub record DataUpdate : Type 0 where
  pub cert : Certificate
  pub records : RecordSet
  pub delegate_records : Option RecordSet

-- `prove` asks spaced for a chain proof, which can fail; `build` makes a message with it, or rejects
-- the updates; `runs` says whether the verification task ends.
pub record Builder (M P : Type 0) : Type 0 where
  pub prove : List DataUpdate → Option P
  pub build : List DataUpdate → P → Option M
  pub runs : M → Bool

-- What the ingest of a relay works with.
pub record Puller (L M P : Type 0) : Type 0 where
  pub env : Env L M
  pub builder : Builder M P
  pub retention : RetentionConfig
