-- ===== src/Client.antt =====
-- `Fabric` of fabric/rust/src/client.rs: its state and its data. spaces_nums and libveritas, which
-- read anchors, and the network are parameters.
pub mod Relays
pub mod Anchors
pub mod Votes
pub mod Query
pub mod Trust
pub mod Session
mod Tests
use certrelay.Prelude.{ℕ, zero, suc, ◌+◌, ◌/◌, ◌≡◌, refl, ◌⊎◌, inl, inr, Bool, Option, List, String}
use certrelay.Map.{Map}
use certrelay.Store.Types.{Bytes, Zone}

-- `Error`, without the texts.
pub data Error : Type 0 where
  decode_error verify_error no_peers : Error
  relay_error : ℕ → Error

-- `Result` with this error.
pub data Fetched {ℓ} (A : Type ℓ) : Type ℓ where
  got : A → Fetched A
  lost : Error → Fetched A

pub Fetched-cases {ℓ} :
    {A : Type ℓ} (r : Fetched A) → ((a : A) × (r ≡ got a)) ⊎ ((e : Error) × (r ≡ lost e))
Fetched-cases (got a) = inl (a, refl)
Fetched-cases (lost e) = inr (e, refl)

-- What a request comes back with: nothing, a status other than success, a body that cannot be read
-- or decoded, or a body.
pub data Reply {ℓ} (B : Type ℓ) : Type ℓ where
  unsent garbled : Reply B
  refused : ℕ → Reply B
  body : B → Reply B

pub record TrustSet : Type 0 where
  pub id : Bytes
  pub roots : List Bytes

-- `AnchorBundle`, over the anchors `A` of spaces_nums.
pub record AnchorBundle (A : Type 0) : Type 0 where
  pub trust_set : TrustSet
  pub anchors : List A

pub record AnchorPool (A : Type 0) : Type 0 where
  pub trusted : List A
  pub semi_trusted : List A
  pub observed : List A

pub record RelayEntry : Type 0 where
  pub url : String
  pub failures : ℕ

pub record SemiTrustedRelay : Type 0 where
  pub url : String
  pub pubkey : Bytes

pub data Quorum : Type 0 where
  all majority : Quorum
  at_least : ℕ → Quorum

-- The relays that have to agree, of `total`.
unfoldable pub required : Quorum → ℕ → ℕ
required all total = total
required (at_least n) total = n
required majority total = total / 2 + 1

pub record SemiTrustConfig : Type 0 where
  pub relays : List SemiTrustedRelay
  pub quorum : Quorum

pub record SemiTrustResult : Type 0 where
  pub trust_id : Option Bytes
  pub height : Option ℕ
  pub total : ℕ
  pub verified : ℕ
  pub agreed : ℕ
  pub required : ℕ
  pub quorum_met : Bool

-- `Fabric`, with a verifier `V` of libveritas.
pub record Fabric (A V : Type 0) : Type 0 where
  pub pool : List RelayEntry
  pub veritas : V
  pub dev_mode : Bool
  pub root_cache : Map String Zone
  pub seeds : List String
  pub trusted : Option TrustSet
  pub observed : Option TrustSet
  pub semi_trusted : Option TrustSet
  pub anchor_pool : AnchorPool A
  pub prefer_latest : Bool
  pub semi_trust_config : SemiTrustConfig

-- What libveritas and spaces_nums say of anchors: the height of the block, the trust set of a list,
-- and a verifier made from a list, which can be refused.
pub record Anchoring (A V : Type 0) : Type 0 where
  pub height : A → ℕ
  pub compute_trust_set : List A → TrustSet
  pub with_anchors : List A → Option V
  pub newest_anchor : V → ℕ

-- The headers of an answer to HEAD /anchors.
pub record Head : Type 0 where
  pub root : Option String
  pub sig : Option String
  pub height : Option ℕ

-- Hexadecimal digits and the check of a signature on a payload.
pub record Crypto : Type 0 where
  pub hex_decode : String → Option Bytes
  pub verify_spaces_message : Bytes → Bytes → Bytes → Bool

-- The relays as the requests of the client find them.
pub record Net (A : Type 0) : Type 0 where
  pub head : String → Reply Head
  pub anchors : String → Bytes → Reply (List A)
