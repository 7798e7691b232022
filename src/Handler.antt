-- ===== src/Handler.antt =====
-- `Handler` of relay/src/handler.rs: its state, and what it takes from libveritas and governor.
pub mod Pass
pub mod Message
pub mod Strings
pub mod Hints
pub mod Resolve
mod Tests
use certrelay.Prelude.{
  ℕ, Bool, true, false, ◌||◌, ◌&&◌, ◌==◌, Option, none, some, List, ltb, leb, eqb, String,
  string_dec_eq,
}
use certrelay.Store.Types.{Bytes, Zone, Certificate, RecordSet, Codec}
use certrelay.Store.State.{Store}

-- governor's keyed rate limiter, with its clock: `check_key` spends one unit of the key's quota, or
-- says no.
pub record Governor (L : Type 0) : Type 0 where
  pub check_key : String → L → Bool × L
  pub retain_recent : L → L
  pub shrink_to_fit : L → L

-- libveritas on messages: the spaces that a message names, its verification in a context of zones
-- and with or without the development mode, which gives zones and certificates, the names with one
-- label, and the first value of each address record.
pub record Veritas (M : Type 0) : Type 0 where
  pub spaces : M → List String
  pub verify : List Zone → Bool → M → Option (List Zone × List Certificate)
  pub is_single_label : String → Bool
  pub addrs : RecordSet → List (String × String)
  pub hex_encode : Bytes → String

-- What a handler is given from outside.
pub record Env (L M : Type 0) : Type 0 where
  pub gov : Governor L
  pub ver : Veritas M
  pub codec : Codec

pub record Handler (L : Type 0) : Type 0 where
  pub store : Store
  pub dev_mode : Bool
  pub space_rate : L
  pub handle_rate : L
  pub msg_count : ℕ

-- Only a replacement at the same or a lower epoch is charged.
unfoldable pub charges_churn : Option ℕ → ℕ → Bool
charges_churn none incoming = false
charges_churn (some e) incoming = leb incoming e

pub record EpochHint : Type 0 where
  pub root : String
  pub height : ℕ

verifiable_at : (Bytes → String) → EpochHint → Option (ℕ × Bytes) → Bool
verifiable_at hex hint none = false
verifiable_at hex hint (some (height, root)) =
    ltb height hint.height || hint.height == height && eqb hint.root (hex root)

unfoldable pub epoch_hint_verifiable_by : (Bytes → String) → EpochHint → Zone → Bool
unfolding verifiable_at
epoch_hint_verifiable_by hex hint zone = verifiable_at hex hint zone.commitment
