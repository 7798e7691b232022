-- ===== src/Anchors/Serve.antt =====
-- How a relay signs and serves its anchors: relay/src/identity.rs, `refresh_anchors` and
-- `refresh_anchor_sig` of relay/src/app.rs, and what `handle_anchors` of relay/src/http.rs answers.
-- secp256k1, with the hash of libveritas, is the signing function of the identity. Heights in headers
-- are numbers here.
pub mod Changes
pub mod Signed
use Prim.Native.Nat.{◌^◌}
use certrelay.Prelude.{
  ℕ, ◌/◌, ◌%◌, Bool, true, false, ◌&&◌, ◌==◌, Option, none, some, List, [], ◌∷◌, ◌++◌, eqb,
  if◌then◌else◌, length, String,
}
use certrelay.Store.Types.{Bytes}
use certrelay.Store.Update.{bytes_dec_eq}
use certrelay.Anchors.{RootAnchor, AnchorSet, AnchorSets, tip_height, latest, get, from_anchors}

-- The key pair of a relay: signing a message, and the public key.
pub record RelayIdentity : Type 0 where
  pub sign_spaces_message : Bytes → Bytes
  pub public_key : Bytes

pub record AnchorSig : Type 0 where
  pub trust_id : Bytes
  pub height : ℕ
  pub sig : Bytes

-- The anchors and the cached signature of a relay's state.
pub record Serving : Type 0 where
  pub anchor_store : AnchorSets
  pub anchor_sig : Option AnchorSig

-- "certrelay-anchor-sig-v1", 23 bytes.
abbrev pub identity_tag : Bytes
identity_tag =
    99 ∷ 101 ∷ 114 ∷ 116 ∷ 114 ∷ 101 ∷ 108 ∷ 97 ∷ 121 ∷ 45 ∷ 97 ∷ 110 ∷ 99 ∷ 104 ∷ 111 ∷ 114 ∷ 45
    ∷ 115 ∷ 105 ∷ 103 ∷ 45 ∷ 118 ∷ 49 ∷ []

abbrev pub to_be_bytes : ℕ → Bytes
to_be_bytes n = (n / 2 ^ 24) % 256 ∷ (n / 2 ^ 16) % 256 ∷ (n / 2 ^ 8) % 256 ∷ n % 256 ∷ []

-- `anchor_sig_payload` of the relay.
unfoldable pub identity_payload : Bytes → ℕ → Bytes
identity_payload trust_id height = (identity_tag ++ trust_id) ++ to_be_bytes height

unfoldable pub sign_anchor : RelayIdentity → Bytes → ℕ → Bytes
unfolding identity_payload
sign_anchor i trust_id height = i.sign_spaces_message (identity_payload trust_id height)

unfoldable pub is_signed : Option AnchorSig → Bytes → ℕ → Bool
is_signed none trust_id height = false
is_signed (some c) trust_id height = eqb c.trust_id trust_id && c.height == height

-- The headers of an answer.
pub record AnchorHeaders : Type 0 where
  pub x_anchor_root : Option String
  pub x_anchor_height : Option ℕ
  pub x_anchor_pubkey : Option String
  pub x_anchor_sig : Option String

-- The set, a root that is no root, or no set under the root.
pub data Anchored : Type 0 where
  anchored : AnchorSet → Anchored
  invalid_hex root_must_be_32_bytes anchor_set_not_found : Anchored

module _ (compute_trust_set : List RootAnchor → Bytes) where
  unfoldable pub sign_latest : RelayIdentity → Option AnchorSet → Serving → Serving
  unfolding sign_anchor is_signed tip_height
  sign_latest i none s = s
  sign_latest i (some set) s =
      let height = tip_height set in
      let trust_id = compute_trust_set set.entries in
      if is_signed s.anchor_sig trust_id height then s else record s {
        anchor_sig =
            some (record {
              trust_id = trust_id;
              height = height;
              sig = sign_anchor i trust_id height;
            });
      }

  unfoldable pub refresh_anchor_sig : Option RelayIdentity → Serving → Serving
  unfolding sign_latest latest
  refresh_anchor_sig none s = s
  refresh_anchor_sig (some i) s = sign_latest i (latest s.anchor_store) s

  unfoldable pub replace_anchors : List RootAnchor → Serving → Serving
  unfolding from_anchors
  replace_anchors anchors s = record s { anchor_store = from_anchors compute_trust_set anchors }

  -- The anchors of the node, when it answers, and whether libveritas takes them.
  unfoldable pub refresh_anchors :
      Option RelayIdentity → Option (List RootAnchor) → Bool → Serving → Serving
  unfolding refresh_anchor_sig replace_anchors
  refresh_anchors i none taken s = s
  refresh_anchors i (some anchors) taken s =
      if taken then refresh_anchor_sig i (replace_anchors anchors s) else s

  module _ (hex_encode : Bytes → String) where
    abbrev pub sig_header : Option AnchorSig → Bytes → ℕ → Option String
    sig_header none trust_id height = none
    sig_header (some c) trust_id height =
        if eqb c.trust_id trust_id && c.height == height then some (hex_encode c.sig) else none

    abbrev pub key_header : Option RelayIdentity → Option String
    key_header none = none
    key_header (some i) = some (hex_encode i.public_key)

    abbrev pub signed_header : Option RelayIdentity → Option AnchorSig → Bytes → ℕ → Option String
    signed_header none c trust_id height = none
    signed_header (some i) c trust_id height = sig_header c trust_id height

    unfoldable pub headers_for :
        Option RelayIdentity → Option AnchorSig → Option AnchorSet → AnchorHeaders
    unfolding tip_height
    headers_for i c none = record {
      x_anchor_root = none;
      x_anchor_height = none;
      x_anchor_pubkey = none;
      x_anchor_sig = none;
    }
    headers_for i c (some set) = record {
      x_anchor_root = some (hex_encode (compute_trust_set set.entries));
      x_anchor_height = some (tip_height set);
      x_anchor_pubkey = key_header i;
      x_anchor_sig = signed_header i c (compute_trust_set set.entries) (tip_height set);
    }

    unfoldable pub anchor_headers : Option RelayIdentity → Serving → AnchorHeaders
    unfolding headers_for latest
    anchor_headers i s = headers_for i s.anchor_sig (latest s.anchor_store)

abbrev pub anchored_or : Option AnchorSet → Anchored
anchored_or none = anchor_set_not_found
anchored_or (some set) = anchored set

abbrev pub anchors_at : Option Bytes → AnchorSets → Anchored
anchors_at none sets = invalid_hex
anchors_at (some root) sets =
    if length root == 32 then anchored_or (get root sets) else root_must_be_32_bytes

-- The set under the root of the request, or the latest one.
unfoldable pub anchors_for : (String → Option Bytes) → Option String → AnchorSets → Anchored
unfolding get latest
anchors_for hex_decode none sets = anchored_or (latest sets)
anchors_for hex_decode (some root) sets = anchors_at (hex_decode root) sets
