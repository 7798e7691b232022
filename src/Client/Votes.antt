-- ===== src/Client/Votes.antt =====
-- The votes of the relays in fabric/rust/src/client.rs: the signed heads, the semi-trusted anchor and
-- the anchor that the seeds serve.
pub mod Count
pub mod Quorum
use Prim.Native.Nat.{◌^◌}
use certrelay.Prelude.{
  ℕ, suc, ◌+◌, ◌/◌, ◌%◌, Bool, true, false, not, ◌&&◌, ◌||◌, ◌==◌, Option, none, some, List, [],
  ◌∷◌, ◌++◌, leb, ltb, eqb, if◌then◌else◌, length, String, DecEq, string_discrete, ℕ_discrete,
}
use certrelay.Map.{Map, lookup, insert}
use certrelay.Store.Types.{Bytes}
use certrelay.Store.Update.{bytes_dec_eq, bytes_discrete}
use certrelay.Client.{
  Error, decode_error, no_peers, relay_error, Fetched, got, lost, Reply, unsent, garbled, refused,
  body, TrustSet, AnchorBundle, SemiTrustedRelay, SemiTrustConfig, SemiTrustResult, required,
  Fabric, Anchoring, Head, Crypto, Net,
}
use certrelay.Client.Anchors.{apply_semi_trusted, fetch_anchor_set}

-- "certrelay-anchor-sig-v1"
abbrev pub anchor_sig_tag : Bytes
anchor_sig_tag =
    99 ∷ 101 ∷ 114 ∷ 116 ∷ 114 ∷ 101 ∷ 108 ∷ 97 ∷ 121 ∷ 45 ∷ 97 ∷ 110 ∷ 99 ∷ 104 ∷ 111 ∷ 114 ∷ 45
    ∷ 115 ∷ 105 ∷ 103 ∷ 45 ∷ 118 ∷ 49 ∷ []

-- `to_be_bytes` of a u32.
abbrev pub be_bytes : ℕ → Bytes
be_bytes n = (n / 2 ^ 24) % 256 ∷ (n / 2 ^ 16) % 256 ∷ (n / 2 ^ 8) % 256 ∷ n % 256 ∷ []

unfoldable pub anchor_sig_payload : Bytes → ℕ → Bytes
anchor_sig_payload trust_id height = anchor_sig_tag ++ trust_id ++ be_bytes height

-- A header's hexadecimal digits, when they are `n` bytes.
unfoldable pub sized : ℕ → Option Bytes → Option Bytes
sized n none = none
sized n (some b) = if length b == n then some b else none

abbrev pub height_or_zero : Option ℕ → ℕ
height_or_zero none = 0
height_or_zero (some n) = n

module _ (c : Crypto) where
  unfoldable pub verify_anchor_sig : Bytes → ℕ → Bytes → Bytes → Bool
  unfolding anchor_sig_payload
  verify_anchor_sig root height sig pubkey =
      c.verify_spaces_message (anchor_sig_payload root height) sig pubkey

  unfoldable pub check_head : Bytes → ℕ → Option Bytes → Option Bytes → Fetched (Bytes × ℕ)
  unfolding verify_anchor_sig
  check_head pubkey height none sig = lost decode_error
  check_head pubkey height (some root) none = lost decode_error
  check_head pubkey height (some root) (some sig) =
      if verify_anchor_sig root height sig pubkey then got (root, height) else lost decode_error

  unfoldable pub decode_hex : ℕ → Option String → Option Bytes
  unfolding sized
  decode_hex n none = none
  decode_hex n (some s) = sized n (c.hex_decode s)

  unfoldable pub read_head : Bytes → Reply Head → Fetched (Bytes × ℕ)
  unfolding check_head decode_hex
  read_head pubkey unsent = lost decode_error
  read_head pubkey (refused status) = lost (relay_error status)
  read_head pubkey garbled = lost decode_error
  read_head pubkey (body h) =
      check_head pubkey (height_or_zero h.height) (decode_hex 32 h.root) (decode_hex 64 h.sig)

  unfoldable pub fetch_signed_anchor_head :
      {A : Type 0} → Net A → SemiTrustedRelay → Fetched (Bytes × ℕ)
  unfolding read_head
  fetch_signed_anchor_head net r = read_head r.pubkey (net.head r.url)

-- `entry(root).or_insert((height, []))`, and the URL at the end of the list.
unfoldable pub add_to : Option (ℕ × List String) → ℕ → String → ℕ × List String
add_to none height u = (height, u ∷ [])
add_to (some (h, us)) height u = (h, us ++ (u ∷ []))

unfoldable pub add_vote :
    {K : Type 0} ⦃d : DecEq K⦄ → K → ℕ → String → Map K (ℕ × List String) → Map K (ℕ × List String)
unfolding add_to
add_vote k height u m = insert k (add_to (lookup k m) height u) m

-- `max_by_key` on the number of votes, then the height: the last of the greatest.
unfoldable pub at_most : ℕ × List String → ℕ × List String → Bool
at_most (h, us) (g, vs) = ltb (length us) (length vs) || length us == length vs && leb h g

unfoldable pub best_from :
    {K : Type 0} → K × (ℕ × List String) → Map K (ℕ × List String) → K × (ℕ × List String)
unfolding at_most
best_from b [] = b
best_from b (x ∷ xs) = best_from (if at_most b.1 x.1 then x else b) xs

unfoldable pub winner : {K : Type 0} → Map K (ℕ × List String) → Option (K × (ℕ × List String))
unfolding best_from
winner [] = none
winner (x ∷ xs) = some (best_from x xs)

abbrev pub id_of : Option TrustSet → Option Bytes
id_of none = none
id_of (some s) = some s.id

module _ {A V : Type 0} (k : Anchoring A V) (c : Crypto) (net : Net A) where
  -- The loop over the relays: the votes and the number of verified heads.
  unfoldable pub count_votes :
      List SemiTrustedRelay → Map Bytes (ℕ × List String) × ℕ → Map Bytes (ℕ × List String) × ℕ
  unfolding fetch_signed_anchor_head add_vote
  count_votes [] v = v
  count_votes (r ∷ rs) (votes, verified) = elim (fetch_signed_anchor_head c net r) [
    | lost e ↦ count_votes rs (votes, verified)
    | got (root, height) ↦ count_votes rs (add_vote root height r.url votes, suc verified)
  ]

  unfoldable pub result_of :
      Option Bytes → Option ℕ → SemiTrustConfig → ℕ → ℕ → Bool → SemiTrustResult
  unfolding required
  result_of id height config verified agreed met = record {
    trust_id = id;
    height = height;
    total = length config.relays;
    verified = verified;
    agreed = agreed;
    required = required config.quorum (length config.relays);
    quorum_met = met;
  }

  -- The set of the winning root, from a relay that voted for it.
  unfoldable pub pin :
      Bytes
      → ℕ
      → SemiTrustResult
      → Fetched (AnchorBundle A)
      → Fabric A V
      → Fabric A V × Fetched SemiTrustResult
  unfolding apply_semi_trusted
  pin root height res (lost e) f = (f, lost e)
  pin root height res (got ab) f = (apply_semi_trusted k ab f, got res)

  unfoldable pub decide :
      SemiTrustConfig
      → ℕ
      → Option (Bytes × (ℕ × List String))
      → Fabric A V
      → Fabric A V × Fetched SemiTrustResult
  unfolding pin result_of required fetch_anchor_set
  decide config verified none f =
      (f, got (result_of (id_of f.semi_trusted) none config verified 0 false))
  decide config verified (some (root, (height, us))) f =
      if ltb 0 (length us) && leb (required config.quorum (length config.relays)) (length us)
      then pin root height (result_of (some root) (some height) config verified (length us) true)
          (fetch_anchor_set k net root us) f
      else (f, got (result_of (id_of f.semi_trusted) none config verified (length us) false))

  unfoldable pub refresh_semi_trusted : Fabric A V → Fabric A V × Fetched SemiTrustResult
  unfolding count_votes winner decide
  refresh_semi_trusted f =
      let config = f.semi_trust_config in
      let (votes, verified) = count_votes config.relays ([], 0) in
      decide config verified (winner votes) f

-- The unsigned head of a seed: a root and a height, when the seed names a root.
unfoldable pub seed_head : Reply Head → Fetched (Option (String × ℕ))
seed_head unsent = lost decode_error
seed_head (refused status) = lost (relay_error status)
seed_head garbled = got none
seed_head (body h) = elim h.root [
  | none ↦ got none
  | some root ↦ got (some (root, height_or_zero h.height))
]

unfoldable pub head_discrete : Discrete (String × ℕ)
head_discrete = hlevel (string_discrete, ℕ_discrete)

instance abbrev pub head_dec_eq : DecEq (String × ℕ)
head_dec_eq = record { same = head_discrete }

module _ {A : Type 0} (net : Net A) (from_str : String → Option Bytes) where
  unfoldable pub count_seeds :
      List String
      → Map (String × ℕ) (ℕ × List String) × Error
      → Map (String × ℕ) (ℕ × List String) × Error
  unfolding add_vote seed_head
  count_seeds [] v = v
  count_seeds (u ∷ us) (votes, last) = elim (seed_head (net.head u)) [
    | lost e ↦ count_seeds us (votes, e)
    | got o ↦ elim o [
      | none ↦ count_seeds us (votes, last)
      | some (root, height) ↦ count_seeds us (add_vote (root, height) height u votes, last)
    ]
  ]

  unfoldable pub elected :
      Option ((String × ℕ) × (ℕ × List String)) → Error → Fetched (Bytes × List String)
  elected none last = lost last
  elected (some ((root, height), (h, us))) last = elim (from_str root) [
    | none ↦ lost decode_error
    | some id ↦ got (id, us)
  ]

  unfoldable pub fetch_latest_trust_id : List String → Fetched (Bytes × List String)
  unfolding count_seeds winner elected
  fetch_latest_trust_id seeds =
      let (votes, last) = count_seeds seeds ([], no_peers) in elected (winner votes) last
