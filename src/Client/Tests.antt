-- ===== src/Client/Tests.antt =====
-- Instances of the theorems on fabric/rust/src/client.rs: three semi-trusted relays, of which two serve
-- one root and one is down.
use certrelay.Prelude.{
  ℕ, ◌≡◌, true, false, none, some, [], ◌∷◌, eqb, if◌then◌else◌, String, string_dec_eq,
}
use certrelay.Store.Types.{Bytes}
use certrelay.Client.{
  Reply, unsent, garbled, body, AnchorPool, RelayEntry, SemiTrustedRelay, majority, Fabric,
  Anchoring, Head, Crypto, Net,
}
use certrelay.Client.Anchors.{merged}
use certrelay.Client.Anchors.Merge.{or_else, at_height, Descending, merged-Descending}
use certrelay.Client.Votes.{refresh_semi_trusted}
use certrelay.Client.Votes.Quorum.{Ends, refresh_semi_trusted-Ends}
use certrelay.Client.Query.{Verifier}

abbrev eight : Bytes → Bytes
eight b = 1 ∷ 2 ∷ 3 ∷ 4 ∷ 5 ∷ 6 ∷ 7 ∷ 8 ∷ b

abbrev root : Bytes
root = eight (eight (eight (eight [])))

abbrev signature : Bytes
signature = eight (eight (eight (eight root)))

-- An anchor is its height and the source that gave it; every set has the same root.
abbrev anchoring : Anchoring (ℕ × String) ℕ
anchoring = record {
  height = λ a. a.0;
  compute_trust_set = λ _. record { id = root; roots = root ∷ [] };
  with_anchors = λ _. some 1;
  newest_anchor = λ v. v;
}

abbrev crypto : Crypto
crypto = record {
  hex_decode = λ s. if eqb s "root" then some root else some signature;
  verify_spaces_message = λ _ _ _. true;
}

abbrev head : Head
head = record { root = some "root"; sig = some "sig"; height = some 7 }

abbrev net : Net (ℕ × String)
net = record {
  head = λ u. if eqb u "https://c.example" then unsent else body head;
  anchors = λ _ _. body ((7, "semi") ∷ []);
}

abbrev relay : String → SemiTrustedRelay
relay u = record { url = u; pubkey = 9 ∷ [] }

abbrev anchors : AnchorPool (ℕ × String)
anchors = record {
  trusted = (5, "trusted") ∷ [];
  semi_trusted = (7, "semi") ∷ (5, "semi") ∷ [];
  observed = (9, "observed") ∷ (7, "observed") ∷ [];
}

abbrev entry : String → RelayEntry
entry u = record { url = u; failures = 0 }

abbrev fabric : Fabric (ℕ × String) ℕ
fabric = record {
  pool = entry "https://a.example" ∷ entry "https://b.example" ∷ [];
  veritas = 0;
  dev_mode = false;
  root_cache = [];
  seeds = [];
  trusted = none;
  observed = none;
  semi_trusted = none;
  anchor_pool = anchors;
  prefer_latest = false;
  semi_trust_config = record {
    relays = relay "https://a.example" ∷ relay "https://b.example" ∷ relay "https://c.example" ∷ [];
    quorum = majority;
  };
}

merged-Descending_example :
    ((n : ℕ)
      → at_height anchoring n (merged anchoring anchors)
        ≡ or_else (at_height anchoring n anchors.trusted) (
            or_else
              (at_height anchoring n anchors.semi_trusted)
              (at_height anchoring n anchors.observed)))
    × Descending anchoring (merged anchoring anchors)
merged-Descending_example = merged-Descending anchoring anchors

refresh_semi_trusted-Ends_example :
    Ends anchoring crypto net fabric (refresh_semi_trusted anchoring crypto net fabric)
refresh_semi_trusted-Ends_example = refresh_semi_trusted-Ends anchoring crypto net fabric

-- A message is its bytes, and one is verified when it has any.
abbrev verifier : Verifier ℕ Bytes ℕ
verifier = record {
  from_slice = λ b. some b;
  verify = λ _ _ _ m. elim m [ [] ↦ none | x ∷ xs ↦ some x ];
  zones = λ _. [];
  is_single_label = λ _. true;
}

abbrev serve : String → Reply Bytes
serve u = if eqb u "https://a.example" then garbled else body (7 ∷ [])
