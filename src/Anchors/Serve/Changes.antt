-- ===== src/Anchors/Serve/Changes.antt =====
-- What the signature cache of relay/src/app.rs and the anchors of a relay keep.
use certrelay.Prelude.{
  ℕ, ◌≡◌, refl, ap, inl, inr, Option, none, some, List, [], ◌∷◌, ◌++◌, string_dec_eq, arith,
  Bool-cases,
}
use certrelay.Store.Types.{Bytes}
use certrelay.Store.Update.{bytes_dec_eq}
use certrelay.Anchors.{RootAnchor, AnchorSet, tip_height, latest, from_anchors}
use certrelay.Anchors.Serve.{
  RelayIdentity, AnchorSig, Serving, identity_tag, to_be_bytes, identity_payload, sign_anchor,
  is_signed, AnchorHeaders, sign_latest, refresh_anchor_sig, replace_anchors,
}
use certrelay.Client.{Head}
use certrelay.Client.Votes.{anchor_sig_payload}

-- The relay and the client sign and check the same payload.
append_assoc : (a b c : Bytes) → (a ++ b) ++ c ≡ a ++ (b ++ c)
append_assoc [] b c = refl
append_assoc (x ∷ a) b c = ap (λ ys. x ∷ ys) (append_assoc a b c)

pub payload_same :
    (root : Bytes) (height : ℕ) → identity_payload root height ≡ anchor_sig_payload root height
unfolding identity_payload anchor_sig_payload
payload_same root height = append_assoc identity_tag root (to_be_bytes height)

-- What the client reads of the headers.
abbrev pub head_of : AnchorHeaders → Head
head_of h = record { root = h.x_anchor_root; sig = h.x_anchor_sig; height = h.x_anchor_height }

-- A step of a relay: new anchors from the node, or the signature of the latest.
pub data Change : Type 0 where
  replaces : List RootAnchor → Change
  signs : Change

module _ (compute : List RootAnchor → Bytes) (i : RelayIdentity) where
  unfoldable pub change : Change → Serving → Serving
  unfolding replace_anchors refresh_anchor_sig
  change (replaces anchors) s = replace_anchors compute anchors s
  change signs s = refresh_anchor_sig compute (some i) s

  unfoldable pub changes : List Change → Serving → Serving
  unfolding change
  changes [] s = s
  changes (c ∷ cs) s = changes cs (change c s)

  -- The cached signature is one of the relay, and the sets are made of some anchors.
  pub record Cached (s : Serving) : Type 0 where
    pub signature :
        (c : AnchorSig) → s.anchor_sig ≡ some c → c.sig ≡ sign_anchor i c.trust_id c.height
    pub raw : List RootAnchor
    pub made : s.anchor_store ≡ from_anchors compute raw

  pub sign_latest-Cached :
      (o : Option AnchorSet) (s : Serving) → Cached s → Cached (sign_latest compute i o s)
  unfolding sign_latest
  sign_latest-Cached none s v = v
  sign_latest-Cached (some set) s v =
      let id = compute set.entries in
      let height = tip_height set in
      elim (Bool-cases (is_signed s.anchor_sig id height)) [
        | inl b ↦ rw (b, sign_latest) v
        | inr b ↦
            rw (b, sign_latest)
              (record { signature = λ c e. ground (arith, e); raw = v.raw; made = v.made })
      ]

  change-Cached : (c : Change) (s : Serving) → Cached s → Cached (change c s)
  unfolding change replace_anchors refresh_anchor_sig
  change-Cached (replaces anchors) s v = record {
    signature = v.signature;
    raw = anchors;
    made = refl;
  }
  change-Cached signs s v = sign_latest-Cached (latest s.anchor_store) s v

  pub changes-Cached : (cs : List Change) (s : Serving) → Cached s → Cached (changes cs s)
  unfolding changes
  changes-Cached [] s v = v
  changes-Cached (c ∷ cs) s v = changes-Cached cs (change c s) (change-Cached c s v)
