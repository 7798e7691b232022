-- ===== src/Anchors/Serve/Signed.antt =====
-- The anchors that a relay serves, as fabric/rust/src/client.rs checks them.
use certrelay.Prelude.{
  ℕ, ◌≡◌, refl, ◌⊎◌, inl, inr, true, false, Option, none, some, List, length, String, string_dec_eq,
  arith, Bool-cases, Option-cases,
}
use certrelay.Store.Types.{Bytes}
use certrelay.Store.Update.{bytes_dec_eq}
use certrelay.Anchors.{RootAnchor, AnchorSet, tip_height, latest, get, from_anchors}
use certrelay.Anchors.Sets.{from_anchors-Holds}
use certrelay.Anchors.Latest.{latest-kept, from_anchors-Distinct}
use certrelay.Anchors.Serve.{
  RelayIdentity, Serving, identity_payload, sign_anchor, is_signed, anchored, sign_latest,
  refresh_anchor_sig, headers_for, anchor_headers, anchors_for,
}
use certrelay.Client.{decode_error, Fetched, got, lost, body, Crypto}
use certrelay.Client.Votes.{sized, verify_anchor_sig, check_head, decode_hex, read_head}
use certrelay.Anchors.Serve.Changes.{
  payload_same, head_of, Change, signs, change, changes, Cached, sign_latest-Cached, changes-Cached,
}

module _ (compute : List RootAnchor → Bytes) (i : RelayIdentity) (c : Crypto)
    (hex_encode : Bytes → String) where
  abbrev pub head_served : Serving → Fetched (Bytes × ℕ)
  head_served s =
      read_head c i.public_key (body (head_of (anchor_headers compute hex_encode (some i) s)))

  -- The client takes the served head, and the relay has a set under the root that it took.
  pub record Trusts (s : Serving) : Type 0 where
    pub set : AnchorSet
    pub newest : latest s.anchor_store ≡ some set
    pub head : head_served s ≡ got (compute set.entries, tip_height set)
    pub answer : AnchorSet
    pub answered :
        anchors_for c.hex_decode (some (hex_encode (compute set.entries))) s.anchor_store
        ≡ anchored answer
    pub root : compute answer.entries ≡ compute set.entries

  module _ (inverse : (b : Bytes) → c.hex_decode (hex_encode b) ≡ some b)
      (root_size : (w : List RootAnchor) → length (compute w) ≡ 32)
      (sig_size : (m : Bytes) → length (i.sign_spaces_message m) ≡ 64)
      (verified : (m : Bytes)
        → c.verify_spaces_message m (i.sign_spaces_message m) i.public_key ≡ true) where
    head_signed :
        (s : Serving) (set : AnchorSet)
        → Cached compute i s
        → latest s.anchor_store ≡ some set
        → is_signed s.anchor_sig (compute set.entries) (tip_height set) ≡ true
        → head_served s ≡ got (compute set.entries, tip_height set)
    unfolding anchor_headers headers_for is_signed read_head check_head decode_hex sized
        verify_anchor_sig sign_anchor
    head_signed s set v e b = elim (Option-cases s.anchor_sig) [
      | inl n ↦ ground (arith, b, n)
      | inr (a, q) ↦
          let root = compute set.entries in
          let message = identity_payload root (tip_height set) in
          let signed : a.sig ≡ i.sign_spaces_message message =
            ground (arith, b, q, v.signature a q) in
          ground (
            arith,
            b,
            q,
            e,
            signed,
            inverse root,
            inverse (i.sign_spaces_message message),
            root_size set.entries,
            sig_size message,
            verified message,
            payload_same root (tip_height set),
          )
    ]

    head_unsigned :
        (s : Serving)
        → ((set : AnchorSet)
            → latest s.anchor_store ≡ some set
            → is_signed s.anchor_sig (compute set.entries) (tip_height set) ≡ false)
        → head_served s ≡ lost decode_error
    unfolding anchor_headers headers_for is_signed read_head check_head decode_hex sized
    head_unsigned s u = elim (Option-cases (latest s.anchor_store)) [
      | inl n ↦ ground (arith, n)
      | inr (set, e) ↦
          let root = compute set.entries in
          ground (arith, e, u set e, inverse root, root_size set.entries, Option-cases s.anchor_sig)
    ]

    found_again :
        (s : Serving) (set : AnchorSet)
        → Cached compute i s
        → latest s.anchor_store ≡ some set
        → (t : AnchorSet) × (anchors_for c.hex_decode
              (some (hex_encode (compute set.entries)))
              s.anchor_store
            ≡ anchored t)
          × (compute t.entries ≡ compute set.entries)
    unfolding anchors_for get
    found_again s set v e =
        let sets = from_anchors compute v.raw in
        let h = from_anchors-Holds compute v.raw in
        let (id, k) = latest-kept sets set (from_anchors-Distinct compute v.raw) (rw v.made at e) in
        let same = (h.frames id set k).1 in
        (
          set,
          ground (arith, v.made, k, same, inverse (compute set.entries), root_size set.entries),
          refl,
        )

    signed-Trusts :
        (s : Serving) (set : AnchorSet)
        → Cached compute i s
        → latest s.anchor_store ≡ some set
        → is_signed s.anchor_sig (compute set.entries) (tip_height set) ≡ true
        → Trusts s
    signed-Trusts s set v e b =
        let (t, f, g) = found_again s set v e in
        record {
          set = set;
          newest = e;
          head = head_signed s set v e b;
          answer = t;
          answered = f;
          root = g;
        }

    Cached-Trusts :
        (s : Serving) → Cached compute i s → (head_served s ≡ lost decode_error) ⊎ Trusts s
    Cached-Trusts s v = elim (Option-cases (latest s.anchor_store)) [
      | inl n ↦ inl (head_unsigned s (λ set e. ground (arith, n, e)))
      | inr (set, e) ↦
          elim (Bool-cases (is_signed s.anchor_sig (compute set.entries) (tip_height set))) [
            | inl b ↦ inr (signed-Trusts s set v e b)
            | inr b ↦
                inl (head_unsigned s (λ t f. let q : set ≡ t = ground (arith, e, f) in rw q at b))
          ]
    ]

    sign_latest_signed :
        (s : Serving) (set : AnchorSet)
        → is_signed
            (sign_latest compute i (some set) s).anchor_sig
            (compute set.entries)
            (tip_height set)
          ≡ true
    unfolding sign_latest is_signed
    sign_latest_signed s set =
        elim (Bool-cases (is_signed s.anchor_sig (compute set.entries) (tip_height set))) [
          | inl b ↦ rw (b, sign_latest) b
          | inr b ↦ rw (b, sign_latest, is_signed) (ground arith)
        ]

    sign_latest_store :
        (o : Option AnchorSet) (s : Serving)
        → (sign_latest compute i o s).anchor_store ≡ s.anchor_store
    unfolding sign_latest
    sign_latest_store none s = refl
    sign_latest_store (some set) s = ground arith

    refreshed-Trusts :
        (s : Serving)
        → Cached compute i s
        → (latest s.anchor_store ≡ none) ⊎ Trusts (change compute i signs s)
    unfolding change refresh_anchor_sig
    refreshed-Trusts s v = elim (Option-cases (latest s.anchor_store)) [
      | inl n ↦ inl n
      | inr (set, e) ↦
          let t = sign_latest compute i (some set) s in
          let kept : latest t.anchor_store ≡ some set = rw (sign_latest_store (some set) s) e in
          let w : Trusts t =
            signed-Trusts t set (sign_latest-Cached compute i (some set) s v) kept
              (sign_latest_signed s set) in
          inr (rw e w)
    ]

    -- A relay starts with no signature and then replaces its anchors and signs the latest ones, in any
    -- order. At each time the client either refuses the served head, or takes the root and the tip of
    -- the relay's latest anchors and finds a set with that root at the relay; and as soon as the relay
    -- has signed, it takes them, unless there are no anchors. The conditions: hexadecimal digits are
    -- read back, a root has 32 bytes and a signature 64, and a signature verifies under its key.
    pub changes-Trusts :
        (cs : List Change) (raw : List RootAnchor)
        → let start : Serving = record {
          anchor_store = from_anchors compute raw;
          anchor_sig = none;
        } in
          let s = changes compute i cs start in
          ((head_served s ≡ lost decode_error) ⊎ Trusts s)
          × ((latest s.anchor_store ≡ none) ⊎ Trusts (change compute i signs s))
    changes-Trusts cs raw =
        let start : Serving = record {
          anchor_store = from_anchors compute raw;
          anchor_sig = none;
        } in
        let v =
          changes-Cached compute i cs start
            (record { signature = λ c e. ground (arith, e); raw = raw; made = refl }) in
        (
          Cached-Trusts (changes compute i cs start) v,
          refreshed-Trusts (changes compute i cs start) v,
        )
