-- ===== src/Http/Query/Version.antt =====
-- When two answers to a query have the same version (`query_etag` of relay/src/http.rs).
use Prim.Native.String.{◌++◌ as str_append}
use text.Mathlib.TextLemmas.{append_cancel_left, append_cancel_right}
use certrelay.Prelude.{
  ◌≡◌, ◌↔◌, inl, inr, refl, ap, some, List, [], ◌∷◌, ◌++◌, length, All, is_some, String,
  string_dec_eq, arith, Option-cases,
}
use certrelay.Map.{lookup}
use certrelay.Store.Types.{Bytes, HandleHintRow, Row}
use certrelay.Store.State.{Store}
use certrelay.Store.Rows.{get_handle_hints}
use certrelay.Store.Update.Sequence.{IsSound}
use certrelay.Handler.Hints.{find_row}
use certrelay.Handler.Hints.Answers.{row_found}
use certrelay.Http.{Digest}
use certrelay.Http.Query.{hash_or_absent, version_bytes, query_etag}

cancel : (x y r q : Bytes) → length x ≡ length y → x ++ r ≡ y ++ q → (x ≡ y) × (r ≡ q)
cancel [] [] r q l e = (refl, e)
cancel [] (b ∷ y) r q l e = ground (arith, l)
cancel (a ∷ x) [] r q l e = ground (arith, l)
cancel (a ∷ x) (b ∷ y) r q l e =
    let w = cancel x y r q (omega (arith, l)) (ground (arith, e)) in (ground (arith, e, w.0), w.1)

-- What the version reads of a handle's row.
abbrev pub hash_at : List String → Store → String → Bytes
hash_at hs s h = hash_or_absent (find_row h (get_handle_hints hs s))

-- The handles have the same hashes.
abbrev pub SameHashes : (String → Bytes) → (String → Bytes) → List String → Type 0
SameHashes f g hs = All (λ h. f h ≡ g h) hs

module _ (d : Digest) where
  version_bytes-cancel :
      (rows others : List HandleHintRow) (hs : List String)
      → All
          (λ h.
            length (hash_or_absent (find_row h rows)) ≡ length (hash_or_absent (find_row h others)))
          hs
      → version_bytes d rows hs ≡ version_bytes d others hs
      → SameHashes
          (λ h. hash_or_absent (find_row h rows))
          (λ h. hash_or_absent (find_row h others))
          hs
  unfolding version_bytes
  version_bytes-cancel rows others [] l e = tt
  version_bytes-cancel rows others (h ∷ hs) l e =
      let a = cancel (d.as_bytes h) (d.as_bytes h) _ _ refl e in
      let x = hash_or_absent (find_row h rows) in
      let y = hash_or_absent (find_row h others) in
      let b : x ++ (255 ∷ version_bytes d rows hs) ≡ y ++ (255 ∷ version_bytes d others hs) =
        ground (arith, a.1) in
      let c = cancel x y (255 ∷ version_bytes d rows hs) (255 ∷ version_bytes d others hs) l.0 b in
      (c.0, version_bytes-cancel rows others hs l.1 (ground (arith, c.1)))

  version_bytes-same :
      (rows others : List HandleHintRow) (hs : List String)
      → SameHashes
          (λ h. hash_or_absent (find_row h rows))
          (λ h. hash_or_absent (find_row h others))
          hs
      → version_bytes d rows hs ≡ version_bytes d others hs
  unfolding version_bytes
  version_bytes-same rows others [] e = refl
  version_bytes-same rows others (h ∷ hs) e =
      ground (arith, e.0, version_bytes-same rows others hs e.1)

-- Each zone hash of the store is a digest.
abbrev pub HashesSized : Store → Type 0
HashesSized s = (h : String) (r : Row) → lookup h s.handles ≡ some r → length r.zone_hash ≡ 32

module _ (s t : Store) (hs : List String) where
  same_size :
      (h : String)
      → IsSound s
      → IsSound t
      → HashesSized s
      → HashesSized t
      → is_some (lookup h s.handles) ≡ is_some (lookup h t.handles)
      → length (hash_at hs s h) ≡ length (hash_at hs t h)
  same_size h v w x y p =
      let f = row_found 0 s h hs v.accounts.distinct in
      let g = row_found 0 t h hs w.accounts.distinct in
      elim (Option-cases (lookup h s.handles)) [
        | inl e ↦ elim (Option-cases (lookup h t.handles)) [
          | inl k ↦ ground (arith, e, k, f, g)
          | inr (q, k) ↦ ground (arith, e, k, p)
        ]
        | inr (r, e) ↦ elim (Option-cases (lookup h t.handles)) [
          | inl k ↦ ground (arith, e, k, p)
          | inr (q, k) ↦ ground (arith, e, k, f, g, x h r e, y h q k)
        ]
      ]

  same_sizes :
      (gs : List String)
      → IsSound s
      → IsSound t
      → HashesSized s
      → HashesSized t
      → ((h : String) → is_some (lookup h s.handles) ≡ is_some (lookup h t.handles))
      → All (λ h. length (hash_at hs s h) ≡ length (hash_at hs t h)) gs
  same_sizes [] v w x y p = tt
  same_sizes (g ∷ gs) v w x y p = (same_size g v w x y (p g), same_sizes gs v w x y p)

  -- Two sound stores that have the same handles, with hashes of 32 bytes, give a query the same version
  -- exactly when they have the same zone hash for each handle that the version covers, unless the
  -- digests of the two collide.
  pub query_etag_iff :
      (d : Digest)
      → IsSound s
      → IsSound t
      → HashesSized s
      → HashesSized t
      → ((h : String) → is_some (lookup h s.handles) ≡ is_some (lookup h t.handles))
      → (d.hex_encode (d.sha256 (version_bytes d (get_handle_hints hs s) hs))
            ≡ d.hex_encode (d.sha256 (version_bytes d (get_handle_hints hs t) hs))
          → version_bytes d (get_handle_hints hs s) hs ≡ version_bytes d (get_handle_hints hs t) hs)
      → (query_etag d s hs ≡ query_etag d t hs) ↔ SameHashes (hash_at hs s) (hash_at hs t) hs
  unfolding query_etag
  query_etag_iff d v w x y p collide =
      let a = d.hex_encode (d.sha256 (version_bytes d (get_handle_hints hs s) hs)) in
      let b = d.hex_encode (d.sha256 (version_bytes d (get_handle_hints hs t) hs)) in
      (
        λ e.
            let q = append_cancel_left "\"" (str_append a "\"") (str_append b "\"") e in
            version_bytes-cancel d (get_handle_hints hs s) (get_handle_hints hs t) hs
              (same_sizes hs v w x y p) (collide (append_cancel_right a b "\"" q)),
        λ e.
            ap (λ z. str_append "\"" (str_append (d.hex_encode (d.sha256 z)) "\""))
              (version_bytes-same d (get_handle_hints hs s) (get_handle_hints hs t) hs e),
      )
