-- ===== src/Client/Query/Fallback.antt =====
-- How `send_query` of fabric/rust/src/client.rs goes through the relays.
use certrelay.Prelude.{◌≡◌, ◌⊎◌, none, some, List, [], ◌∷◌, ◌++◌, Bool, String, string_dec_eq, All}
use certrelay.Store.Types.{Bytes, Zone}
use certrelay.Client.{Error, Fetched, got, lost, Reply, body, RelayEntry}
use certrelay.Client.Relays.{mark_failed, mark_alive}
use certrelay.Client.Query.{Verifier, next_relay, attempt}

-- The pool after a failure of each of these relays.
unfoldable pub fail_all : List String → List RelayEntry → List RelayEntry
fail_all [] pool = pool
fail_all (u ∷ us) pool = fail_all us (mark_failed u pool)

module _ {V M R : Type 0} (k : Verifier V M R) (serve : String → Reply Bytes) where
  -- The answer of this relay is a message that the verifier accepts as `r`.
  abbrev pub Verified : V → List Zone → Bool → String → R → Type 0
  Verified v ctx dev_mode u r =
      (b : Bytes) × (m : M) × (serve u ≡ body b)
      × (k.from_slice b ≡ some m)
      × (k.verify v ctx dev_mode m ≡ some r)

  -- The answer of this relay is no message.
  abbrev pub IsGarbage : String → Type 0
  IsGarbage u = (b : Bytes) × (serve u ≡ body b) × (k.from_slice b ≡ none)

  -- The answer of this relay leads to the next one.
  unfoldable pub Fails : V → List Zone → Bool → String → Type 0
  Fails v ctx dev_mode u = (e : Error) × (attempt k serve v ctx dev_mode (serve u) ≡ next_relay e)

  abbrev pub AllFail : V → List Zone → Bool → List String → Type 0
  AllFail v ctx dev_mode us = All (Fails v ctx dev_mode) us

  abbrev pub Sent :
      V
      → List Zone
      → Bool
      → List String
      → List RelayEntry
      → List RelayEntry × Fetched (R × String)
      → Type 0
  Sent v ctx dev_mode us pool (after, got (r, u)) =
      (before : List String) × (rest : List String) × (us ≡ before ++ (u ∷ rest))
      × AllFail v ctx dev_mode before
      × Verified v ctx dev_mode u r
      × (after ≡ mark_alive u (fail_all before pool))
  Sent v ctx dev_mode us pool (after, lost e) =
      (AllFail v ctx dev_mode us × (after ≡ fail_all us pool))
      ⊎ ((before : List String) × (u : String) × (rest : List String) × (us ≡ before ++ (u ∷ rest))
          × AllFail v ctx dev_mode before
          × IsGarbage u
          × (after ≡ fail_all before pool))
