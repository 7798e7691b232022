-- ===== src/Anchors/Tests.antt =====
-- Instances of the theorems on anchors: a relay with two anchors, and a form of digits that is read
-- back.
use Prim.Native.Char.{Char, char, code}
use certrelay.Prelude.{
  ℕ, zero, suc, ◌+◌, ◌≡◌, refl, ◌⊎◌, true, ◌==◌, Option, none, some, List, [], ◌∷◌, map,
  if◌then◌else◌, String, arith,
}
use certrelay.Store.Types.{Bytes}
use certrelay.Store.Update.{bytes_dec_eq}
use certrelay.Client.{decode_error, lost, Crypto}
use certrelay.Anchors.{RootAnchor, AnchorSet, tip_of, tip_height, latest, from_anchors}
use certrelay.Anchors.Sets.{Holds, from_anchors-Holds}
use certrelay.Anchors.Latest.{latest_tip}
use certrelay.Anchors.Serve.{RelayIdentity, Serving}
use certrelay.Anchors.Serve.Changes.{Change, replaces, signs, change, changes}
use certrelay.Anchors.Serve.Signed.{head_served, Trusts, changes-Trusts}

abbrev anchor : ℕ → RootAnchor
anchor height = record { height = height; bytes = [] }

abbrev heights : List RootAnchor → Bytes
heights w = map (λ a. a.height) w

from_anchors-Holds_example :
    Holds heights (anchor 9 ∷ anchor 5 ∷ []) (from_anchors heights (anchor 9 ∷ anchor 5 ∷ []))
from_anchors-Holds_example = from_anchors-Holds heights (anchor 9 ∷ anchor 5 ∷ [])

heights-tip : (v w : List RootAnchor) → heights v ≡ heights w → tip_of v ≡ tip_of w
heights-tip [] [] e = refl
heights-tip [] (b ∷ w) e = ground (arith, e)
heights-tip (a ∷ v) [] e = ground (arith, e)
heights-tip (a ∷ v) (b ∷ w) e = ground (arith, e)

latest_tip_example :
    (s : AnchorSet) × (latest (from_anchors heights (anchor 9 ∷ anchor 5 ∷ [])) ≡ some s)
    × (tip_height s ≡ 9)
latest_tip_example = latest_tip heights (anchor 9) (anchor 5 ∷ []) (omega arith, tt) heights-tip

abbrev stroke : Char
stroke = char 97 tt

abbrev stop : Char
stop = char 98 tt

-- Numbers in strokes, each with a stop.
write_number : ℕ → String → String
write_number zero s = String.◌∷◌ stop s
write_number (suc n) s = String.◌∷◌ stroke (write_number n s)

write : Bytes → String
unfolding write_number
write [] = String.[]
write (n ∷ ns) = write_number n (write ns)

abbrev cons_some : ℕ → Option Bytes → Option Bytes
cons_some n none = none
cons_some n (some ns) = some (n ∷ ns)

read : ℕ → String → Option Bytes
read n String.[] = some []
read n (String.◌∷◌ c s) = if code c == 97 then read (suc n) s else cons_some n (read 0 s)

read-write_number :
    (m n : ℕ) (s : String) → read m (write_number n s) ≡ cons_some (m + n) (read 0 s)
unfolding read write_number
read-write_number m zero s = ground arith
read-write_number m (suc n) s = ground (arith, read-write_number (suc m) n s)

read-write : (b : Bytes) → read 0 (write b) ≡ some b
unfolding read write
read-write [] = refl
read-write (n ∷ ns) = ground (arith, read-write_number 0 n (write ns), read-write ns)

abbrev eight : Bytes → Bytes
eight b = 1 ∷ 2 ∷ 3 ∷ 4 ∷ 5 ∷ 6 ∷ 7 ∷ 8 ∷ b

abbrev root : Bytes
root = eight (eight (eight (eight [])))

abbrev identity : RelayIdentity
identity = record {
  sign_spaces_message = λ m. eight (eight (eight (eight root)));
  public_key = 9 ∷ [];
}

abbrev crypto : Crypto
crypto = record { hex_decode = λ s. read 0 s; verify_spaces_message = λ _ _ _. true }

abbrev start : Serving
start = record { anchor_store = from_anchors (λ _. root) (anchor 9 ∷ []); anchor_sig = none }

-- New anchors, their signature, and again new anchors.
abbrev history : List Change
history = replaces (anchor 10 ∷ anchor 9 ∷ []) ∷ signs ∷ replaces (anchor 11 ∷ []) ∷ []

changes-Trusts_example :
    ((head_served (λ _. root) identity crypto write (changes (λ _. root) identity history start)
        ≡ lost decode_error)
      ⊎ Trusts (λ _. root) identity crypto write (changes (λ _. root) identity history start))
    × ((latest (changes (λ _. root) identity history start).anchor_store ≡ none)
        ⊎ Trusts
            (λ _. root)
            identity
            crypto
            write
            (change (λ _. root) identity signs (changes (λ _. root) identity history start)))
changes-Trusts_example =
    changes-Trusts (λ _. root) identity crypto write read-write (λ w. refl) (λ m. refl) (λ m. refl)
      history (anchor 9 ∷ [])
