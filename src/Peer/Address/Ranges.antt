-- ===== src/Peer/Address/Ranges.antt =====
-- The address policy against the list of reserved blocks, as ranges of 32-bit addresses.
use Prim.Native.Nat.{bit_and}
use certrelay.Prelude.{
  ℕ, zero, suc, ◌+◌, ◌*◌, ◌<◌, ◌/◌, ◌%◌, ◌≡◌, refl, Bool, true, false, not, ◌&&◌, ◌||◌, List, [],
  ◌∷◌, ◌==◌, leb, if◌then◌else◌, arith,
}
use certrelay.Peer.Address.{v4, v6, v4_is_public, ip_is_public}

-- The address as a number, and the test that it lies in a block.
abbrev pub number : ℕ → ℕ → ℕ → ℕ → ℕ
number a b c d = ((a * 256 + b) * 256 + c) * 256 + d

pub within : ℕ → List (ℕ × ℕ) → Bool
within n [] = false
within n ((lo, hi) ∷ blocks) = (leb lo n && leb n hi) || within n blocks

-- 10.0.0.0/8, 172.16.0.0/12, 192.168.0.0/16, 127.0.0.0/8, 169.254.0.0/16, 255.255.255.255,
-- 192.0.2.0/24, 198.51.100.0/24, 203.0.113.0/24, 0.0.0.0/8 and 100.64.0.0/10, each from its first
-- address to its last.
abbrev pub reserved : List (ℕ × ℕ)
reserved =
    (number 10 0 0 0, number 10 255 255 255)
    ∷ (number 172 16 0 0, number 172 31 255 255)
    ∷ (number 192 168 0 0, number 192 168 255 255)
    ∷ (number 127 0 0 0, number 127 255 255 255)
    ∷ (number 169 254 0 0, number 169 254 255 255)
    ∷ (number 255 255 255 255, number 255 255 255 255)
    ∷ (number 192 0 2 0, number 192 0 2 255)
    ∷ (number 198 51 100 0, number 198 51 100 255)
    ∷ (number 203 0 113 0, number 203 0 113 255)
    ∷ (number 0 0 0 0, number 0 255 255 255)
    ∷ (number 100 64 0 0, number 100 127 255 255)
    ∷ []

-- A test of every octet in turn.
octets_pass : (ℕ → Bool) → ℕ → Bool
octets_pass test zero = true
octets_pass test (suc k) = if test k then octets_pass test k else false

octets_pass_at :
    (test : ℕ → Bool) (k octet : ℕ) → octets_pass test k ≡ true → octet < k → test octet ≡ true
unfolding octets_pass
octets_pass_at test zero octet passed h = absurd (omega arith)
octets_pass_at test (suc k) octet passed h = ground (arith, octets_pass_at test k octet)

shared : ℕ → Bool
shared b = bit_and b 0xc0 == 64

same_test : Bool → Bool → Bool
same_test true y = y
same_test false y = not y

shared_table : octets_pass (λ b. same_test (shared b) (leb 64 b && leb b 127)) 256 ≡ true
unfolding octets_pass shared same_test
shared_table = refl

shared-range : (b : ℕ) → b < 256 → shared b ≡ (leb 64 b && leb b 127)
unfolding same_test
shared-range b h =
    ground (
      arith,
      octets_pass_at (λ x. same_test (shared x) (leb 64 x && leb x 127)) 256 b shared_table h,
    )

abbrev In : ℕ → ℕ → ℕ → Bool
In n lo hi = leb lo n && leb n hi

or_assoc : (x y z : Bool) → ((x || y) || z) ≡ (x || (y || z))
or_assoc true y z = refl
or_assoc false y z = refl

or-false : (x : Bool) → (x || false) ≡ x
or-false true = refl
or-false false = refl

module _ (a b c d : ℕ) (ha : a < 256) (hb : b < 256) (hc : c < 256) (hd : d < 256) where
  block_8 : (x : ℕ) → In (number a b c d) (number x 0 0 0) (number x 255 255 255) ≡ (a == x)
  block_8 x = ground arith

  block_16 :
      (x y : ℕ)
      → y < 256
      → In (number a b c d) (number x y 0 0) (number x y 255 255) ≡ (a == x && b == y)
  block_16 x y h = ground arith

  block_24 :
      (x y z : ℕ)
      → y < 256
      → z < 256
      → In (number a b c d) (number x y z 0) (number x y z 255) ≡ (a == x && b == y && c == z)
  block_24 x y z h k = ground arith

  private_12 :
      In (number a b c d) (number 172 16 0 0) (number 172 31 255 255)
      ≡ (a == 172 && leb 16 b && leb b 31)
  private_12 = ground arith

  shared_10 :
      In (number a b c d) (number 100 64 0 0) (number 100 127 255 255)
      ≡ (a == 100 && bit_and b 0xc0 == 64)
  unfolding shared
  shared_10 = ground (arith, shared-range b hb)

  broadcast :
      In (number a b c d) (number 255 255 255 255) (number 255 255 255 255)
      ≡ (a == 255 && b == 255 && c == 255 && d == 255)
  broadcast = ground arith

  -- 0.0.0.0 lies in 0.0.0.0/8.
  absorb : (x : Bool) → ((a == 0 && b == 0 && c == 0 && d == 0) || (a == 0 || x)) ≡ (a == 0 || x)
  absorb x = ground arith

  v4_is_public_lem : v4_is_public a b c d ≡ not (within (number a b c d) reserved)
  unfolding v4_is_public within
  v4_is_public_lem =
      rw
        (
          block_8 10,
          private_12,
          block_16 192 168 (omega arith),
          block_8 127,
          block_16 169 254 (omega arith),
          broadcast,
          block_24 192 0 2 (omega arith) (omega arith),
          block_24 198 51 100 (omega arith) (omega arith),
          block_24 203 0 113 (omega arith) (omega arith),
          block_8 0,
          shared_10,
        )
        (simp (or_assoc, or-false, absorb))

-- An IPv4 address is public exactly when it lies in none of the blocks 0/8, 10/8, 100.64/10, 127/8,
-- 169.254/16, 172.16/12, 192.0.2/24, 192.168/16, 198.51.100/24, 203.0.113/24 and 255.255.255.255/32.
pub ip_is_public_v4 :
    (a b c d : ℕ)
    → a < 256
    → b < 256
    → c < 256
    → d < 256
    → ip_is_public (v4 a b c d) ≡ not (within (number a b c d) reserved)
unfolding ip_is_public
ip_is_public_v4 = v4_is_public_lem

-- An IPv4 address written as the IPv6 address ::ffff:a.b.c.d is public exactly when it is public as
-- it is.
pub ip_is_public_mapped :
    (a b c d : ℕ)
    → b < 256
    → d < 256
    → ip_is_public (v6 0 0 0 0 0 0xffff (a * 256 + b) (c * 256 + d)) ≡ ip_is_public (v4 a b c d)
unfolding ip_is_public
ip_is_public_mapped a b c d hb hd = rw (
  let e : (a * 256 + b) / 256 ≡ a = omega arith in e,
  let e : (a * 256 + b) % 256 ≡ b = omega arith in e,
  let e : (c * 256 + d) / 256 ≡ c = omega arith in e,
  let e : (c * 256 + d) % 256 ≡ d = omega arith in e,
)
