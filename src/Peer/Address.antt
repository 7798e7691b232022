-- ===== src/Peer/Address.antt =====
-- IP addresses and the address policy: `ip_is_public` of relay/src/peer.rs, with the predicates of
-- std::net that it calls, and `is_unspecified`, which `announce` reads.
pub mod Ranges
use Prim.Native.Nat.{bit_and}
use certrelay.Prelude.{
  ℕ, ◌/◌, ◌%◌, Bool, true, false, not, ◌&&◌, ◌||◌, Option, none, some, ◌==◌, leb, if◌then◌else◌,
  DecEq, ℕ_discrete,
}

-- An IPv4 address by its four octets, an IPv6 address by its eight 16-bit segments.
pub data IpAddr : Type 0 where
  v4 : ℕ → ℕ → ℕ → ℕ → IpAddr
  v6 : ℕ → ℕ → ℕ → ℕ → ℕ → ℕ → ℕ → ℕ → IpAddr

unfoldable pub ip_discrete : Discrete IpAddr
ip_discrete = hlevel ℕ_discrete

instance abbrev pub ip_dec_eq : DecEq IpAddr
ip_dec_eq = record { same = ip_discrete }

abbrev pub unspecified : IpAddr
unspecified = v4 0 0 0 0

-- std: `IpAddr::is_unspecified`.
unfoldable pub is_unspecified : IpAddr → Bool
is_unspecified (v4 a b c d) = a == 0 && b == 0 && c == 0 && d == 0
is_unspecified (v6 a b c d e f g h) =
    a == 0 && b == 0 && c == 0 && d == 0 && e == 0 && f == 0 && g == 0 && h == 0

-- std: `is_private`, `is_loopback`, `is_link_local`, `is_broadcast`, `is_documentation` of an
-- IPv4 address, by the ranges that their documentation lists.
is_private : ℕ → ℕ → Bool
is_private a b = a == 10 || (a == 172 && leb 16 b && leb b 31) || (a == 192 && b == 168)

is_documentation : ℕ → ℕ → ℕ → Bool
is_documentation a b c =
    (a == 192 && b == 0 && c == 2)
    || (a == 198 && b == 51 && c == 100)
    || (a == 203 && b == 0 && c == 113)

-- The IPv4 case.
unfoldable pub v4_is_public : ℕ → ℕ → ℕ → ℕ → Bool
unfolding is_private is_documentation
v4_is_public a b c d = not (
    is_private a b
    || a == 127
    || (a == 169 && b == 254)
    || (a == 255 && b == 255 && c == 255 && d == 255)
    || is_documentation a b c
    || (a == 0 && b == 0 && c == 0 && d == 0)
    || a == 0
    || (a == 100 && bit_and b 0xc0 == 64))

-- std: `to_ipv4_mapped`, of an address ::ffff:a.b.c.d.
is_mapped : ℕ → ℕ → ℕ → ℕ → ℕ → ℕ → Bool
is_mapped s t u v w x = s == 0 && t == 0 && u == 0 && v == 0 && w == 0 && x == 0xffff

unfoldable pub ip_is_public : IpAddr → Bool
unfolding v4_is_public is_mapped
ip_is_public (v4 a b c d) = v4_is_public a b c d
ip_is_public (v6 s t u v w x y z) =
    if is_mapped s t u v w x
    then v4_is_public (y / 256) (y % 256) (z / 256) (z % 256)
    else not (
        (s == 0 && t == 0 && u == 0 && v == 0 && w == 0 && x == 0 && y == 0 && z == 1)
        || (s == 0 && t == 0 && u == 0 && v == 0 && w == 0 && x == 0 && y == 0 && z == 0)
        || bit_and s 0xfe00 == 0xfc00
        || bit_and s 0xffc0 == 0xfe80
        || (s == 0x2001 && t == 0xdb8))
