-- ===== src/Config/Address.antt =====
-- pc-service/src/wol_unlock/config.py: `HttpConfig.allows`. The text of an address is read by the
-- standard library's `ipaddress`, a parameter; the addresses and the networks are numbers.
pub mod Blocks
use pc_helper_ios.Prelude.{
  ℕ, ◌+◌, ◌-◌, ◌*◌, ◌/◌, ◌%◌, ◌^◌, ◌<◌, ◌≡◌, refl, Bool, true, false, Option, none, some, List, [],
  ◌∷◌, arith, ◌==◌, if◌then◌else◌, any, Text,
}

pub data Address : Type 0 where
  v4 v6 : ℕ → Address

-- a network by its address and the length of its prefix
pub data Network : Type 0 where
  v4 v6 : (base prefix : ℕ) → Network

-- `ip.ipv4_mapped`: ::ffff:a.b.c.d
unfoldable pub unmapped : Address → Address
unmapped (Address.v4 n) = Address.v4 n
unmapped (Address.v6 n) = if n / 2 ^ 32 == 0xffff then Address.v4 (n % 2 ^ 32) else Address.v6 n

-- the addresses agree in the first `prefix` of `bits` bits
abbrev pub same_prefix : ℕ → ℕ → ℕ → ℕ → Bool
same_prefix bits prefix a b = a / 2 ^ (bits - prefix) == b / 2 ^ (bits - prefix)

-- `ip in net`: False for an address of the other version
unfoldable pub in_network : Address → Network → Bool
in_network (Address.v4 n) (Network.v4 base prefix) = same_prefix 32 prefix n base
in_network (Address.v6 n) (Network.v6 base prefix) = same_prefix 128 prefix n base
in_network (Address.v4 n) (Network.v6 base prefix) = false
in_network (Address.v6 n) (Network.v4 base prefix) = false

abbrev allowed : List Network → Option Address → Bool
allowed networks none = false
allowed networks (some ip) = any (in_network (unmapped ip)) networks

module _ (ip_address : Text → Option Address) where
  unfoldable pub allows : List Network → Text → Bool
  unfolding unmapped in_network
  allows [] addr = false
  allows (n ∷ ns) addr = allowed (n ∷ ns) (ip_address addr)

-- The IPv6 form ::ffff:a.b.c.d of an IPv4 address is unmapped to that IPv4 address.
pub unmapped-mapped :
    (n : ℕ) → n < 2 ^ 32 → unmapped (Address.v6 (0xffff * 2 ^ 32 + n)) ≡ Address.v4 n
unfolding unmapped
unmapped-mapped n h =
    let e : (0xffff * 2 ^ 32 + n) / 2 ^ 32 ≡ 0xffff = omega arith in
    let f : (0xffff * 2 ^ 32 + n) % 2 ^ 32 ≡ n = omega arith in ground (arith, e, f)
