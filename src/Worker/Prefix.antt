-- ===== src/Worker/Prefix.antt =====
-- The part of `net/netip` that internal/worker/partition.go and ssh_policy.go use: an address is its
-- family and its value, a prefix is an address with its number of leading bits. Only valid
-- prefixes without a zone are built, since `netip.ParsePrefix` accepts no other.
pub mod Laws
use topo.Prelude.{
  ℕ, ◌+◌, ◌-◌, ◌*◌, ◌/◌, ◌^◌, ◌≤◌, ◌<◌, ◌≡◌, Bool, true, false, ◌&&◌, ◌||◌, not, ltb, leb, ◌==◌,
  if◌then◌else◌,
}

-- netip.Addr: `is4` is `Is4()`, and the value is below 2 ^ BitLen().
pub record Addr : Type 0 where
  pub is4 : Bool
  pub value : ℕ

-- netip.Prefix: `PrefixFrom(addr, bits)`.
pub record Prefix : Type 0 where
  pub is4 : Bool
  pub addr : ℕ
  pub bits : ℕ

-- `Addr().BitLen()`.
abbrev pub bit_len : Bool → ℕ
bit_len true = 32
bit_len false = 128

-- Equality of families, which is equality of `BitLen()`.
abbrev pub same_family : Bool → Bool → Bool
same_family true b = b
same_family false b = not b

-- The number of addresses of a prefix is 2 ^ host_bits.
abbrev pub host_bits : Prefix → ℕ
host_bits p = bit_len p.is4 - p.bits

-- The number of the block of 2 ^ h addresses in which a value lies.
unfoldable pub block : ℕ → ℕ → ℕ
block h value = value / 2 ^ h

-- `p.Contains(a)`.
unfoldable pub contains : Prefix → Addr → Bool
contains p a = same_family p.is4 a.is4 && block (host_bits p) a.value == block (host_bits p) p.addr

-- `p.Addr()`.
abbrev pub first : Prefix → Addr
first p = record { is4 = p.is4; value = p.addr }

-- The number of bits outside the shorter of two prefixes.
abbrev pub wider_host_bits : Prefix → Prefix → ℕ
wider_host_bits p o = if ltb p.bits o.bits then bit_len p.is4 - p.bits else bit_len p.is4 - o.bits

-- `p.Overlaps(o)`: the addresses agree in the bits of the shorter prefix.
unfoldable pub overlaps : Prefix → Prefix → Bool
overlaps p o =
    same_family p.is4 o.is4
    && block (wider_host_bits p o) p.addr == block (wider_host_bits p o) o.addr

-- `p.Masked()`.
unfoldable pub masked : Prefix → Prefix
masked p = record p { addr = block (host_bits p) p.addr * 2 ^ host_bits p }

-- What `netip.ParsePrefix` returns, after `Masked()`: no more bits than the family has, and no bit
-- set outside the prefix.
pub record IsMasked (p : Prefix) : Type 0 where
  pub fits : p.bits ≤ bit_len p.is4
  pub aligned : block (host_bits p) p.addr * 2 ^ host_bits p ≡ p.addr
