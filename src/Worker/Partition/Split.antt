-- ===== src/Worker/Partition/Split.antt =====
-- partition.go: what `splitPrefix` returns.
use topo.Prelude.{suc, ◌+◌, ◌-◌, ◌*◌, ◌^◌, ◌≤◌, ◌<◌, ◌≡◌, to_count, arith, ok, err}
use topo.Worker.Prefix.{Addr, Prefix, IsMasked, bit_len, host_bits, block, contains}
use topo.Worker.Prefix.Laws.{
  masked-IsMasked, contains-same, halves_count, lower-aligned, upper-aligned, bit_clear,
}
use topo.Worker.Partition.{split_prefix, set_bit, cannot_split}

-- The two halves of a prefix, written without the bit arithmetic.
abbrev pub lower : Prefix → Prefix
lower p = record p { bits = p.bits + 1 }

abbrev pub upper : Prefix → Prefix
upper p = record p { addr = p.addr + 2 ^ (bit_len p.is4 - 1 - p.bits); bits = p.bits + 1 }

module _ (p : Prefix) (m : IsMasked p) where
  host_bits-suc : p.bits < bit_len p.is4 → host_bits p ≡ suc (bit_len p.is4 - 1 - p.bits)
  host_bits-suc l = omega arith

  host_bits_half :
      p.bits < bit_len p.is4 → bit_len p.is4 - (p.bits + 1) ≡ bit_len p.is4 - 1 - p.bits
  host_bits_half l = omega arith

  aligned_suc :
      p.bits < bit_len p.is4
      → let h = bit_len p.is4 - 1 - p.bits in block (suc h) p.addr * 2 ^ suc h ≡ p.addr
  aligned_suc l = rw (host_bits-suc l) at m.aligned

  -- A prefix that is no single address splits.
  pub split_prefix_ok : p.bits < bit_len p.is4 → split_prefix p ≡ ok (lower p, upper p)
  unfolding split_prefix set_bit
  split_prefix_ok l = rw (masked-IsMasked p m) (ground (arith, bit_clear _ p.addr (aligned_suc l)))

  pub split_prefix_host : bit_len p.is4 ≤ p.bits → split_prefix p ≡ err cannot_split
  unfolding split_prefix
  split_prefix_host l = rw (masked-IsMasked p m) (ground arith)

  module _ (l : p.bits < bit_len p.is4) where
    pub lower-IsMasked : IsMasked (lower p)
    lower-IsMasked = record {
      fits = omega arith;
      aligned = rw (host_bits_half l) (lower-aligned _ _ (aligned_suc l));
    }

    pub upper-IsMasked : IsMasked (upper p)
    upper-IsMasked = record {
      fits = omega arith;
      aligned = rw (host_bits_half l) (upper-aligned _ _ (aligned_suc l));
    }

    -- Every address of the prefix is in exactly one half.
    pub count-halves :
        (x : Addr)
        → to_count (contains (lower p) x) + to_count (contains (upper p) x)
          ≡ to_count (contains p x)
    count-halves x =
        rw
          (
            contains-same (lower p) x _ (host_bits_half l),
            contains-same (upper p) x _ (host_bits_half l),
            contains-same p x _ (host_bits-suc l),
          )
          (ground (arith, halves_count (bit_len p.is4 - 1 - p.bits) p.addr x.value (aligned_suc l)))
