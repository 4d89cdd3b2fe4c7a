-- ===== src/Worker/Prefix/Laws.antt =====
-- How blocks of 2 ^ h addresses nest and halve.
use native.Mathlib.Nat.{
  pow-suc, mul-div_cancel, div-div-eq-div-mul, div-eq_of_eq-mul_left, one-le-pow, add-div_right,
}
use Prim.Native.Nat.add
use topo.Prelude.{
  ℕ, zero, suc, ◌+◌, ◌-◌, ◌*◌, ◌/◌, ◌%◌, ◌^◌, ◌≤◌, ◌<◌, ◌≡◌, refl, sym, true, false, ◌&&◌, ◌==◌,
  to_count, arith,
}
use topo.Worker.Prefix.{
  Addr, Prefix, block, contains, overlaps, masked, IsMasked, host_bits, bit_len, first, same_family,
}

pub pow_pos : (h : ℕ) → 0 < 2 ^ h
pow_pos h = one-le-pow h 2 (omega arith)

-- A block of twice the size holds two blocks.
pub block-suc : (h x : ℕ) → block (suc h) x ≡ block h x / 2
unfolding block
block-suc h x = rw pow-suc (sym (div-div-eq-div-mul x (2 ^ h) 2))

block_mono_add : (d h x y : ℕ) → block h x ≡ block h y → block (d + h) x ≡ block (d + h) y
block_mono_add zero h x y e = rw (add.zero h) e
block_mono_add (suc d) h x y e =
    rw (add.suc d h) (rw (block-suc (d + h) x, block-suc (d + h) y, block_mono_add d h x y e) refl)

-- Values of one block lie in one block of every larger size.
pub block_mono : (h k x y : ℕ) → h ≤ k → block h x ≡ block h y → block k x ≡ block k y
block_mono h k x y l e =
    let s : k - h + h ≡ k = omega arith in rw s at (block_mono_add (k - h) h x y e)

double_assoc : (q n a : ℕ) → q * (n * 2) ≡ a → a ≡ q * 2 * n
double_assoc q n a e = omega arith

aligned_double : (h a : ℕ) → block (suc h) a * 2 ^ suc h ≡ a → a ≡ block (suc h) a * 2 * 2 ^ h
aligned_double h a e = double_assoc (block (suc h) a) (2 ^ h) a (rw pow-suc at e)

-- An aligned address is the first of its block, and of the lower half of it.
pub block-lower : (h a : ℕ) → block (suc h) a * 2 ^ suc h ≡ a → block h a ≡ block (suc h) a * 2
unfolding block
block-lower h a e = div-eq_of_eq-mul_left (pow_pos h) (aligned_double h a e)

pub block-upper : (h a : ℕ) → block h (a + 2 ^ h) ≡ block h a + 1
unfolding block
block-upper h a = add-div_right a (pow_pos h)

-- A value of a block is in exactly one of its halves.
pub halves_count :
    (h a x : ℕ)
    → block (suc h) a * 2 ^ suc h ≡ a
    → to_count (block h x == block h a) + to_count (block h x == block h (a + 2 ^ h))
      ≡ to_count (block (suc h) x == block (suc h) a)
halves_count h a x e =
    ground (arith, block-suc h x, block-suc h a, block-lower h a e, block-upper h a)

-- The lower half is aligned, and so is the upper half.
pub lower-aligned : (h a : ℕ) → block (suc h) a * 2 ^ suc h ≡ a → block h a * 2 ^ h ≡ a
lower-aligned h a e = rw (block-lower h a e) (sym (aligned_double h a e))

pub upper-aligned :
    (h a : ℕ) → block (suc h) a * 2 ^ suc h ≡ a → block h (a + 2 ^ h) * 2 ^ h ≡ a + 2 ^ h
upper-aligned h a e = rw (block-upper h a) (omega (arith, lower-aligned h a e))

-- The bit that `splitPrefix` sets is clear in an aligned address.
pub bit_clear : (h a : ℕ) → block (suc h) a * 2 ^ suc h ≡ a → block h a % 2 ≡ 0
bit_clear h a e = omega (arith, block-lower h a e)

-- Masking changes nothing in a masked prefix.
pub masked-IsMasked : (p : Prefix) → IsMasked p → masked p ≡ p
unfolding masked
masked-IsMasked p m = λ i. record p { addr = m.aligned i }

-- Blocks of one size are compared by `==`.
pub contains-same :
    (p : Prefix) (x : Addr) (h : ℕ)
    → host_bits p ≡ h
    → contains p x ≡ (same_family p.is4 x.is4 && block h x.value == block h p.addr)
unfolding contains
contains-same p x h e = rw e

-- Prefixes that do not overlap have no address in common.
pub disjoint_of_overlaps :
    (p o : Prefix) (x : Addr) → overlaps p o ≡ false → contains p x ≡ true → contains o x ≡ false
unfolding contains overlaps
disjoint_of_overlaps p o x h c = ground (
  arith,
  block_mono (host_bits p) (host_bits o) x.value p.addr,
  block_mono (host_bits o) (host_bits p) x.value o.addr,
)

-- A prefix that is no longer, and has the other's first address, has all its addresses.
pub contains_of_first :
    (o p : Prefix) (x : Addr)
    → o.bits ≤ p.bits
    → contains o (first p) ≡ true
    → contains p x ≡ true
    → contains o x ≡ true
unfolding contains
contains_of_first o p x l h c =
    ground (arith, block_mono (host_bits p) (host_bits o) x.value p.addr)

-- Of two prefixes that overlap, the shorter one has the first address of the other.
pub first_of_overlaps :
    (o p : Prefix) → o.bits ≤ p.bits → overlaps p o ≡ true → contains o (first p) ≡ true
unfolding contains overlaps
first_of_overlaps o p l h = ground arith

pub family_of_overlaps : (p o : Prefix) → overlaps p o ≡ true → bit_len p.is4 ≡ bit_len o.is4
unfolding overlaps
family_of_overlaps p o h = ground arith

pub family_of_contains :
    (p : Prefix) (x : Addr) → contains p x ≡ true → bit_len p.is4 ≡ bit_len x.is4
unfolding contains
family_of_contains p x h = ground arith

-- A prefix that is no longer has all the addresses of another, or none.
pub contains-eq-first :
    (o p : Prefix) (x : Addr)
    → o.bits ≤ p.bits
    → contains p x ≡ true
    → contains o x ≡ contains o (first p)
unfolding contains
contains-eq-first o p x l c = ground (arith, block_mono (host_bits p) (host_bits o) x.value p.addr)

pub not_contains_of_family :
    (p : Prefix) (x : Addr) → (bit_len p.is4 == bit_len x.is4) ≡ false → contains p x ≡ false
unfolding contains
not_contains_of_family p x h = ground arith

-- Masking keeps the block of an address, so it gives a masked prefix with the same addresses.
pub block-masked : (h a : ℕ) → block h (block h a * 2 ^ h) ≡ block h a
unfolding block
block-masked h a = mul-div_cancel (a / 2 ^ h) (pow_pos h)

pub masked_is_IsMasked : (p : Prefix) → p.bits ≤ bit_len p.is4 → IsMasked (masked p)
unfolding masked
masked_is_IsMasked p l = record { fits = l; aligned = rw (block-masked (host_bits p) p.addr) }

pub contains-masked : (p : Prefix) (x : Addr) → contains (masked p) x ≡ contains p x
unfolding masked contains
contains-masked p x = rw (block-masked (host_bits p) p.addr)
