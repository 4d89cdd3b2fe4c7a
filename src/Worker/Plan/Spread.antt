-- ===== src/Worker/Plan/Spread.antt =====
-- partition.go: the loop that splits the allowed prefixes into partitions of the target length.
use topo.Prelude.{
  ℕ, suc, ◌+◌, ◌≤◌, ◌≡◌, List, [], ◌∷◌, ◌++◌, length, All, All-append, All-map, count-append, arith,
  subst, ltb, if◌then◌else◌, ok, refuse_if, bind-returns, ok-injective, pos, ◌-ℤ◌,
}
use topo.Worker.Prefix.{Addr, Prefix, IsMasked, bit_len, contains, host_bits}
use topo.Worker.Partition.{split_to_prefix}
use topo.Worker.Partition.Subtract.{count_at}
use topo.Worker.Partition.SplitTo.{split_to_prefix-SplitsTo, IsPart}
use topo.Worker.Plan.{spread, too_many}

-- The length that partitions of the prefix's family have at least.
abbrev pub target_of : ℕ → ℕ → Prefix → ℕ
target_of v4 v6 p = if p.is4 then v4 else v6

abbrev pub IsLong : ℕ → ℕ → Prefix → Type 0
IsLong v4 v6 p = IsMasked p × (target_of v4 v6 p ≤ p.bits)

pub record Spreads (maximum v4 v6 : ℕ) (prefixes planned out : List Prefix) : Type 0 where
  pub counts : (x : Addr) → count_at x out ≡ count_at x planned + count_at x prefixes
  pub all_long : All (IsLong v4 v6) planned → All (IsLong v4 v6) out
  pub bounded : length planned ≤ maximum → length out ≤ maximum

part_IsLong : (v4 v6 : ℕ) (p q : Prefix) → IsPart p (target_of v4 v6 p) q → IsLong v4 v6 q
part_IsLong v4 v6 p q h = (h.0, ground (arith, h.1, h.2))

pub target_fits : (v4 v6 : ℕ) (p : Prefix) → v4 ≤ 32 → v6 ≤ 128 → target_of v4 v6 p ≤ bit_len p.is4
target_fits v4 v6 p h k = ground arith

not_over : (n maximum : ℕ) {u : Unit {0}} → refuse_if (ltb maximum n) too_many ≡ ok u → n ≤ maximum
not_over n maximum h = ground arith

pub spread-Spreads :
    (maximum v4 v6 : ℕ) (prefixes planned out : List Prefix)
    → v4 ≤ 32
    → v6 ≤ 128
    → All IsMasked prefixes
    → spread maximum v4 v6 prefixes planned ≡ ok out
    → Spreads maximum v4 v6 prefixes planned out
unfolding spread
spread-Spreads maximum v4 v6 [] planned out f4 f6 m h =
    subst (Spreads maximum v4 v6 [] planned) (ok-injective h)
      (record { counts = λ x. omega arith; all_long = λ k. k; bounded = λ k. k })
spread-Spreads maximum v4 v6 (p ∷ ps) planned out f4 f6 m h =
    let target = target_of v4 v6 p in
    let (parts, e, h') =
      bind-returns (split_to_prefix (suc (host_bits p)) p target (pos maximum -ℤ length planned)) _
        h in
    let (done, e', h'') =
      bind-returns (refuse_if (ltb maximum (length (planned ++ parts))) too_many) _ h' in
    let cut =
      (split_to_prefix-SplitsTo (suc (host_bits p)) p target _ parts m.0 (target_fits v4 v6 p f4 f6)
        e).1 in
    let rest = spread-Spreads maximum v4 v6 ps (planned ++ parts) out f4 f6 m.1 h'' in
    record {
      counts = λ x.
          omega
            (arith, rest.counts x, count-append (λ p. contains p x) planned parts, cut.counts x);
      all_long = λ k. rest.all_long (
          All-append (IsLong v4 v6) planned parts k
            (All-map (IsPart p target) (IsLong v4 v6) (part_IsLong v4 v6 p) parts cut.all_parts));
      bounded = λ k. rest.bounded (not_over (length (planned ++ parts)) maximum e');
    }
