-- ===== src/Worker/Plan/Excluded.antt =====
-- partition.go: the loops over the exclusions take away their addresses and no other.
use topo.Prelude.{
  ℕ, suc, ◌+◌, ◌≡◌, refl, Bool, true, false, not, ◌||◌, List, [], ◌∷◌, ◌++◌, length, All,
  All-append, count-append, arith, subst, ◌==◌, ltb, if◌then◌else◌, inl, inr, Bool-cases, ok,
  refuse_if, bind-returns, ok-injective, pos, ◌-ℤ◌,
}
use topo.Worker.Prefix.{Addr, Prefix, IsMasked, bit_len, contains, overlaps, host_bits}
use topo.Worker.Prefix.Laws.{disjoint_of_overlaps, family_of_contains, not_contains_of_family}
use topo.Worker.Partition.{subtract_prefix}
use topo.Worker.Partition.Subtract.{count_at, subtract_prefix-Subtracts}
use topo.Worker.Plan.{exclude_one, exclude_all, too_many_after_exclusions}
use topo.Worker.Plan.Covered.{any_contains}

abbrev pub outside : Prefix → Prefix → Bool
outside candidate deny =
    not (bit_len candidate.is4 == bit_len deny.is4) || not (overlaps candidate deny)

outside-disjoint :
    (p deny : Prefix) (x : Addr)
    → outside p deny ≡ true
    → contains p x ≡ true
    → contains deny x ≡ false
outside-disjoint p deny x h c =
    ground
      (arith, disjoint_of_overlaps p deny x, family_of_contains p x, not_contains_of_family deny x)

-- What is left of the candidates joins what was built before.
pub record ExcludesOne (deny : Prefix) (candidates next out : List Prefix) : Type 0 where
  pub counts :
      (x : Addr)
      → count_at x out ≡ count_at x next + (if contains deny x then 0 else count_at x candidates)
  pub all_masked : All IsMasked next → All IsMasked out

pub exclude_one-ExcludesOne :
    (maximum : ℕ) (deny : Prefix) (candidates next out : List Prefix)
    → IsMasked deny
    → All IsMasked candidates
    → exclude_one maximum deny candidates next ≡ ok out
    → ExcludesOne deny candidates next out
unfolding exclude_one
exclude_one-ExcludesOne maximum deny [] next out md m h =
    subst (ExcludesOne deny [] next) (ok-injective h)
      (record { counts = λ x. ground arith; all_masked = λ k. k })
exclude_one-ExcludesOne maximum deny (p ∷ ps) next out md m h = elim (Bool-cases (outside p deny)) [
  | inl o ↦
      let rest =
        exclude_one-ExcludesOne maximum deny ps (next ++ p ∷ []) out md m.1
          (rw (o, exclude_one) at h) in
      record {
        counts = λ x. ground (
          arith,
          rest.counts x,
          count-append (λ p. contains p x) next (p ∷ []),
          outside-disjoint p deny x o,
        );
        all_masked = λ k. rest.all_masked (All-append IsMasked next (p ∷ []) k (m.0, tt));
      }
  | inr o ↦
      let (parts, e, h') =
        bind-returns (subtract_prefix (suc (host_bits p)) p deny (pos maximum -ℤ length next)) _
          (rw (o, exclude_one) at h) in
      let (done, e', h'') =
        bind-returns (refuse_if (ltb maximum (length (next ++ parts))) too_many_after_exclusions) _
          h' in
      let cut = (subtract_prefix-Subtracts (suc (host_bits p)) p deny _ parts m.0 md e).1 in
      let rest = exclude_one-ExcludesOne maximum deny ps (next ++ parts) out md m.1 h'' in
      record {
        counts = λ x.
            ground
              (arith, rest.counts x, count-append (λ p. contains p x) next parts, cut.counts x);
        all_masked = λ k. rest.all_masked (All-append IsMasked next parts k cut.all_masked);
      }
]

-- After all the exclusions, an address is in one prefix if it was allowed and is not excluded.
pub record ExcludesAll (denies allowed out : List Prefix) : Type 0 where
  pub counts :
      (x : Addr) → count_at x out ≡ (if any_contains x denies then 0 else count_at x allowed)
  pub all_masked : All IsMasked out

pub exclude_all-ExcludesAll :
    (maximum : ℕ) (denies allowed out : List Prefix)
    → All IsMasked denies
    → All IsMasked allowed
    → exclude_all maximum denies allowed ≡ ok out
    → ExcludesAll denies allowed out
unfolding exclude_all
exclude_all-ExcludesAll maximum [] allowed out md m h =
    subst (ExcludesAll [] allowed) (ok-injective h) (record { counts = λ x. refl; all_masked = m })
exclude_all-ExcludesAll maximum (deny ∷ denies) allowed out md m h =
    let (next, e, h') = bind-returns (exclude_one maximum deny allowed []) _ h in
    let one = exclude_one-ExcludesOne maximum deny allowed [] next md.0 m e in
    let rest = exclude_all-ExcludesAll maximum denies next out md.1 (one.all_masked tt) h' in
    record {
      counts = λ x. ground (arith, rest.counts x, one.counts x);
      all_masked = rest.all_masked;
    }
