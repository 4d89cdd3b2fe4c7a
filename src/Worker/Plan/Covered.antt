-- ===== src/Worker/Plan/Covered.antt =====
-- partition.go: `removeCovered` keeps the addresses of its prefixes, each in one prefix.
use topo.Prelude.{
  ◌≡◌, refl, Bool, true, false, ◌&&◌, ◌||◌, List, [], ◌∷◌, ◌++◌, any, All, All-append, count-append,
  any-count, count-sort_slice, All-sort_slice, sort_slice-Sorted, Sorted, sort_slice, to_count,
  arith, ap, ◌∙◌, ◌==◌, ==_iff, inl, inr, Bool-cases,
}
use topo.Worker.Prefix.{Addr, Prefix, IsMasked, bit_len, contains, first}
use topo.Worker.Prefix.Laws.{family_of_contains, contains-eq-first, not_contains_of_family}
use topo.Worker.Partition.Subtract.{count_at}
use topo.Worker.Plan.{covered_less, covered_by, keep_uncovered, remove_covered}
use topo.Worker.Plan.Order.{covered_less-IsLess, bits-le_of_covered_less}

-- Whether one of the prefixes contains the address.
abbrev pub any_contains : Addr → List Prefix → Bool
any_contains x = any (λ p. contains p x)

-- A kept prefix covers a later one, or has no address in common with it.
covered_or_disjoint :
    (e p : Prefix) (x : Addr)
    → covered_less p e ≡ false
    → contains p x ≡ true
    → contains e x ≡ (bit_len e.is4 == bit_len p.is4 && contains e (first p))
covered_or_disjoint e p x h c = elim (Bool-cases (bit_len e.is4 == bit_len p.is4)) [
  | inl same ↦
      rw same (contains-eq-first e p x (bits-le_of_covered_less e p h ((==_iff _ _).0 same)) c)
  | inr other ↦ rw other (not_contains_of_family e x (rw (← family_of_contains p x c) other))
]

any_covered :
    (p : Prefix) (x : Addr) (result : List Prefix)
    → All (λ e. covered_less p e ≡ false) result
    → contains p x ≡ true
    → any_contains x result ≡ covered_by p result
unfolding covered_by
any_covered p x [] h c = refl
any_covered p x (e ∷ es) h c =
    ground (arith, covered_or_disjoint e p x h.0 c, any_covered p x es h.1 c)

any_contains-append :
    (x : Addr) (ps qs : List Prefix)
    → any_contains x (ps ++ qs) ≡ (any_contains x ps || any_contains x qs)
any_contains-append x [] qs = refl
any_contains-append x (p ∷ ps) qs = ground (arith, any_contains-append x ps qs)

-- Every prefix that is still to come is sorted behind every kept one.
abbrev Before : List Prefix → List Prefix → Type 0
Before result = All (λ p. All (λ e. covered_less p e ≡ false) result)

Before-append :
    (result : List Prefix) (p : Prefix) (ps : List Prefix)
    → Before result ps
    → All (λ q. covered_less q p ≡ false) ps
    → Before (result ++ p ∷ []) ps
Before-append result p [] b k = tt
Before-append result p (q ∷ qs) b k = (
  All-append (λ e. covered_less q e ≡ false) result (p ∷ []) b.0 (k.0, tt),
  Before-append result p qs b.1 k.1,
)

-- No address is in two kept prefixes.
abbrev AtMostOnce : Addr → List Prefix → Type 0
AtMostOnce x result = count_at x result ≡ to_count (any_contains x result)

keep_uncovered-count :
    (x : Addr) (ps result : List Prefix)
    → Sorted covered_less ps
    → Before result ps
    → AtMostOnce x result
    → count_at x (keep_uncovered ps result) ≡ to_count (any_contains x result || any_contains x ps)
unfolding keep_uncovered
keep_uncovered-count x [] result s b o = ground arith
keep_uncovered-count x (p ∷ ps) result s b o = elim (Bool-cases (covered_by p result)) [
  | inl c ↦
      rw c (ground (arith, any_covered p x result b.0, keep_uncovered-count x ps result s.1 b.1 o))
  | inr c ↦
      let kept = count-append (λ p. contains p x) result (p ∷ []) in
      let found = any_contains-append x result (p ∷ []) in
      let once : AtMostOnce x (result ++ p ∷ []) =
        ground (arith, any_covered p x result b.0, kept, found) in
      rw c (
        ground (
          arith,
          found,
          keep_uncovered-count x ps (result ++ p ∷ []) s.1 (Before-append result p ps b.1 s.0) once,
        ))
]

Before-nil : (ps : List Prefix) → Before [] ps
Before-nil [] = tt
Before-nil (p ∷ ps) = (tt, Before-nil ps)

any_contains-sort :
    (x : Addr) (ps : List Prefix) → any_contains x (sort_slice covered_less ps) ≡ any_contains x ps
any_contains-sort x ps =
    rw
      (any-count (λ p. contains p x) (sort_slice covered_less ps), any-count (λ p. contains p x) ps)
      (rw (count-sort_slice covered_less (λ p. contains p x) ps))

-- The prefixes that are kept have the addresses of all, each address in one prefix.
pub remove_covered-count :
    (x : Addr) (ps : List Prefix) → count_at x (remove_covered ps) ≡ to_count (any_contains x ps)
unfolding remove_covered
remove_covered-count x ps =
    keep_uncovered-count x (sort_slice covered_less ps) []
      (sort_slice-Sorted covered_less covered_less-IsLess ps)
      (Before-nil (sort_slice covered_less ps)) refl
    ∙ ap to_count (any_contains-sort x ps)

keep_uncovered-IsMasked :
    (ps result : List Prefix)
    → All IsMasked ps
    → All IsMasked result
    → All IsMasked (keep_uncovered ps result)
unfolding keep_uncovered
keep_uncovered-IsMasked [] result h k = k
keep_uncovered-IsMasked (p ∷ ps) result h k = elim (Bool-cases (covered_by p result)) [
  | inl c ↦ rw c (keep_uncovered-IsMasked ps result h.1 k)
  | inr c ↦ rw c (
      keep_uncovered-IsMasked ps (result ++ p ∷ []) h.1
        (All-append IsMasked result (p ∷ []) k (h.0, tt)))
]

pub remove_covered-IsMasked :
    (ps : List Prefix) → All IsMasked ps → All IsMasked (remove_covered ps)
unfolding remove_covered
remove_covered-IsMasked ps h =
    keep_uncovered-IsMasked (sort_slice covered_less ps) []
      (All-sort_slice covered_less IsMasked ps h) tt
