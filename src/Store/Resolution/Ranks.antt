-- ===== src/Store/Resolution/Ranks.antt =====
-- resolution.go: the rank of a source is the position of its plugin in the precedence.
use topo.Prelude.{
  ℕ, suc, ◌+◌, ◌≡◌, refl, ap, ◌∙◌, Bool, true, false, ◌&&◌, String, str_eq, eq_iff, Option, none,
  some, List, [], ◌∷◌, arith, length, if◌then◌else◌, to_count, count, GoMap, lookup, store,
  lookup-store, Bool-cases, Option-cases, inl, inr,
}
use topo.Store.Model.{AssetSource, AssetClaim}
use topo.Store.Resolution.{ranks_from, ranked}
use topo.Store.Resolution.Complete.{with_ranks}

-- The last position of a plugin in a list; a list that is accepted has it once.
pub position : String → List String → Option ℕ
position plugin [] = none
position plugin (first ∷ rest) = elim (position plugin rest) [
  | some i ↦ some (suc i)
  | none ↦ if str_eq first plugin then some 0 else none
]

-- The source of a claim with its rank: the position of its plugin, and behind all of them where it
-- is not listed.
abbrev pub source_ranked : List String → AssetSource → AssetSource
source_ranked precedence s = record s {
  precedence_rank = elim (position s.plugin precedence) [ some i ↦ i | none ↦ length precedence ];
  explicit_precedence = elim (position s.plugin precedence) [ some i ↦ true | none ↦ false ];
}

abbrev from_index : ℕ → Option ℕ → Option ℕ → Option ℕ
from_index i found old = elim found [ some j ↦ some (i + j) | none ↦ old ]

lookup-ranks_from :
    (plugin : String) (precedence : List String) (i : ℕ) (m : GoMap ℕ)
    → lookup (ranks_from i precedence m) plugin
      ≡ from_index i (position plugin precedence) (lookup m plugin)
unfolding ranks_from position
lookup-ranks_from plugin [] i m = refl
lookup-ranks_from plugin (first ∷ rest) i m =
    let later = lookup-ranks_from plugin rest (i + 1) (store m first i) in
    elim (Option-cases (position plugin rest)) [
      | inr (j, found) ↦ rw (found, position) (later ∙ rw found (ap some (omega arith)))
      | inl absent ↦ elim (Bool-cases (str_eq first plugin)) [
        | inl same ↦
            rw (absent, same, position)
              (ground (
                arith,
                later,
                absent,
                lookup-store m first plugin i,
                eq_iff plugin first,
                eq_iff first plugin,
              ))
        | inr differs ↦
            rw (absent, differs, position)
              (ground (
                arith,
                later,
                absent,
                lookup-store m first plugin i,
                eq_iff plugin first,
                eq_iff first plugin,
              ))
      ]
    ]

ranked-source_ranked :
    (precedence : List String) (c : AssetClaim)
    → (ranked (ranks_from 0 precedence []) (length precedence) c).source
      ≡ source_ranked precedence c.source
unfolding ranked lookup
ranked-source_ranked precedence c =
    let found = lookup-ranks_from c.source.plugin precedence 0 [] in
    elim (Option-cases (position c.source.plugin precedence)) [
      | inl absent ↦ rw (found, absent) refl
      | inr (j, there) ↦
          rw (found, there)
            (ap (λ n. record c.source { precedence_rank = n; explicit_precedence = true })
              (omega arith))
    ]

-- The claims of the ranked list are those of the list.
pub count-with_ranks :
    (claims : List AssetClaim) (precedence : List String) (id : String) (p : AssetSource → Bool)
    → count (λ c. str_eq c.asset_id id && p c.source) (with_ranks claims precedence)
      ≡ count (λ c. str_eq c.asset_id id && p (source_ranked precedence c.source)) claims
unfolding ranked
count-with_ranks [] precedence id p = refl
count-with_ranks (c ∷ rest) precedence id p =
    let same = ranked-source_ranked precedence c in
    omega (
      arith,
      count-with_ranks rest precedence id p,
      ap (λ s. to_count (str_eq c.asset_id id && p s)) same,
    )
