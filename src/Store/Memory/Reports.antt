-- ===== src/Store/Memory/Reports.antt =====
-- store.go: what a claim says of the reports that it comes from.
use topo.Prelude.{
  ℕ, ◌≤◌, ◌<◌, ◌≡◌, ◌⊎◌, refl, String, Option, none, some, List, [], ◌∷◌, ◌++◌, All, All-append,
  All-map, arith, ltb, inl, inr, Bool-cases,
}
use topo.Store.Model.{Asset, AssetClaim, ObservationEnvelope}
use topo.Store.Memory.{merge_claim}

-- One report of an asset, in the observation that carried it.
abbrev pub Report : Type 0
Report = ObservationEnvelope × Asset

-- The time and the observation of the first of the earliest reports.
pub FirstAt : ℕ → String → List Report → Type 0
FirstAt t o [] = ⊥
FirstAt t o ((e, a) ∷ rest) =
    (t ≡ e.observed_at) × (o ≡ e.observation_id) × All (λ r. t ≤ r.0.observed_at) rest
    ⊎ (t < e.observed_at) × FirstAt t o rest

-- The time, the observation and the asset of the last of the latest reports.
pub LastAt : ℕ → String → Asset → List Report → Type 0
LastAt t o x [] = ⊥
LastAt t o x ((e, a) ∷ rest) =
    (t ≡ e.observed_at) × (o ≡ e.observation_id) × (x ≡ a) × All (λ r. r.0.observed_at < t) rest
    ⊎ (e.observed_at ≤ t) × LastAt t o x rest

-- What a claim has to say of the reports that made it.
abbrev pub ClaimSpec : Option AssetClaim → List Report → Type 0
ClaimSpec none rs = rs ≡ []
ClaimSpec (some c) rs =
    FirstAt c.source.first_observed_at c.source.first_observation_id rs
    × LastAt c.source.last_observed_at c.source.last_observation_id c.asset rs

FirstAt-bound :
    (t : ℕ) (o : String) (rs : List Report) → FirstAt t o rs → All (λ r. t ≤ r.0.observed_at) rs
unfolding FirstAt
FirstAt-bound t o [] h = elim h [ ]
FirstAt-bound t o ((e, a) ∷ rest) (inl h) = (ground arith, h.2)
FirstAt-bound t o ((e, a) ∷ rest) (inr h) = (ground arith, FirstAt-bound t o rest h.1)

LastAt-bound :
    (t : ℕ) (o : String) (x : Asset) (rs : List Report)
    → LastAt t o x rs
    → All (λ r. r.0.observed_at ≤ t) rs
unfolding LastAt
LastAt-bound t o x [] h = elim h [ ]
LastAt-bound t o x ((e, a) ∷ rest) (inl h) =
    (ground arith, All-map _ _ (λ r below. omega (arith, below)) rest h.3)
LastAt-bound t o x ((e, a) ∷ rest) (inr h) = (h.0, LastAt-bound t o x rest h.1)

FirstAt-later :
    (t : ℕ) (o : String) (rs : List Report) (e : ObservationEnvelope) (a : Asset)
    → FirstAt t o rs
    → t ≤ e.observed_at
    → FirstAt t o (rs ++ (e, a) ∷ [])
unfolding FirstAt
FirstAt-later t o [] e a h k = elim h [ ]
FirstAt-later t o ((e', a') ∷ rest) e a (inl h) k =
    inl (h.0, h.1, All-append _ rest ((e, a) ∷ []) h.2 (k, tt))
FirstAt-later t o ((e', a') ∷ rest) e a (inr h) k = inr (h.0, FirstAt-later t o rest e a h.1 k)

FirstAt-earlier :
    (t : ℕ) (rs : List Report) (e : ObservationEnvelope) (a : Asset)
    → All (λ r. t ≤ r.0.observed_at) rs
    → e.observed_at < t
    → FirstAt e.observed_at e.observation_id (rs ++ (e, a) ∷ [])
unfolding FirstAt
FirstAt-earlier t [] e a h k = inl (refl, refl, tt)
FirstAt-earlier t ((e', a') ∷ rest) e a h k =
    inr (omega (arith, h.0), FirstAt-earlier t rest e a h.1 k)

LastAt-earlier :
    (t : ℕ) (o : String) (x : Asset) (rs : List Report) (e : ObservationEnvelope) (a : Asset)
    → LastAt t o x rs
    → e.observed_at < t
    → LastAt t o x (rs ++ (e, a) ∷ [])
unfolding LastAt
LastAt-earlier t o x [] e a h k = elim h [ ]
LastAt-earlier t o x ((e', a') ∷ rest) e a (inl h) k =
    inl (h.0, h.1, h.2, All-append _ rest ((e, a) ∷ []) h.3 (k, tt))
LastAt-earlier t o x ((e', a') ∷ rest) e a (inr h) k =
    inr (h.0, LastAt-earlier t o x rest e a h.1 k)

LastAt-later :
    (t : ℕ) (rs : List Report) (e : ObservationEnvelope) (a : Asset)
    → All (λ r. r.0.observed_at ≤ t) rs
    → t ≤ e.observed_at
    → LastAt e.observed_at e.observation_id a (rs ++ (e, a) ∷ [])
unfolding LastAt
LastAt-later t [] e a h k = inl (refl, refl, refl, tt)
LastAt-later t ((e', a') ∷ rest) e a h k = inr (omega (arith, h.0), LastAt-later t rest e a h.1 k)

-- The claim after one more report is as the specification says of all the reports.
pub merge_claim-ClaimSpec :
    (id : String) (o : Option AssetClaim) (e : ObservationEnvelope) (a : Asset) (rs : List Report)
    → ClaimSpec o rs
    → ClaimSpec (some (merge_claim id e a o)) (rs ++ (e, a) ∷ [])
unfolding merge_claim FirstAt LastAt
merge_claim-ClaimSpec id none e a rs h = rw h (inl (refl, refl, tt), inl (refl, refl, refl, tt))
merge_claim-ClaimSpec id (some c) e a rs (f, l) =
    let first = c.source.first_observed_at in
    let last = c.source.last_observed_at in
    let above = FirstAt-bound first c.source.first_observation_id rs f in
    let below = LastAt-bound last c.source.last_observation_id c.asset rs l in
    elim (Bool-cases (ltb e.observed_at first)) [
      | inl early ↦ elim (Bool-cases (ltb e.observed_at last)) [
        | inl before ↦
            rw (early, before)
              (
                FirstAt-earlier first rs e a above (ground arith),
                LastAt-earlier last _ c.asset rs e a l (ground arith),
              )
        | inr not_before ↦
            rw (early, not_before)
              (
                FirstAt-earlier first rs e a above (ground arith),
                LastAt-later last rs e a below (ground arith),
              )
      ]
      | inr not_early ↦ elim (Bool-cases (ltb e.observed_at last)) [
        | inl before ↦
            rw (not_early, before)
              (
                FirstAt-later first _ rs e a f (ground arith),
                LastAt-earlier last _ c.asset rs e a l (ground arith),
              )
        | inr not_before ↦
            rw (not_early, not_before)
              (
                FirstAt-later first _ rs e a f (ground arith),
                LastAt-later last rs e a below (ground arith),
              )
      ]
    ]
