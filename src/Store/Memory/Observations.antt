-- ===== src/Store/Memory/Observations.antt =====
-- store.go: the list of observations has one entry for each ID, the latest that was saved.
use topo.Prelude.{
  ℕ, zero, suc, ◌≡◌, refl, String, str_eq, eq_iff, Option, none, some, List, [], ◌∷◌, ◌++◌, length,
  arith, sym, ◌&&◌, ◌==◌, ◌≤◌, if◌then◌else◌, GoMap, lookup, lookup-store, count, inl, inr,
  Option-cases,
}
use topo.Store.Model.{ObservationEnvelope, StoreText}
use topo.Store.Memory.{Memory, new_memory, set_at, save_envelope, save_observation}

-- Where an ID stands in the list.
abbrev pub index_of : String → List ObservationEnvelope → Option ℕ
index_of id [] = none
index_of id (x ∷ xs) =
    if str_eq id x.observation_id
    then some 0
    else elim (index_of id xs) [ none ↦ none | some i ↦ some (suc i) ]

-- The specification: replace the entry with this ID, or append.
unfoldable pub upsert : List ObservationEnvelope → ObservationEnvelope → List ObservationEnvelope
upsert [] e = e ∷ []
upsert (x ∷ xs) e =
    let rest = upsert xs e in if str_eq e.observation_id x.observation_id then e ∷ xs else x ∷ rest

set_at-upsert :
    (xs : List ObservationEnvelope) (e : ObservationEnvelope) (i : ℕ)
    → index_of e.observation_id xs ≡ some i
    → set_at xs i e ≡ upsert xs e
unfolding set_at upsert
set_at-upsert [] e i h = cc
set_at-upsert (x ∷ xs) e zero h = ground arith
set_at-upsert (x ∷ xs) e (suc i) h = ground (arith, set_at-upsert xs e i)

append-upsert :
    (xs : List ObservationEnvelope) (e : ObservationEnvelope)
    → index_of e.observation_id xs ≡ none
    → xs ++ e ∷ [] ≡ upsert xs e
unfolding upsert
append-upsert [] e h = refl
append-upsert (x ∷ xs) e h = ground (arith, append-upsert xs e)

index_of-upsert :
    (xs : List ObservationEnvelope) (e : ObservationEnvelope) (id : String)
    → index_of id (upsert xs e) ≡ (
        if str_eq id e.observation_id
        then elim (index_of id xs) [ none ↦ some (length xs) | some i ↦ some i ]
        else index_of id xs)
unfolding upsert
index_of-upsert [] e id = refl
index_of-upsert (x ∷ xs) e id = ground (
  arith,
  index_of-upsert xs e id,
  eq_iff id e.observation_id,
  eq_iff id x.observation_id,
  eq_iff e.observation_id x.observation_id,
)

-- The index names the place of each observation, and nothing else.
abbrev pub IndexAgrees : List ObservationEnvelope → GoMap ℕ → Type 0
IndexAgrees observations index = (id : String) → lookup index id ≡ index_of id observations

pub save_envelope-upsert :
    (xs : List ObservationEnvelope) (index : GoMap ℕ) (e : ObservationEnvelope)
    → IndexAgrees xs index
    → (save_envelope xs index e).0 ≡ upsert xs e
unfolding save_envelope
save_envelope-upsert xs index e h =
    let k = h e.observation_id in
    elim (Option-cases (lookup index e.observation_id)) [
      | inl n ↦ rw (n, save_envelope) (append-upsert xs e (ground arith))
      | inr (i, s) ↦ rw (s, save_envelope) (set_at-upsert xs e i (ground arith))
    ]

pub save_envelope-IndexAgrees :
    (xs : List ObservationEnvelope) (index : GoMap ℕ) (e : ObservationEnvelope)
    → IndexAgrees xs index
    → IndexAgrees (upsert xs e) (save_envelope xs index e).1
unfolding save_envelope
save_envelope-IndexAgrees xs index e h id =
    let k = h e.observation_id in
    let j = h id in
    elim (Option-cases (lookup index e.observation_id)) [
      | inl n ↦
          rw (n, save_envelope)
            (ground (
              arith,
              index_of-upsert xs e id,
              lookup-store index e.observation_id id (length xs),
              eq_iff id e.observation_id,
            ))
      | inr (i, s) ↦
          rw (s, save_envelope)
            (ground (arith, index_of-upsert xs e id, eq_iff id e.observation_id))
    ]

-- A repository after observations, oldest first.
unfoldable pub save_all : StoreText → Memory → List ObservationEnvelope → Memory
save_all text m [] = m
save_all text m (e ∷ es) = save_all text (save_observation text m e) es

pub upsert_all : List ObservationEnvelope → List ObservationEnvelope → List ObservationEnvelope
upsert_all xs [] = xs
upsert_all xs (e ∷ es) = upsert_all (upsert xs e) es

pub empty-IndexAgrees : IndexAgrees [] []
unfolding lookup
empty-IndexAgrees id = refl

save_all-upsert_all :
    (text : StoreText) (m : Memory) (es : List ObservationEnvelope)
    → IndexAgrees m.observations m.observation_index
    → (save_all text m es).observations ≡ upsert_all m.observations es
unfolding save_all upsert_all save_observation
save_all-upsert_all text m [] h = refl
save_all-upsert_all text m (e ∷ es) h =
    rw (sym (save_envelope-upsert m.observations m.observation_index e h)) (
      save_all-upsert_all text (save_observation text m e) es (
        rw (save_envelope-upsert m.observations m.observation_index e h)
          (save_envelope-IndexAgrees m.observations m.observation_index e h)))

-- How many observations have an ID.
abbrev pub times_saved : String → List ObservationEnvelope → ℕ
times_saved id = count (λ e. str_eq id e.observation_id)

-- The latest observation with an ID.
abbrev pub latest : String → List ObservationEnvelope → Option ObservationEnvelope
latest id [] = none
latest id (e ∷ es) = elim (latest id es) [
  | some later ↦ some later
  | none ↦ if str_eq id e.observation_id then some e else none
]

upsert-times_saved :
    (xs : List ObservationEnvelope) (e : ObservationEnvelope) (id : String)
    → times_saved id (upsert xs e)
      ≡ (if str_eq id e.observation_id && times_saved id xs == 0 then 1 else times_saved id xs)
unfolding upsert
upsert-times_saved [] e id = ground arith
upsert-times_saved (x ∷ xs) e id = ground (
  arith,
  upsert-times_saved xs e id,
  eq_iff id e.observation_id,
  eq_iff id x.observation_id,
  eq_iff e.observation_id x.observation_id,
)

absent_latest :
    (xs : List ObservationEnvelope) (id : String) → times_saved id xs ≡ 0 → latest id xs ≡ none
absent_latest [] id h = refl
absent_latest (x ∷ xs) id h = ground (arith, absent_latest xs id)

upsert-latest :
    (xs : List ObservationEnvelope) (e : ObservationEnvelope) (id : String)
    → times_saved id xs ≤ 1
    → latest id (upsert xs e) ≡ (if str_eq id e.observation_id then some e else latest id xs)
unfolding upsert
upsert-latest [] e id h = refl
upsert-latest (x ∷ xs) e id h = ground (
  arith,
  upsert-latest xs e id,
  absent_latest xs id,
  eq_iff id e.observation_id,
  eq_iff id x.observation_id,
  eq_iff e.observation_id x.observation_id,
)

upsert_all-latest :
    (xs es : List ObservationEnvelope) (id : String)
    → times_saved id xs ≤ 1
    → (times_saved id (upsert_all xs es) ≤ 1)
      × (latest id (upsert_all xs es)
          ≡ elim (latest id es) [ some later ↦ some later | none ↦ latest id xs ])
unfolding upsert_all
upsert_all-latest xs [] id h = (h, refl)
upsert_all-latest xs (e ∷ es) id h =
    let once = upsert-times_saved xs e id in
    let rest = upsert_all-latest (upsert xs e) es id (ground arith) in
    (rest.0, ground (arith, rest.1, upsert-latest xs e id h))

-- Whatever observations are saved, and however often, the list has at most one entry for each ID,
-- and that entry is the latest observation saved with it.
pub save_all-latest :
    (text : StoreText) (es : List ObservationEnvelope) (id : String)
    → (times_saved id (save_all text new_memory es).observations ≤ 1)
      × (latest id (save_all text new_memory es).observations ≡ latest id es)
save_all-latest text es id =
    let once = upsert_all-latest [] es id (omega arith) in
    rw (save_all-upsert_all text new_memory es empty-IndexAgrees) (once.0, ground (arith, once.1))
