-- ===== src/Store/Sqlite/Tables.antt =====
-- sqlite.go: the other tables against the repository in memory, one statement at a time.
use topo.Prelude.{
  ℕ, ◌+◌, ◌≡◌, refl, String, str_eq, eq_iff, Option, none, some, List, [], ◌∷◌, ◌++◌, length,
  get_last?, ◌<◌, lt→ltb, ltb, arith, if◌then◌else◌, GoMap, lookup, store, delete, lookup-store,
  lookup-delete, insert_sorted, sort_slice, inl, inr, Bool-cases,
}
use topo.Audit.{Entry, hash_before}
use topo.Store.Model.{ObservationEnvelope, ResolvedRelationship, Schedule, CertificateRevocation}
use topo.Store.Memory.{values}
use topo.Store.Memory.Observations.{upsert}
use topo.Store.Sqlite.Rows.{
  RowText, ObservationRow, RelationshipRow, AuditRow, ScheduleRow, RevocationRow, scan_observation,
  scan_relationship, scan_entry, scan_schedule, scan_revocation, scan_all,
}
use topo.Store.Sqlite.Saves.{last_link, newest_entry}
use topo.Store.Sqlite.Reads.{entry_before}
use topo.Store.Sqlite.ClaimRows.{Same}

module _ {Col : Type 0} (row : RowText Col) where
  -- The rows of observations, in the order of the list.
  abbrev pub ObservationsAre : GoMap (ObservationRow Col) → List ObservationEnvelope → Type 0
  ObservationsAre [] [] = Unit
  ObservationsAre ((id, r) ∷ rest) (e ∷ es) =
      (id ≡ e.observation_id) × (scan_observation row r ≡ some e) × ObservationsAre rest es
  ObservationsAre [] (e ∷ es) = ⊥
  ObservationsAre (r ∷ rest) [] = ⊥

  pub store-ObservationsAre :
      (rows : GoMap (ObservationRow Col)) (es : List ObservationEnvelope) (e : ObservationEnvelope)
      (new : ObservationRow Col)
      → ObservationsAre rows es
      → scan_observation row new ≡ some e
      → ObservationsAre (store rows e.observation_id new) (upsert es e)
  unfolding store upsert
  store-ObservationsAre [] [] e new h s = (refl, s, tt)
  store-ObservationsAre ((id, r) ∷ rest) (x ∷ es) e new h s =
      elim (Bool-cases (str_eq e.observation_id x.observation_id)) [
        | inl same ↦
            rw (h.0, same) (ground (arith, eq_iff e.observation_id x.observation_id), s, h.2)
        | inr other ↦ rw (h.0, other) (refl, h.1, store-ObservationsAre rest es e new h.2 s)
      ]
  store-ObservationsAre [] (x ∷ es) e new h s = elim h [ ]
  store-ObservationsAre (r ∷ rest) [] e new h s = elim h [ ]

  pub ObservationsAre-scan :
      (rows : GoMap (ObservationRow Col)) (es : List ObservationEnvelope)
      → ObservationsAre rows es
      → scan_all (scan_observation row) (values rows) ≡ some es
  unfolding scan_all
  ObservationsAre-scan [] [] h = refl
  ObservationsAre-scan ((id, r) ∷ rest) (e ∷ es) h = rw (h.1, ObservationsAre-scan rest es h.2) refl
  ObservationsAre-scan [] (e ∷ es) h = elim h [ ]
  ObservationsAre-scan (r ∷ rest) [] h = elim h [ ]

  -- The audit log after the first n entries.
  abbrev pub EntriesAre : ℕ → List (AuditRow Col) → List Entry → Type 0
  EntriesAre n [] [] = Unit
  EntriesAre n (r ∷ rest) (e ∷ es) =
      (r.sequence ≡ n + 1)
      × (r.hash ≡ e.hash)
      × (scan_entry row r ≡ some e)
      × EntriesAre (n + 1) rest es
  EntriesAre n [] (e ∷ es) = ⊥
  EntriesAre n (r ∷ rest) [] = ⊥

  pub append-EntriesAre :
      (n k : ℕ) (rows : List (AuditRow Col)) (es : List Entry) (r : AuditRow Col) (e : Entry)
      → EntriesAre n rows es
      → k ≡ n + length es + 1
      → r.sequence ≡ k
      → r.hash ≡ e.hash
      → scan_entry row r ≡ some e
      → EntriesAre n (rows ++ r ∷ []) (es ++ e ∷ [])
  append-EntriesAre n k [] [] r e h p q s t = (omega arith, s, t, tt)
  append-EntriesAre n k (x ∷ rest) (y ∷ es) r e h p q s t =
      (h.0, h.1, h.2, append-EntriesAre (n + 1) k rest es r e h.3 (omega arith) q s t)
  append-EntriesAre n k [] (y ∷ es) r e h p q s t = elim h [ ]
  append-EntriesAre n k (x ∷ rest) [] r e h p q s t = elim h [ ]

  -- The newest entry is the last one, behind n entries with this hash.
  abbrev pub NewestIs : ℕ → Option (AuditRow Col) → List Entry → Type 0
  NewestIs n none es = es ≡ []
  NewestIs n (some r) es =
      (r.sequence ≡ n + length es) × (r.hash ≡ hash_before (get_last? es)) × (0 < length es)

  -- The newest row of a log with one more row in front.
  newest_step :
      (n : ℕ) (r : AuditRow Col) (o : Option (AuditRow Col)) (e : Entry) (es : List Entry)
      → r.sequence ≡ n + 1
      → r.hash ≡ e.hash
      → NewestIs (n + 1) o es
      → NewestIs n
          (elim o [ none ↦ some r | some s ↦ if ltb r.sequence s.sequence then some s else some r ])
          (e ∷ es)
  newest_step n r none e es p q h = rw h (omega (arith, p), q, omega arith)
  newest_step n r (some s) e [] p q h = absurd (omega (arith, h.2))
  newest_step n r (some s) e (f ∷ es) p q h =
      rw (lt→ltb r.sequence s.sequence (omega (arith, h.0, p)))
        (omega (arith, h.0), h.1, omega arith)

  newest-NewestIs :
      (n : ℕ) (rows : List (AuditRow Col)) (es : List Entry)
      → EntriesAre n rows es
      → NewestIs n (newest_entry rows) es
  unfolding newest_entry
  newest-NewestIs n [] [] h = refl
  newest-NewestIs n (r ∷ rest) (e ∷ es) h =
      newest_step n r (newest_entry rest) e es h.0 h.1 (newest-NewestIs (n + 1) rest es h.3)
  newest-NewestIs n [] (e ∷ es) h = elim h [ ]
  newest-NewestIs n (r ∷ rest) [] h = elim h [ ]

  NewestIs-last_link :
      (o : Option (AuditRow Col)) (es : List Entry)
      → NewestIs 0 o es
      → last_link o ≡ (length es, hash_before (get_last? es))
  NewestIs-last_link none es h = rw h refl
  NewestIs-last_link (some r) es h = ground arith

  -- `lastSeq` counts the entries, and `prevHash` is the hash of the last one.
  pub newest-last_link :
      (rows : List (AuditRow Col)) (es : List Entry)
      → EntriesAre 0 rows es
      → last_link (newest_entry rows) ≡ (length es, hash_before (get_last? es))
  newest-last_link rows es h =
      NewestIs-last_link (newest_entry rows) es (newest-NewestIs 0 rows es h)

  pub EntriesAre-sorted :
      (n : ℕ) (rows : List (AuditRow Col)) (es : List Entry)
      → EntriesAre n rows es
      → sort_slice entry_before rows ≡ rows
  unfolding sort_slice insert_sorted
  EntriesAre-sorted n [] [] h = refl
  EntriesAre-sorted n (r ∷ []) (e ∷ es) h = refl
  EntriesAre-sorted n (r ∷ s ∷ rest) (e ∷ f ∷ es) h =
      rw (EntriesAre-sorted (n + 1) (s ∷ rest) (f ∷ es) h.3) (ground arith)
  EntriesAre-sorted n (r ∷ s ∷ rest) (e ∷ []) h = elim h.3 [ ]
  EntriesAre-sorted n [] (e ∷ es) h = elim h [ ]
  EntriesAre-sorted n (r ∷ rest) [] h = elim h [ ]

  pub EntriesAre-scan :
      (n : ℕ) (rows : List (AuditRow Col)) (es : List Entry)
      → EntriesAre n rows es
      → scan_all (scan_entry row) rows ≡ some es
  unfolding scan_all
  EntriesAre-scan n [] [] h = refl
  EntriesAre-scan n (r ∷ rest) (e ∷ es) h = rw (h.2, EntriesAre-scan (n + 1) rest es h.3) refl
  EntriesAre-scan n [] (e ∷ es) h = elim h [ ]
  EntriesAre-scan n (r ∷ rest) [] h = elim h [ ]

  -- Maps by a primary key: the rows are there for the same keys, and are scanned as the values.
  abbrev pub RelationshipsAre : GoMap (RelationshipRow Col) → GoMap ResolvedRelationship → Type 0
  RelationshipsAre rows m =
      (id : String) → Same (scan_relationship row) (lookup rows id) (lookup m id)

  abbrev pub RevocationsAre : GoMap (RevocationRow Col) → GoMap CertificateRevocation → Type 0
  RevocationsAre rows m = (id : String) → Same (scan_revocation row) (lookup rows id) (lookup m id)

  -- Up to the time of creation, which an upsert keeps here and replaces there.
  abbrev pub SameSchedule : Option (ScheduleRow Col) → Option Schedule → Type 0
  SameSchedule none m = m ≡ none
  SameSchedule (some r) m =
      (s : Schedule) × (created_at : ℕ) × (scan_schedule row r
        ≡ some (record s { created_at = created_at }))
      × (m ≡ some s)

  abbrev pub SchedulesAre : GoMap (ScheduleRow Col) → GoMap Schedule → Type 0
  SchedulesAre rows m = (id : String) → SameSchedule (lookup rows id) (lookup m id)

-- A row and a value that are stored under one key, and rows and values that are deleted there.
pub store-Same :
    {R V : Type 0} (S : Option R → Option V → Type 0) (rows : GoMap R) (m : GoMap V) (key : String)
    (r : R) (v : V)
    → ((id : String) → S (lookup rows id) (lookup m id))
    → S (some r) (some v)
    → (id : String) → S (lookup (store rows key r) id) (lookup (store m key v) id)
store-Same S rows m key r v h new id =
    rw (lookup-store rows key id r, lookup-store m key id v)
      (elim (Bool-cases (str_eq id key)) [ inl same ↦ rw same new | inr other ↦ rw other (h id) ])

pub delete-Same :
    {R V : Type 0} (S : Option R → Option V → Type 0) (rows : GoMap R) (m : GoMap V) (key : String)
    → ((id : String) → S (lookup rows id) (lookup m id))
    → S none none
    → (id : String) → S (lookup (delete rows key) id) (lookup (delete m key) id)
delete-Same S rows m key h gone id =
    rw (lookup-delete rows key id, lookup-delete m key id)
      (elim (Bool-cases (str_eq id key)) [ inl same ↦ rw same gone | inr other ↦ rw other (h id) ])
