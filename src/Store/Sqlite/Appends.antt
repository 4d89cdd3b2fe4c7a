-- ===== src/Store/Sqlite/Appends.antt =====
-- sqlite.go: `AppendAuditEvent` against the log in memory.
use topo.Prelude.{
  ℕ, ◌+◌, ◌≡◌, refl, Bool, Option, none, some, List, [], ◌∷◌, ◌++◌, length, get_last?, arith,
}
use topo.Prelude.Actions.{OnSome}
use topo.Audit.{AuditText, Event, Entry, chain, hash_before}
use topo.Audit as Audit
use topo.Store.Memory as Memory
use topo.Store.Memory.{Memory, save_envelope, merge_relationship}
use topo.Store.Sqlite.Rows.{RowText, RoundTrips, AuditRow, Tables, scan_entry}
use topo.Store.Sqlite.Saves.{insert_entry, append_entry, append_audit_event}
use topo.Store.Sqlite.Leads.{
  Leads, Leads-return, Leads-lift, Leads-bind, Leads-query, Leads-exec, Leads-in_transaction,
  Leads-given,
}
use topo.Store.Sqlite.Tables.{append-EntriesAre, newest-last_link}
use topo.Store.Sqlite.Represents.{Represents}

module _ {Col : Type 0} (row : RowText Col) (trip : RoundTrips row) (driver : ℕ → Bool)
    (m : Memory) where
  insert_entry-append :
      (rows rows' : List (AuditRow Col)) (new : AuditRow Col)
      → insert_entry rows new ≡ some rows'
      → rows' ≡ rows ++ new ∷ []
  unfolding insert_entry
  insert_entry-append rows rows' new h = ground arith

  entry-OnSome :
      (audit : AuditText) (now : ℕ) (e : Event) (json : Col)
      → row.detail.marshal e.detail ≡ some json
      → (t : Tables Col) (new : AuditRow Col) (o : Option (List (AuditRow Col)))
      → ((rows : List (AuditRow Col)) → o ≡ some rows → rows ≡ t.audit_entries ++ new ∷ [])
      → new.sequence ≡ length m.audit_entries + 1
      → new.hash
        ≡ (chain audit
            (hash_before (get_last? m.audit_entries))
            (length m.audit_entries + 1)
            now
            e).hash
      → scan_entry row new
        ≡ some (
            chain audit
              (hash_before (get_last? m.audit_entries))
              (length m.audit_entries + 1)
              now
              e)
      → Represents row t m
      → OnSome
          (λ t'. Represents row t' (Memory.append_event audit m now e))
          (elim o [ none ↦ none | some rows ↦ some (record t { audit_entries = rows }) ])
  unfolding Memory.append_event Audit.append_audit_event
  entry-OnSome audit now e json h t new none f p q s r = tt
  entry-OnSome audit now e json h t new (some rows) f p q s r = (
    record {
      observations = r.0.observations;
      index = r.0.index;
      relationships = r.0.relationships;
      audit_entries = rw (f rows refl) (
          append-EntriesAre row 0 (length m.audit_entries + 1) t.audit_entries m.audit_entries new _
            r.0.audit_entries (omega arith) p q s);
      schedules = r.0.schedules;
      revocations = r.0.revocations;
    },
    r.1,
  )

  append_entry-Leads :
      (audit : AuditText) (now : ℕ) (e : Event) (json : Col)
      → row.detail.marshal e.detail ≡ some json
      → Leads
          (λ t. Represents row t m)
          (append_entry row driver audit now e json)
          (λ _ t. Represents row t (Memory.append_event audit m now e))
  unfolding append_entry chain scan_entry
  append_entry-Leads audit now e json h =
      let After : Entry → Tables Col → Type 0 =
        λ _ t. Represents row t (Memory.append_event audit m now e) in
      Leads-bind
        (λ last t.
          (last ≡ (length m.audit_entries, hash_before (get_last? m.audit_entries)))
          × Represents row t m)
        _ _ After
        (Leads-query driver _ _
          (λ t r. (newest-last_link row t.audit_entries m.audit_entries r.0.audit_entries, r)))
        λ last. Leads-given λ linked. rw linked (
          Leads-bind (λ _ t. Represents row t (Memory.append_event audit m now e)) _ _ After
            (Leads-exec driver _ _ λ t r.
              entry-OnSome audit now e json h t _ (insert_entry t.audit_entries _)
                (λ rows s. insert_entry-append t.audit_entries rows _ s) refl refl
                (rw (trip.time now, trip.detail e.detail json h) refl) r)
            (λ _. Leads-return After _ (λ t r. r)))

  pub append_audit_event-Leads :
      (audit : AuditText) (now : ℕ) (e : Event)
      → Leads
          (λ t. Represents row t m)
          (append_audit_event row driver audit now e)
          (λ _ t. Represents row t (Memory.append_event audit m now e))
  unfolding append_audit_event
  append_audit_event-Leads audit now e =
      let After : Entry → Tables Col → Type 0 =
        λ _ t. Represents row t (Memory.append_event audit m now e) in
      Leads-bind (λ json t. (row.detail.marshal e.detail ≡ some json) × Represents row t m) _ _
        After (Leads-lift _ _ (λ json p t r. (p, r)))
        λ json.
          Leads-given
            λ p. Leads-in_transaction driver After _ (append_entry-Leads audit now e json p)
