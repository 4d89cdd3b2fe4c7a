-- ===== src/Store/Sqlite/Refines.antt =====
-- sqlite.go: the database implements the repository in memory, statements that fail included.
use topo.Prelude.{ℕ, ◌≡◌, refl, Bool, Option, none, some, List, [], ◌∷◌, inl, inr, Option-cases}
use topo.Prelude.Actions.{Action, OnSome}
use topo.Audit.{AuditText}
use topo.Store.Model.{StoreText}
use topo.Store.Memory as Memory
use topo.Store.Memory.{Memory, new_memory, values, is_certificate_revoked}
use topo.Store.Memory.Writes.{Write, saves, appends, upserts, deletes, revokes, write, write_all}
use topo.Store.Sqlite.Rows.{RowText, RoundTrips, Tables}
use topo.Store.Sqlite.Database.{Connection}
use topo.Store.Sqlite.Saves.{
  save_observation, append_audit_event, upsert_schedule, delete_schedule, revoke_certificate,
}
use topo.Store.Sqlite.Leads.{
  IsAtomic, in_transaction-IsAtomic, exec-IsAtomic, exec_affecting-IsAtomic, lift-bind-IsAtomic,
}
use topo.Store.Sqlite.Represents.{
  Represents, upsert_schedule-Leads, delete_schedule-Leads, revoke_certificate-Leads,
}
use topo.Store.Sqlite.Appends.{append_audit_event-Leads}
use topo.Store.Sqlite.Saved.{save_observation-Leads}

-- Where the value of a method is dropped.
dropped : {S A : Type 0} → S × Option A → S × Option (Unit {0})
dropped (s, none) = (s, none)
dropped (s, some a) = (s, some tt)

dropped-OnSome :
    {Col A : Type 0} (P : A → Tables Col → Type 0) (Q : Tables Col → Type 0)
    (r : Connection Col × Option A)
    → ((a : A) (t : Tables Col) → P a t → Q t)
    → OnSome (λ a. P a r.0.tables) r.1
    → OnSome (λ _. Q (dropped r).0.tables) (dropped r).1
unfolding dropped
dropped-OnSome P Q (c, none) f h = tt
dropped-OnSome P Q (c, some a) f h = f a c.tables h

dropped-tables :
    {Col A : Type 0} (r : Connection Col × Option A) (t : Tables Col)
    → (r.1 ≡ none → r.0.tables ≡ t)
    → (dropped r).1 ≡ none
    → (dropped r).0.tables ≡ t
unfolding dropped
dropped-tables (c, none) t f h = f refl
dropped-tables (c, some a) t f h = cc

module _ {Col : Type 0} (row : RowText Col) (driver : ℕ → Bool) (text : StoreText)
    (audit : AuditText) where
  -- A method that writes, by its name.
  unfoldable pub run_write : Write → Action (Connection Col) (Unit {0})
  unfolding dropped
  run_write (saves e) c = save_observation row driver text e c
  run_write (appends now e) c = dropped (append_audit_event row driver audit now e c)
  run_write (upserts s) c = upsert_schedule row driver s c
  run_write (deletes id) c = delete_schedule row driver id c
  run_write (revokes r) c = dropped (revoke_certificate row driver r c)

  -- The writes of a client that goes on behind an error, with those that succeeded.
  abbrev pub noted : Write → Option (Unit {0}) → List Write → List Write
  noted w none done = done
  noted w (some _) done = w ∷ done

  unfoldable pub execute : List Write → Connection Col → Connection Col × List Write
  execute [] c = (c, [])
  execute (w ∷ ws) c =
      let (c', o) = run_write w c in let (last, done) = execute ws c' in (last, noted w o done)

  pub run_write-IsAtomic : (w : Write) → IsAtomic (run_write w)
  unfolding run_write save_observation append_audit_event upsert_schedule delete_schedule
      revoke_certificate
  run_write-IsAtomic (saves e) = record {
    at =
        (lift-bind-IsAtomic (row.envelope.marshal e) _
          (λ json. in_transaction-IsAtomic driver _)).at;
  }
  run_write-IsAtomic (appends now e) =
      let atomic : IsAtomic (append_audit_event row driver audit now e) =
        lift-bind-IsAtomic (row.detail.marshal e.detail) _
          (λ json. in_transaction-IsAtomic driver _) in
      record {
        at = λ c h.
            dropped-tables (append_audit_event row driver audit now e c) c.tables (atomic.at c) h;
      }
  run_write-IsAtomic (upserts s) = record { at = (exec-IsAtomic driver _).at }
  run_write-IsAtomic (deletes id) = record { at = (exec-IsAtomic driver _).at }
  run_write-IsAtomic (revokes r) =
      let atomic : IsAtomic (revoke_certificate row driver r) = exec_affecting-IsAtomic driver _ in
      record {
        at = λ c h. dropped-tables (revoke_certificate row driver r c) c.tables (atomic.at c) h;
      }

  module _ (trip : RoundTrips row) where
    run_write-OnSome :
        (m : Memory) (w : Write) (c : Connection Col)
        → Represents row c.tables m
        → OnSome
            (λ _. Represents row (run_write w c).0.tables (write text audit m w))
            (run_write w c).1
    unfolding run_write write
    run_write-OnSome m (saves e) c h = (save_observation-Leads row trip driver text e m).at c h
    run_write-OnSome m (appends now e) c h =
        dropped-OnSome (λ _ t. Represents row t (Memory.append_event audit m now e))
          (λ t. Represents row t (Memory.append_event audit m now e))
          (append_audit_event row driver audit now e c) (λ _ t k. k)
          ((append_audit_event-Leads row trip driver m audit now e).at c h)
    run_write-OnSome m (upserts s) c h = (upsert_schedule-Leads row trip driver m s).at c h
    run_write-OnSome m (deletes id) c h = (delete_schedule-Leads row trip driver m id).at c h
    run_write-OnSome m (revokes r) c h =
        dropped-OnSome
          (λ affected t.
            (affected ≡ (Memory.revoke_certificate m r).1)
            × Represents row t (Memory.revoke_certificate m r).0)
          (λ t. Represents row t (Memory.revoke_certificate m r).0)
          (revoke_certificate row driver r c) (λ _ t k. k.1)
          ((revoke_certificate-Leads row trip driver m r).at c h)

    -- Whatever statements fail, the tables hold what the repository in memory holds after the
    -- writes that succeeded, and after those alone: a write that fails leaves no trace.
    pub execute-Represents :
        (ws : List Write) (c : Connection Col) (m : Memory)
        → Represents row c.tables m
        → Represents row (execute ws c).0.tables (write_all text audit m (execute ws c).1)
    unfolding execute write_all
    execute-Represents [] c m h = h
    execute-Represents (w ∷ ws) c m h = elim (Option-cases (run_write w c).1) [
      | inl failed ↦
          rw failed
            (execute-Represents ws (run_write w c).0 m (rw ((run_write-IsAtomic w).at c failed) h))
      | inr (_, done) ↦ rw done (
          execute-Represents ws (run_write w c).0 (write text audit m w)
            (rw done at (run_write-OnSome m w c h)))
    ]
