-- ===== src/Store/Sqlite/Database.antt =====
-- sqlite.go: statements and transactions. `driver` says of each statement, by its number on the
-- connection, whether the database carries it out: `Open` allows one connection, so statements
-- never interleave with those of another caller's transaction.
use topo.Prelude.{ℕ, ◌+◌, Bool, Option, none, some, if◌then◌else◌}
use topo.Prelude.Actions.{Action, return, ◌>>=◌, ◌>>◌}
use topo.Store.Sqlite.Rows.{Tables}

pub record Connection (Col : Type 0) : Type 0 where
  pub tables : Tables Col
  pub statements : ℕ

module _ {Col : Type 0} (driver : ℕ → Bool) where
  abbrev counted : Connection Col → Connection Col
  counted c = record c { statements = c.statements + 1 }

  abbrev written : Connection Col → Option (Tables Col) → Connection Col × Option (Unit {0})
  written c none = (c, none)
  written c (some t) = (record c { tables = t }, some tt)

  -- A statement that writes; `none` is a broken constraint.
  unfoldable pub exec : (Tables Col → Option (Tables Col)) → Action (Connection Col) (Unit {0})
  exec change c =
      if driver c.statements then written (counted c) (change c.tables) else (counted c, none)

  -- A statement that writes and says whether it changed a row, by `RowsAffected`.
  unfoldable pub exec_affecting : (Tables Col → Tables Col × Bool) → Action (Connection Col) Bool
  exec_affecting change c =
      let (t, affected) = change c.tables in
      if driver c.statements
      then (record (counted c) { tables = t }, some affected)
      else (counted c, none)

  -- A statement that reads.
  unfoldable pub query : {A : Type 0} → (Tables Col → A) → Action (Connection Col) A
  query read c =
      if driver c.statements then (counted c, some (read c.tables)) else (counted c, none)

  abbrev pub rolled_back :
      {A : Type 0} → Tables Col → Connection Col × Option A → Connection Col × Option A
  rolled_back before (c, some a) = (c, some a)
  rolled_back before (c, none) = (record c { tables = before }, none)

  -- `BeginTx`, the body and `Commit`, with the deferred `Rollback` where one of them fails.
  unfoldable pub in_transaction :
      {A : Type 0} → Action (Connection Col) A → Action (Connection Col) A
  in_transaction body c =
      rolled_back c.tables
        ((exec (λ t. some t) >> (body >>= λ a. exec (λ t. some t) >> return a)) c)
