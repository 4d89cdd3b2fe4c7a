-- ===== src/Relay/Spool/Bounds.antt =====
-- spool.go: how many bytes the spool takes, whatever writes are cut short.
use topo.Prelude.{ℕ, ◌+◌, ◌≤◌, String, Option, none, some, List, [], ◌∷◌, lookup, Result, ok, err}
use topo.Relay.Spool.{
  PendingDelivery, SpoolText, Spool, Failure, WriteEnd, sum_bytes, file_bytes, total_bytes,
  enqueue_delivery, replace_delivery, remove_entry,
}

-- A file operation, with the answers of the clock and the disk.
pub data FileOp : Type 0 where
  enqueues : PendingDelivery → ℕ → WriteEnd → FileOp
  replaces : String → PendingDelivery → WriteEnd → FileOp
  removes : String → FileOp

module _ {A : Type 0} (size : A → ℕ) where
  -- The bytes that a name takes.
  abbrev bytes_of : Option A → ℕ
  bytes_of none = 0
  bytes_of (some a) = size a

module _ (text : SpoolText) where
  -- The bytes of all entries.
  abbrev pub entry_total : Spool → ℕ
  entry_total s = sum_bytes (file_bytes text) s.entries

  -- What a spool promises about its size: the entries are within the limit, and all files within
  -- the limit and one largest file, of 16 MiB, nonce and tag. No entry is larger than that.
  abbrev pub IsBounded : Spool → Type 0
  IsBounded s =
      (entry_total s ≤ s.max_bytes)
      × (total_bytes text s ≤ s.max_bytes + 16777244)
      × ((name : String) → bytes_of (file_bytes text) (lookup s.entries name) ≤ 16777244)

  -- The spool after it.
  pub after_write : Result Failure Spool → Spool
  after_write (err (e, s)) = s
  after_write (ok t) = t

  pub file_step : Spool → FileOp → Spool
  file_step s (enqueues d now outcome) = after_write (enqueue_delivery text s d now outcome)
  file_step s (replaces name d outcome) = after_write (replace_delivery text s name d outcome)
  file_step s (removes name) = remove_entry s name

  pub file_steps : Spool → List FileOp → Spool
  file_steps s [] = s
  file_steps s (op ∷ ops) = file_steps (file_step s op) ops
