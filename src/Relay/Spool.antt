-- ===== src/Relay/Spool.antt =====
-- internal/relay/spool.go and the records of contract.go: the deliveries that wait on disk. AES-GCM
-- adds a nonce of 12 bytes and a tag of 16; entries are kept here as what they decrypt to.
pub mod Writes
pub mod Bounds
use topo.Prelude.{
  ℕ, ◌+◌, ◌-◌, Bool, ◌*◌, ◌≡◌, String, Option, none, some, List, [], ◌∷◌, ◌++◌, ltb, if◌then◌else◌,
  GoMap, lookup, store, delete, sort_slice, Result, ok, err,
}
use Prim.Native.String.{◌++◌ as str_append}
use topo.Store.Model.{ObservationEnvelope, str_less}
use topo.Audit.{Text}

-- Job of contract.go.
pub record RelayJob : Type 0 where
  pub job_id : String
  pub job_type : String
  pub profile_id : String
  pub requested_at : ℕ

-- Error texts are lists of bytes.
pub record PendingDelivery : Type 0 where
  pub job : RelayJob
  pub relay_id : String
  pub started_at : ℕ
  pub completed_at : ℕ
  pub observation : Option ObservationEnvelope
  pub discovery_error : Text
  pub published : Bool
  pub publish_attempts : ℕ
  pub publication_error : Text

-- The length of the JSON of a delivery, and the format of an entry's name.
pub record SpoolText : Type 0 where
  pub json_length : PendingDelivery → ℕ
  pub entry_name : ℕ → ℕ → String

-- A write that is cut short leaves its temporary file in the directory, which then cannot be read
-- as an entry, as what is there of its ciphertext does not pass the integrity check. An error at
-- the closing of a file whose bytes are all there, which could be read, is not modelled.
pub record Spool : Type 0 where
  -- The entries, by name.
  pub entries : GoMap PendingDelivery
  -- The bytes of the temporary files that were left, by name.
  pub temporary : GoMap ℕ
  pub max_bytes : ℕ
  pub seq : ℕ

pub data SpoolError : Type 0 where
  too_large spool_full disk_failed missing : SpoolError

-- A failure with the spool after it.
abbrev pub Failure : Type 0
Failure = SpoolError × Spool

-- How the write of a temporary file and its renaming end: both done; not renamed, and the temporary
-- file removed; not opened; or cut short after some bytes.
pub data WriteEnd : Type 0 where
  written not_renamed not_opened : WriteEnd
  cut : ℕ → WriteEnd

-- 16 << 20
abbrev pub max_relay_entry_bytes : ℕ
max_relay_entry_bytes = 16 * 1048576

abbrev pub temporary_name : String → String
temporary_name name = str_append ".tmp-relay-" name

unfoldable pub sum_bytes : {A : Type 0} → (A → ℕ) → GoMap A → ℕ
sum_bytes size [] = 0
sum_bytes size ((name, a) ∷ rest) = size a + sum_bytes size rest

module _ (text : SpoolText) where
  -- The length of a file: nonce, ciphertext and tag.
  abbrev pub file_bytes : PendingDelivery → ℕ
  file_bytes d = text.json_length d + 28

  -- `totalBytesLocked`
  unfoldable pub total_bytes : Spool → ℕ
  total_bytes s = sum_bytes file_bytes s.entries + sum_bytes (λ n. n) s.temporary

  -- The file of a delivery, and what `WriteFile` and `Rename` make of it.
  unfoldable pub end_write : Spool → String → PendingDelivery → WriteEnd → Result Failure Spool
  end_write s name d written = ok (record s {
    entries = store s.entries name d;
    temporary = delete s.temporary (temporary_name name);
  })
  end_write s name d not_renamed =
      err (disk_failed, record s { temporary = delete s.temporary (temporary_name name) })
  end_write s name d not_opened = err (disk_failed, s)
  end_write s name d (cut n) = err (
    disk_failed,
    record s {
      temporary =
          store s.temporary (temporary_name name)
            (if ltb n (file_bytes d) then n else file_bytes d);
    },
  )

  -- `writeLocked`. The use never falls below the bytes that are replaced, so that the subtraction
  -- is exact.
  unfoldable pub write_entry :
      Spool → String → PendingDelivery → ℕ → WriteEnd → Result Failure Spool
  unfolding end_write
  write_entry s name d replaced outcome =
      if ltb max_relay_entry_bytes (text.json_length d)
      then err (too_large, s)
      else if ltb s.max_bytes (total_bytes s - replaced + file_bytes d)
      then err (spool_full, s)
      else end_write s name d outcome

  -- `Enqueue`: the sequence number is taken even where the write fails.
  unfoldable pub enqueue_delivery : Spool → PendingDelivery → ℕ → WriteEnd → Result Failure Spool
  enqueue_delivery s d now outcome =
      let taken = record s { seq = s.seq + 1 } in
      write_entry taken (text.entry_name now taken.seq) d 0 outcome

  replace_found :
      Spool → String → PendingDelivery → WriteEnd → Option PendingDelivery → Result Failure Spool
  replace_found s name d outcome none = err (missing, s)
  replace_found s name d outcome (some old) = write_entry s name d (file_bytes old) outcome

  -- `Replace`
  unfoldable pub replace_delivery :
      Spool → String → PendingDelivery → WriteEnd → Result Failure Spool
  unfolding replace_found
  replace_delivery s name d outcome = replace_found s name d outcome (lookup s.entries name)

abbrev pub keys {ℓ} : {A : Type ℓ} → GoMap A → List String
keys [] = []
keys ((name, d) ∷ rest) = name ∷ keys rest

-- `Pending`: the name of a temporary file ends like that of an entry.
unfoldable pub pending_names : Spool → List String
pending_names s = sort_slice str_less (keys s.entries ++ keys s.temporary)

-- `Remove`, where the disk lets it.
unfoldable pub remove_entry : Spool → String → Spool
remove_entry s name = record s {
  entries = delete s.entries name;
  temporary = delete s.temporary name;
}
