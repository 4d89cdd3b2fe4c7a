-- ===== src/Audit.antt =====
-- internal/audit/audit.go: the hash-chained audit log. Texts are lists of code points; SHA-256 and
-- the formats of numbers and times are the parameter `AuditText`.
pub mod Chain
pub mod Fields
pub mod Evidence
mod Examples
use topo.Prelude.{
  ℕ, zero, suc, ◌+◌, ◌≡◌, Bool, true, false, not, Option, none, some, List, [], ◌∷◌, ◌++◌, map,
  length, get_last?, if◌then◌else◌, ◌==◌, bytes_eq, bytes_less, sort_slice, Result, ok, err,
}

abbrev pub Text : Type 0
Text = List ℕ

-- crypto/sha256 with its hexadecimal text, fmt's %d, and `time.RFC3339Nano` of a time in UTC.
pub record AuditText : Type 0 where
  pub sha256_hex : Text → Text
  pub format_int : ℕ → Text
  pub format_time : ℕ → Text

pub record Event : Type 0 where
  pub action : Text
  pub actor : Text
  pub detail : List (Text × Text)

pub record Entry : Type 0 where
  pub sequence : ℕ
  pub recorded_at : ℕ
  pub action : Text
  pub actor : Text
  pub detail : List (Text × Text)
  pub prev_hash : Text
  pub hash : Text

pub data ChainError : Type 0 where
  wrong_sequence wrong_prev_hash wrong_hash : ℕ → ChainError

-- The order of the keys of a detail map.
abbrev pub key_less : Text × Text → Text × Text → Bool
key_less a b = bytes_less a.0 b.0

-- The hash of the last entry, or "" for an empty log.
abbrev pub hash_before : Option Entry → Text
hash_before none = []
hash_before (some last) = last.hash

-- `%s=%s\x00` for each key in order.
pub detail_bytes : List (Text × Text) → Text
detail_bytes [] = []
detail_bytes ((k, v) ∷ rest) = k ++ (b'=' ∷ (v ++ (0 ∷ detail_bytes rest)))

module _ (text : AuditText) where
  open text use {sha256_hex, format_int, format_time}

  -- What `hashEntry` writes into its buffer.
  pub entry_bytes : Entry → Text
  entry_bytes e =
      format_int e.sequence
      ++ (0
          ∷ (format_time e.recorded_at
              ++ (0
                  ∷ (e.action
                      ++ (0
                          ∷ (e.actor
                              ++ (0
                                  ∷ (detail_bytes (sort_slice key_less e.detail)
                                      ++ e.prev_hash))))))))

  pub hash_entry : Entry → Text
  hash_entry e = sha256_hex (entry_bytes e)

  -- `Chain`
  unfoldable pub chain : Text → ℕ → ℕ → Event → Entry
  chain prev_hash sequence recorded_at e =
      let entry : Entry = record {
        sequence = sequence;
        recorded_at = recorded_at;
        action = e.action;
        actor = e.actor;
        detail = e.detail;
        prev_hash = prev_hash;
        hash = [];
      } in
      record entry { hash = hash_entry entry }

  -- The loop of `VerifyChain` from an index on, with the hash of the entry before.
  pub verify_from : ℕ → Text → List Entry → Result ChainError (Unit {0})
  verify_from index prev_hash [] = ok tt
  verify_from index prev_hash (e ∷ rest) =
      let others = verify_from (index + 1) e.hash rest in
      if not (e.sequence == index + 1)
      then err (wrong_sequence index)
      else if not (bytes_eq e.prev_hash prev_hash)
      then err (wrong_prev_hash e.sequence)
      else if not (bytes_eq (hash_entry e) e.hash)
      then err (wrong_hash e.sequence)
      else others

  pub verify_chain : List Entry → Result ChainError (Unit {0})
  verify_chain entries = verify_from 0 [] entries

  -- `AppendAuditEvent` of internal/store/store.go: the log after it.
  unfoldable pub append_audit_event : List Entry → ℕ → Event → List Entry
  append_audit_event entries now e =
      entries ++ chain (hash_before (get_last? entries)) (length entries + 1) now e ∷ []

  -- A log built by appends alone.
  pub append_all : List Entry → List (ℕ × Event) → List Entry
  append_all entries [] = entries
  append_all entries ((now, e) ∷ rest) = append_all (append_audit_event entries now e) rest
