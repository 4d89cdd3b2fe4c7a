-- ===== src/Agent/Spool.antt =====
-- internal/agent/spool.go: the directory of encrypted observations. An entry is kept as what it
-- decrypts to, with the length of its ciphertext.
use topo.Prelude.{
  ℕ, ◌+◌, Bool, true, false, String, codes, Option, none, some, List, [], ◌∷◌, map, ltb,
  if◌then◌else◌, GoMap, lookup, store, delete, sort_slice, bytes_less,
}
use topo.Store.Model.{ObservationEnvelope}

-- 8 << 20
abbrev pub max_spool_file_bytes : ℕ
max_spool_file_bytes = 8388608

-- `none` for an entry that was tampered with or does not decode.
pub record SpoolFile : Type 0 where
  pub size : ℕ
  pub contents : Option ObservationEnvelope

-- The entries of the directory by their names, and the bytes of files that were not renamed.
pub record Spool : Type 0 where
  pub entries : GoMap SpoolFile
  pub temporary : ℕ
  pub max_bytes : ℕ

-- How a write ends: the entry stands under its name; nothing was renamed and the temporary file
-- removed; or some bytes of a temporary file are left.
pub data WriteEnd : Type 0 where
  written discarded : WriteEnd
  left_over : ℕ → WriteEnd

abbrev entry_bytes : GoMap SpoolFile → ℕ
entry_bytes [] = 0
entry_bytes ((name, file) ∷ rest) = file.size + entry_bytes rest

-- `totalBytesLocked`
unfoldable pub total_bytes : Spool → ℕ
total_bytes s = entry_bytes s.entries + s.temporary

unfoldable pub end_write : Spool → String → SpoolFile → WriteEnd → Spool × Bool
end_write s name file written = (record s { entries = store s.entries name file }, true)
end_write s name file discarded = (s, false)
end_write s name file (left_over bytes) = (record s { temporary = s.temporary + bytes }, false)

-- `Enqueue` under a new name: the spool, and whether it returned no error.
unfoldable pub enqueue : Spool → String → SpoolFile → WriteEnd → Spool × Bool
unfolding end_write total_bytes
enqueue s name file outcome =
    if ltb s.max_bytes (total_bytes s + file.size)
    then (s, false)
    else end_write s name file outcome

abbrev name_of : String × SpoolFile → String
name_of (name, file) = name

abbrev name_less : String → String → Bool
name_less a b = bytes_less (codes a) (codes b)

-- `Pending`
unfoldable pub pending : Spool → List String
pending s = sort_slice name_less (map name_of s.entries)

-- What is read of a file: an error where its ciphertext is too long.
abbrev pub contents_of : Option SpoolFile → Option ObservationEnvelope
contents_of none = none
contents_of (some file) = if ltb max_spool_file_bytes file.size then none else file.contents

-- `Read`, of a file that can be opened and read or not.
unfoldable pub read : Spool → String → Bool → Option ObservationEnvelope
read s name readable = if readable then contents_of (lookup s.entries name) else none

-- `Remove`, which the disk may refuse.
unfoldable pub remove : Spool → String → Bool → Spool
remove s name removable = if removable then record s { entries = delete s.entries name } else s
