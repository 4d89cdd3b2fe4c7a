-- ===== src/Mid/Journal.antt =====
-- internal/mid/state.go: the journal of the claim in progress, a file of JSON lines that is only
-- appended to and finally removed. The lock of the identity makes one process its only user.
pub mod Entries
mod Examples
pub mod Reference
pub mod RoundTrip
use topo.Prelude.{
  ℕ, zero, suc, ◌+◌, ◌*◌, ◌≡◌, Bool, true, false, not, ◌&&◌, ◌||◌, ◌==◌, String, str_eq, Option,
  none, some, List, [], ◌∷◌, ◌++◌, any, length, leb, ltb, if◌then◌else◌, codes,
}
use topo.Audit.{Text}
use topo.Mid.Records.{
  EccRecord, is_sys_id, every, is_hex, validate_input_record, max_ecc_record_json_bytes,
}

pub record JournalEntry : Type 0 where
  pub version : ℕ
  pub record_id : String
  pub record_digest : String
  pub result : Option EccRecord
  pub response_sys_id : String

abbrev pub max_journal_bytes : ℕ
max_journal_bytes = 8 * 1048576

-- encoding/json of an entry, and back: `none` where a line is not one entry and nothing else.
pub record JournalText : Type 0 where
  pub encode : JournalEntry → Text
  pub decode : Text → Option JournalEntry

abbrev result_ok : String → Option EccRecord → Bool
result_ok record_id none = true
result_ok record_id (some r) = validate_input_record r r.agent && str_eq r.response_to record_id

unfoldable pub validate_journal_entry : JournalEntry → Bool
validate_journal_entry e =
    e.version == 1
    && is_sys_id e.record_id
    && (length (codes e.record_digest) == 64 && every is_hex (codes e.record_digest))
    && (str_eq e.response_sys_id "" || is_sys_id e.response_sys_id)
    && result_ok e.record_id e.result

-- What an append does to the file: all of it, or an error after the first bytes, or before the file
-- is there.
pub data Append : Type 0 where
  appended not_opened : Append
  cut : ℕ → Append

module _ (text : JournalText) where
  -- An entry of a line that ends in a newline: the file is refused where it is not valid.
  read_line : Text → Option JournalEntry
  read_line line = elim (text.decode line) [
    | none ↦ none
    | some e ↦ if validate_journal_entry e then some e else none
  ]

  -- The end of the file: nothing, an append that was cut short, or an entry without its newline.
  read_tail : Text → Option JournalEntry → Option JournalEntry
  read_tail [] last = last
  read_tail (b ∷ bs) last = elim (text.decode (b ∷ bs)) [
    | none ↦ last
    | some e ↦ if validate_journal_entry e then some e else none
  ]

  -- The loop over the lines, with the current line so far and the last entry.
  unfoldable pub read_lines : Text → Text → Option JournalEntry → Option JournalEntry
  unfolding read_line read_tail
  read_lines line [] last = read_tail line last
  read_lines line (b ∷ bs) last = elim (b == 10) [
    | true ↦ elim (read_line line) [ none ↦ none | some e ↦ read_lines [] bs (some e) ]
    | false ↦ read_lines (line ++ b ∷ []) bs last
  ]

  -- `Load`: an error, or the last entry where there is a file.
  unfoldable pub load : Option Text → Bool → Option (Option JournalEntry)
  load none readable = some none
  load (some file) readable =
      if not readable || ltb max_journal_bytes (length file)
      then none
      else elim (read_lines [] file none) [ none ↦ none | some e ↦ some (some e) ]

  abbrev file_bytes : Option Text → Text
  file_bytes none = []
  file_bytes (some file) = file

  -- `value[:count]`
  abbrev take : ℕ → Text → Text
  take zero bs = []
  take (suc n) [] = []
  take (suc n) (b ∷ bs) = b ∷ take n bs

  written : Option Text → Text → Append → Option Text × Bool
  written file bytes appended = (some (file_bytes file ++ bytes), true)
  written file bytes (cut n) = (some (file_bytes file ++ take n bytes), false)
  written file bytes not_opened = (file, false)

  -- `Save`: the file after it, and whether it returned no error.
  unfoldable pub save : Option Text → JournalEntry → Append → Option Text × Bool
  unfolding written
  save file e outcome =
      if not (validate_journal_entry e)
        || ltb max_ecc_record_json_bytes (length (text.encode e) + 1)
      then (file, false)
      else written file (text.encode e ++ 10 ∷ []) outcome

-- How a removal ends: done, done but not synced, or not done.
pub data Removal : Type 0 where
  removed removed_unsynced not_removed : Removal

unfoldable pub clear : Option Text → Removal → Option Text × Bool
clear none outcome = (none, true)
clear (some file) removed = (none, true)
clear (some file) removed_unsynced = (none, false)
clear (some file) not_removed = (some file, false)
