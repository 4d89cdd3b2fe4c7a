-- ===== src/Mid/Journal/Examples.antt =====
-- Runs of the journal, with a text of an entry that is its record's ID in brackets.
use topo.Prelude.{
  ◌≡◌, ◌||◌, refl, true, String, none, some, [], ◌∷◌, ◌++◌, leb→le, arith, if◌then◌else◌, codes,
  bytes_eq, not, ltb, length,
}
use topo.Audit.{Text}
use topo.Mid.Records.{is_sys_id}
use topo.Mid.Journal.{
  max_journal_bytes, JournalEntry, JournalText, appended, validate_journal_entry, save, load,
}
use topo.Mid.Journal.Reference.{split_lines, read_split, load-read_split}
use topo.Mid.Journal.RoundTrip.{IsLine, lines_of, load-save, save_after_cut}

abbrev entry_of : String → JournalEntry
entry_of id = record {
  version = 1;
  record_id = id;
  record_digest = "00000000000000000000000000000000000000000000000000000000000000aa";
  result = none;
  response_sys_id = "";
}

abbrev first : JournalEntry
first = entry_of "000000000000000000000000000000a1"

abbrev second : JournalEntry
second = entry_of "000000000000000000000000000000b2"

abbrev bracketed : JournalEntry → Text
bracketed e = 91 ∷ codes e.record_id ++ codes "]"

abbrev toy_text : JournalText
toy_text = record {
  encode = bracketed;
  decode = λ line.
      if bytes_eq line (bracketed first)
      then some first
      else if bytes_eq line (bracketed second)
      then some second
      else none;
}

first-IsLine : IsLine toy_text first
unfolding validate_journal_entry is_sys_id bytes_eq
first-IsLine = (refl, refl, ground arith)

second-IsLine : IsLine toy_text second
unfolding validate_journal_entry is_sys_id bytes_eq
second-IsLine = (refl, refl, ground arith)

-- Two entries, and an append of which three bytes were written.
abbrev cut_file : Text
cut_file = lines_of toy_text (first ∷ second ∷ []) ++ codes "[00"

load-read_split_example : load toy_text (some cut_file) true ≡ (
    if not true || ltb max_journal_bytes (length cut_file)
    then none
    else elim (read_split toy_text (split_lines cut_file) none) [
      | none ↦ none
      | some e ↦ some (some e)
    ])
load-read_split_example = load-read_split toy_text cut_file true

load-save_example :
    load toy_text (save toy_text (some (lines_of toy_text (first ∷ []))) second appended).0 true
    ≡ some (some second)
unfolding bytes_eq lines_of
load-save_example =
    load-save toy_text (first ∷ []) second (first-IsLine, tt) second-IsLine refl (leb→le _ _ refl)
      (leb→le _ _ refl)

save_after_cut_example :
    ((save toy_text (some (lines_of toy_text (first ∷ []) ++ codes "[00")) second appended).1
      ≡ true)
    × (load toy_text
          (save toy_text (some (lines_of toy_text (first ∷ []) ++ codes "[00")) second appended).0
          true
        ≡ none)
unfolding bytes_eq lines_of
save_after_cut_example =
    save_after_cut toy_text (first ∷ []) (codes "[00") second (first-IsLine, tt) (ground arith) refl
      second-IsLine (leb→le _ _ refl)
