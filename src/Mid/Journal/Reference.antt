-- ===== src/Mid/Journal/Reference.antt =====
-- state.go: `Load` against a definition that first splits the file into its lines.
use mathlib.Core.List.{append_assoc, append-nil}
use topo.Prelude.{
  ℕ, ◌≡◌, refl, String, str_eq, codes, leb, ◌&&◌, sym, ap, ◌∙◌, Bool, true, false, not, ◌||◌, ◌==◌,
  Option, none, some, List, [], ◌∷◌, ◌++◌, length, ltb, if◌then◌else◌, Bool-cases, Option-cases,
  inl, inr,
}
use topo.Audit.{Text}
use topo.Mid.Records.{EccRecord, every, is_sys_id, validate_input_record}
use topo.Mid.Journal.{
  JournalEntry, JournalText, validate_journal_entry, max_journal_bytes, read_line, read_tail,
  read_lines, load,
}

-- The lines that end in a newline, and what follows the last newline.
abbrev pub Lines : Type 0
Lines = List Text × Text

-- Bytes in front of the first line.
before_first : Text → Lines → Lines
before_first bytes ([], tail) = ([], bytes ++ tail)
before_first bytes (line ∷ lines, tail) = ((bytes ++ line) ∷ lines, tail)

pub split_lines : Text → Lines
unfolding before_first
split_lines [] = ([], [])
split_lines (b ∷ bs) =
    let rest = split_lines bs in
    elim (b == 10) [ true ↦ ([] ∷ rest.0, rest.1) | false ↦ before_first (b ∷ []) rest ]

-- Some hexadecimal digits, as many as said.
abbrev pub is_hex_of : ℕ → String → Bool
is_hex_of n s =
    length (codes s) == n
    && every (λ c. (leb 48 c && leb c 57) || (leb 65 c && leb c 70) || (leb 97 c && leb c 102))
        (codes s)

abbrev pub answer_in_order : String → Option EccRecord → Bool
answer_in_order id none = true
answer_in_order id (some r) = validate_input_record r r.agent && str_eq r.response_to id

-- An entry of version 1 with the ID of a record, a SHA-256, maybe the ID of a response, and maybe
-- a valid answer to that record.
abbrev pub in_order : JournalEntry → Bool
in_order e =
    e.version == 1
    && is_hex_of 32 e.record_id
    && is_hex_of 64 e.record_digest
    && (str_eq e.response_sys_id "" || is_hex_of 32 e.response_sys_id)
    && answer_in_order e.record_id e.result

validate-in_order : (e : JournalEntry) → validate_journal_entry e ≡ in_order e
unfolding validate_journal_entry is_sys_id
validate-in_order e = elim (Option-cases e.result) [
  | inl gone ↦ rw (gone, validate_journal_entry) refl
  | inr (r, found) ↦ rw (found, validate_journal_entry) refl
]

module _ (text : JournalText) where
  -- The tail behind the last newline: nothing, or bytes that are no entry, leave the last entry; an
  -- entry that is in order replaces it, and one that is not makes the file bad.
  pub after_tail : Text → Option JournalEntry → Option JournalEntry
  after_tail [] last = last
  after_tail (b ∷ bs) last = elim (text.decode (b ∷ bs)) [
    | none ↦ last
    | some e ↦ if in_order e then some e else none
  ]

  -- Every whole line has to be an entry that is in order; then the tail counts.
  pub read_all : List Text → Text → Option JournalEntry → Option JournalEntry
  read_all [] tail last = after_tail tail last
  read_all (line ∷ lines) tail last = elim (text.decode line) [
    | none ↦ none
    | some e ↦ if in_order e then read_all lines tail (some e) else none
  ]

  abbrev pub read_split : Lines → Option JournalEntry → Option JournalEntry
  read_split (lines, tail) last = read_all lines tail last

  before_first_empty : (l : Lines) → before_first [] l ≡ l
  unfolding before_first
  before_first_empty ([], tail) = refl
  before_first_empty (line ∷ lines, tail) = refl

  before_first-append :
      (a b : Text) (l : Lines) → before_first a (before_first b l) ≡ before_first (a ++ b) l
  unfolding before_first
  before_first-append a b ([], tail) = ap (λ t. ([], t)) (sym (append_assoc a b tail))
  before_first-append a b (line ∷ lines, tail) =
      ap (λ t. (t ∷ lines, tail)) (sym (append_assoc a b line))

  read_tail-after_tail :
      (tail : Text) (last : Option JournalEntry) → read_tail text tail last ≡ after_tail tail last
  unfolding read_tail after_tail
  read_tail-after_tail [] last = refl
  read_tail-after_tail (b ∷ bs) last = elim (Option-cases (text.decode (b ∷ bs))) [
    | inl d ↦ rw (d, read_tail, after_tail) refl
    | inr (e, d) ↦ rw (d, read_tail, after_tail, validate-in_order e) refl
  ]

  read_line_lem :
      (line : Text)
      → read_line text line
        ≡ (elim (text.decode line) [ none ↦ none | some e ↦ if in_order e then some e else none ])
  unfolding read_line
  read_line_lem line = elim (Option-cases (text.decode line)) [
    | inl d ↦ rw (d, read_line) refl
    | inr (e, d) ↦ rw (d, read_line, validate-in_order e) refl
  ]

  read_lines-read_split :
      (line bytes : Text) (last : Option JournalEntry)
      → read_lines text line bytes last ≡ read_split (before_first line (split_lines bytes)) last
  unfolding read_lines split_lines before_first read_all
  read_lines-read_split line [] last = rw (append-nil line) (read_tail-after_tail line last)
  read_lines-read_split line (b ∷ bs) last = elim (Bool-cases (b == 10)) [
    | inl t ↦
        rw (t, read_lines, split_lines, append-nil line)
          (elim (Option-cases (text.decode line)) [
            | inl d ↦ rw (read_line_lem line, d, read_all) refl
            | inr (e, d) ↦ elim (Bool-cases (in_order e)) [
              | inl good ↦
                  rw (read_line_lem line, d, read_all, good)
                    (read_lines-read_split [] bs (some e)
                      ∙ ap (λ l. read_split l (some e)) (before_first_empty (split_lines bs)))
              | inr bad ↦ rw (read_line_lem line, d, read_all, bad) refl
            ]
          ])
    | inr f ↦
        rw (f, read_lines, split_lines)
          (read_lines-read_split (line ++ b ∷ []) bs last
            ∙ ap (λ l. read_split l last)
                (sym (before_first-append line (b ∷ []) (split_lines bs))))
  ]

  -- `Load` of a file gives what its lines give: an error where it cannot be read, is too large, holds
  -- a whole line that is no entry in order, ends in one that is not in order behind the last
  -- newline, or holds no entry at all; and else the last entry, the one behind the last newline
  -- included, where other bytes there count for nothing.
  pub load-read_split :
      (file : Text) (readable : Bool)
      → load text (some file) readable ≡ (
          if not readable || ltb max_journal_bytes (length file)
          then none
          else elim (read_split (split_lines file) none) [ none ↦ none | some e ↦ some (some e) ])
  unfolding load
  load-read_split file readable =
      ap
        (λ r.
          if not readable || ltb max_journal_bytes (length file)
          then none
          else (elim r as (λ x. Option (Option JournalEntry)) [
            | none ↦ none
            | some e ↦ some (some e)
          ]))
        (read_lines-read_split [] file none
          ∙ ap (λ l. read_split l none) (before_first_empty (split_lines file)))
