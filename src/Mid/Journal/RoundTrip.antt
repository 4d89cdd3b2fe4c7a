-- ===== src/Mid/Journal/RoundTrip.antt =====
-- state.go: what `Load` finds of what `Save` wrote, whole or cut short.
use mathlib.Core.List.{append_assoc, append-nil}
use topo.Prelude.{
  ◌+◌, ◌≤◌, ◌≡◌, refl, sym, ◌∙◌, ap, true, false, ◌==◌, Option, none, some, List, [], ◌∷◌, ◌++◌,
  length, All, All-append, arith, ltb, Bool-cases, inl, inr,
}
use topo.Audit.{Text}
use topo.Mid.Records.{max_ecc_record_json_bytes}
use topo.Mid.Journal.{
  JournalEntry, JournalText, max_journal_bytes, validate_journal_entry, appended, read_line,
  read_tail, read_lines, load, save, written,
}

-- The bytes have no newline.
abbrev pub OneLine : Text → Type 0
OneLine = All (λ b. (b == 10) ≡ false)

module _ (text : JournalText) where
  -- The file of a journal: one line for each entry.
  unfoldable pub lines_of : List JournalEntry → Text
  lines_of [] = []
  lines_of (e ∷ es) = text.encode e ++ (10 ∷ lines_of es)

  -- A valid entry with a JSON text that is one line and decodes to the entry, as encoding/json does
  -- for texts that are UTF-8.
  abbrev pub IsLine : JournalEntry → Type 0
  IsLine e =
      (validate_journal_entry e ≡ true)
      × (text.decode (text.encode e) ≡ some e)
      × OneLine (text.encode e)

  read_lines-append :
      (line bytes rest : Text) (last : Option JournalEntry)
      → OneLine bytes
      → read_lines text line (bytes ++ rest) last ≡ read_lines text (line ++ bytes) rest last
  unfolding read_lines
  read_lines-append line [] rest last h = rw (append-nil line) refl
  read_lines-append line (b ∷ bs) rest last h =
      rw (h.0, read_lines)
        (read_lines-append (line ++ b ∷ []) bs rest last h.1
          ∙ ap (λ l. read_lines text l rest last) (append_assoc line (b ∷ []) bs))

  load_file :
      (file : Text) {r : Option JournalEntry}
      → read_lines text [] file none ≡ r
      → length file ≤ max_journal_bytes
      → load text (some file) true ≡ elim r [ none ↦ none | some e ↦ some (some e) ]
  unfolding load
  load_file file found small = elim (Bool-cases (ltb max_journal_bytes (length file))) [
    | inl large ↦ ground arith
    | inr fits ↦ rw fits (
        ap
          (λ r. elim r as (λ x. Option (Option JournalEntry)) [
            | none ↦ none
            | some e ↦ some (some e)
          ])
          found)
  ]

  load_refused :
      (file : Text) → read_lines text [] file none ≡ none → load text (some file) true ≡ none
  unfolding load
  load_refused file refused = elim (Bool-cases (ltb max_journal_bytes (length file))) [
    | inl large ↦ rw large refl
    | inr fits ↦ rw (fits, refused, load) refl
  ]

  -- A line that does not decode.
  read_lines-bad :
      (bytes rest : Text) (last : Option JournalEntry)
      → OneLine bytes
      → text.decode bytes ≡ none
      → read_lines text [] (bytes ++ (10 ∷ rest)) last ≡ none
  unfolding read_lines read_line
  read_lines-bad bytes rest last o d =
      read_lines-append [] bytes (10 ∷ rest) last o ∙ rw (d, read_line, read_lines) refl

  read_lines-encode :
      (e : JournalEntry) (rest : Text) (last : Option JournalEntry)
      → IsLine e
      → read_lines text [] (text.encode e ++ (10 ∷ rest)) last ≡ read_lines text [] rest (some e)
  unfolding read_lines read_line
  read_lines-encode e rest last v =
      read_lines-append [] (text.encode e) (10 ∷ rest) last v.2
      ∙ rw (v.1, read_line, read_lines) (rw (v.0) refl)

  read_lines-lines_of :
      (es : List JournalEntry) (e : JournalEntry) (rest : Text) (last : Option JournalEntry)
      → All IsLine es
      → IsLine e
      → read_lines text [] (lines_of es ++ (text.encode e ++ (10 ∷ rest))) last
        ≡ read_lines text [] rest (some e)
  unfolding lines_of
  read_lines-lines_of [] e rest last vs v = read_lines-encode e rest last v
  read_lines-lines_of (d ∷ es) e rest last vs v =
      ap (λ t. read_lines text [] t last)
        (append_assoc (text.encode d) (10 ∷ lines_of es) (text.encode e ++ (10 ∷ rest)))
      ∙ read_lines-encode d (lines_of es ++ (text.encode e ++ (10 ∷ rest))) last vs.0
      ∙ read_lines-lines_of es e rest (some d) vs.1 v

  read_lines-lines_of_bad :
      (es : List JournalEntry) (bytes : Text) (last : Option JournalEntry)
      → All IsLine es
      → OneLine bytes
      → text.decode bytes ≡ none
      → read_lines text [] (lines_of es ++ (bytes ++ (10 ∷ []))) last ≡ none
  unfolding lines_of
  read_lines-lines_of_bad [] bytes last vs o d = read_lines-bad bytes [] last o d
  read_lines-lines_of_bad (e ∷ es) bytes last vs o d =
      ap (λ t. read_lines text [] t last)
        (append_assoc (text.encode e) (10 ∷ lines_of es) (bytes ++ (10 ∷ [])))
      ∙ read_lines-encode e (lines_of es ++ (bytes ++ (10 ∷ []))) last vs.0
      ∙ read_lines-lines_of_bad es bytes (some e) vs.1 o d

  -- A tail without a newline that does not decode.
  read_lines-tail :
      (tail : Text) (e : JournalEntry)
      → OneLine tail
      → text.decode tail ≡ none
      → read_lines text [] tail (some e) ≡ some e
  unfolding read_lines read_tail
  read_lines-tail [] e o d = refl
  read_lines-tail (b ∷ bs) e o d =
      ap (λ t. read_lines text [] t (some e)) (sym (append-nil (b ∷ bs)))
      ∙ read_lines-append [] (b ∷ bs) [] (some e) o
      ∙ rw (d, read_tail, read_lines) refl

  -- The entry that was saved last is the one that is loaded, also where a later append was cut
  -- short: after it the file ends, or goes on with a part of a line that does not decode.
  load-lines_of :
      (es : List JournalEntry) (e : JournalEntry) (tail : Text)
      → All IsLine es
      → IsLine e
      → OneLine tail
      → text.decode tail ≡ none
      → length (lines_of es ++ (text.encode e ++ (10 ∷ tail))) ≤ max_journal_bytes
      → load text (some (lines_of es ++ (text.encode e ++ (10 ∷ tail)))) true ≡ some (some e)
  unfolding load
  load-lines_of es e tail vs v o d small =
      load_file _ (read_lines-lines_of es e tail none vs v ∙ read_lines-tail tail e o d) small

  -- An entry that `Save` has accepted behind whole lines is the one that `Load` returns.
  pub load-save :
      (es : List JournalEntry) (e : JournalEntry)
      → All IsLine es
      → IsLine e
      → text.decode [] ≡ none
      → (length (text.encode e) + 1 ≤ max_ecc_record_json_bytes)
      → length (lines_of es ++ (text.encode e ++ (10 ∷ []))) ≤ max_journal_bytes
      → load text (save text (some (lines_of es)) e appended).0 true ≡ some (some e)
  unfolding save written
  load-save es e vs v d short small =
      elim (Bool-cases (ltb max_ecc_record_json_bytes (length (text.encode e) + 1))) [
        | inl long ↦ ground arith
        | inr fits ↦ rw (v.0, fits) (load-lines_of es e [] vs v tt d small)
      ]

  regroup :
      (es : List JournalEntry) (tail : Text) (e : JournalEntry)
      → (lines_of es ++ tail) ++ (text.encode e ++ (10 ∷ []))
        ≡ lines_of es ++ ((tail ++ text.encode e) ++ (10 ∷ []))
  regroup es tail e = simp append_assoc

  -- After an append that was cut short, the next entry that `Save` accepts makes a journal that
  -- `Load` refuses, where the part of the line before it does not decode with it: the line of the
  -- part is never ended.
  pub save_after_cut :
      (es : List JournalEntry) (tail : Text) (e : JournalEntry)
      → All IsLine es
      → OneLine tail
      → text.decode (tail ++ text.encode e) ≡ none
      → IsLine e
      → length (text.encode e) + 1 ≤ max_ecc_record_json_bytes
      → ((save text (some (lines_of es ++ tail)) e appended).1 ≡ true)
        × (load text (save text (some (lines_of es ++ tail)) e appended).0 true ≡ none)
  unfolding save written
  save_after_cut es tail e vs o d v short =
      elim (Bool-cases (ltb max_ecc_record_json_bytes (length (text.encode e) + 1))) [
        | inl long ↦ ground arith
        | inr fits ↦
            rw (v.0, fits)
              (
                refl,
                load_refused _ (
                    ap (λ t. read_lines text [] t none) (regroup es tail e)
                    ∙ read_lines-lines_of_bad es (tail ++ text.encode e) none vs
                        (All-append _ tail (text.encode e) o (v.2)) d),
              )
      ]
