-- ===== src/Mid/Journal/Entries.antt =====
-- state.go: the entry that `Load` returns.
use topo.Prelude.{
  ◌≡◌, Bool, true, not, ◌||◌, ◌==◌, String, eq_iff, Option, none, some, [], ◌∷◌, ◌++◌, length, ltb,
  if◌then◌else◌, arith, subst, Bool-cases, Option-cases, inl, inr,
}
use topo.Prelude.Actions.{OnSome}
use topo.Audit.{Text}
use topo.Mid.Records.{EccRecord}
use topo.Mid.Journal.{
  JournalEntry, JournalText, max_journal_bytes, validate_journal_entry, result_ok, read_line,
  read_tail, read_lines, load,
}

abbrev IsValid : JournalEntry → Type 0
IsValid e = validate_journal_entry e ≡ true

-- The result of the entry, where it has one, answers the record of the entry.
abbrev pub ResultFits : JournalEntry → Type 0
ResultFits e = OnSome (λ r. r.response_to ≡ e.record_id) e.result

validated : (e : JournalEntry) → OnSome IsValid (if validate_journal_entry e then some e else none)
validated e = elim (Bool-cases (validate_journal_entry e)) [ inl t ↦ rw t t | inr f ↦ rw f tt ]

result_ok-response_to :
    (id : String) (o : Option EccRecord)
    → result_ok id o ≡ true
    → OnSome (λ r. r.response_to ≡ id) o
result_ok-response_to id none h = tt
result_ok-response_to id (some r) h = ground (arith, eq_iff r.response_to id)

pub validate_journal_entry-ResultFits :
    (e : JournalEntry) → validate_journal_entry e ≡ true → ResultFits e
unfolding validate_journal_entry
validate_journal_entry-ResultFits e v = result_ok-response_to e.record_id e.result (ground arith)

module _ (lines : JournalText) where
  read_line-IsValid : (line : Text) → OnSome IsValid (read_line lines line)
  unfolding read_line
  read_line-IsValid line = elim (Option-cases (lines.decode line)) [
    | inl e ↦ rw (e, read_line) tt
    | inr (d, e) ↦ rw (e, read_line) (validated d)
  ]

  read_tail-IsValid :
      (line : Text) (last : Option JournalEntry)
      → OnSome IsValid last
      → OnSome IsValid (read_tail lines line last)
  unfolding read_tail
  read_tail-IsValid [] last h = h
  read_tail-IsValid (b ∷ bs) last h = elim (Option-cases (lines.decode (b ∷ bs))) [
    | inl e ↦ rw (e, read_tail) h
    | inr (d, e) ↦ rw (e, read_tail) (validated d)
  ]

  read_lines-IsValid :
      (line bytes : Text) (last : Option JournalEntry)
      → OnSome IsValid last
      → OnSome IsValid (read_lines lines line bytes last)
  unfolding read_lines
  read_lines-IsValid line [] last h = read_tail-IsValid line last h
  read_lines-IsValid line (b ∷ bs) last h = elim (Bool-cases (b == 10)) [
    | inl t ↦ elim (Option-cases (read_line lines line)) [
      | inl e ↦ rw (t, e, read_lines) tt
      | inr (d, e) ↦
          rw (t, e, read_lines)
            (read_lines-IsValid [] bs (some d) (subst (OnSome IsValid) e (read_line-IsValid line)))
    ]
    | inr f ↦ rw (f, read_lines) (read_lines-IsValid (line ++ b ∷ []) bs last h)
  ]

  found_entry :
      (o : Option JournalEntry)
      → OnSome IsValid o
      → OnSome
          (OnSome ResultFits)
          (elim o as (λ x. Option (Option JournalEntry)) [ none ↦ none | some e ↦ some (some e) ])
  found_entry none h = tt
  found_entry (some e) h = validate_journal_entry-ResultFits e h

  -- The file may hold any bytes.
  pub load-ResultFits :
      (file : Option Text) (readable : Bool) → OnSome (OnSome ResultFits) (load lines file readable)
  unfolding load
  load-ResultFits none readable = tt
  load-ResultFits (some file) readable =
      elim (Bool-cases (not readable || ltb max_journal_bytes (length file))) [
        | inl t ↦ rw (t, load) tt
        | inr f ↦ rw (f, load) (found_entry _ (read_lines-IsValid [] file none tt))
      ]
