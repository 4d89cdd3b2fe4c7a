-- ===== src/Relay/Spool/Writes.antt =====
-- spool.go: what a write does to the entries.
use topo.Prelude.{
  ℕ, ◌+◌, ◌-◌, ◌≡◌, refl, String, Option-cases, inl, inr, Bool-cases, ltb, lookup, store, Result,
  ok, err,
}
use topo.Relay.Spool.{
  PendingDelivery, SpoolText, Spool, Failure, WriteEnd, written, not_renamed, not_opened, cut,
  file_bytes, total_bytes, max_relay_entry_bytes, end_write, write_entry, replace_delivery,
}

-- A write stores its entry, or leaves the entries.
abbrev pub WriteSpec : Spool → String → PendingDelivery → Result Failure Spool → Type 0
WriteSpec s name d (ok t) = t.entries ≡ store s.entries name d
WriteSpec s name d (err (e, t)) = t.entries ≡ s.entries

module _ (text : SpoolText) where
  end_write-WriteSpec :
      (s : Spool) (name : String) (d : PendingDelivery) (outcome : WriteEnd)
      → WriteSpec s name d (end_write text s name d outcome)
  unfolding end_write
  end_write-WriteSpec s name d written = refl
  end_write-WriteSpec s name d not_renamed = refl
  end_write-WriteSpec s name d not_opened = refl
  end_write-WriteSpec s name d (cut n) = refl

  write_entry-WriteSpec :
      (s : Spool) (name : String) (d : PendingDelivery) (replaced : ℕ) (outcome : WriteEnd)
      → WriteSpec s name d (write_entry text s name d replaced outcome)
  unfolding write_entry
  write_entry-WriteSpec s name d replaced outcome =
      elim (Bool-cases (ltb max_relay_entry_bytes (text.json_length d))) [
        | inl large ↦ rw (large, write_entry) refl
        | inr small ↦
            elim (Bool-cases
              (ltb s.max_bytes (total_bytes text s - replaced + file_bytes text d))) [
                | inl full ↦ rw (small, full, write_entry) refl
                | inr fits ↦ rw (small, fits, write_entry) (end_write-WriteSpec s name d outcome)
              ]
      ]

  pub replace_delivery-WriteSpec :
      (s : Spool) (name : String) (d : PendingDelivery) (outcome : WriteEnd)
      → WriteSpec s name d (replace_delivery text s name d outcome)
  unfolding replace_delivery
  replace_delivery-WriteSpec s name d outcome = elim (Option-cases (lookup s.entries name)) [
    | inl gone ↦ rw (gone, replace_delivery) refl
    | inr (old, found) ↦
        rw (found, replace_delivery) (write_entry-WriteSpec s name d (file_bytes text old) outcome)
  ]
