-- ===== src/Agent/Run/Kept.antt =====
-- run.go: what becomes of an observation in the spool.
use topo.Prelude.{
  ℕ, ◌≤◌, ◌≡◌, ◌≢◌, ltb, false, subst, ◌⊎◌, inl, inr, true, String, str_eq, eq_iff, some, List, [],
  ◌∷◌, arith, lookup, lookup-delete, Bool-cases, Option-cases,
}
use topo.Store.Model.{ObservationEnvelope}
use topo.Agent.Spool.{SpoolFile, pending, read, remove}
use topo.Agent.Run.{
  Delivery, delivered, rejected, unreachable, classify, Outside, Agent, called, note, send,
  remove_entry, after_send, drain_one, drain_entries, drain_spool,
}

pub data Among (e : ObservationEnvelope) : List ObservationEnvelope → Type 0 where
  newest : (rest : List ObservationEnvelope) → Among e (e ∷ rest)
  older :
      (other : ObservationEnvelope) (rest : List ObservationEnvelope)
      → Among e rest
      → Among e (other ∷ rest)

-- The controller took the observation, or refused it for good.
abbrev pub Answered : Agent → ObservationEnvelope → Type 0
Answered a e = Among e a.taken ⊎ Among e a.refused

-- The entry is in the spool as it was, or its observation is answered.
abbrev pub Fate : String → SpoolFile → ObservationEnvelope → Agent → Type 0
Fate name file e a = (lookup a.spool.entries name ≡ some file) ⊎ Answered a e

module _ (world : Outside) (name : String) (file : SpoolFile) (e : ObservationEnvelope) where
  note-Answered :
      (a : Agent) (other : ObservationEnvelope) (d : Delivery)
      → Answered a e
      → Answered (note world a other d) e
  unfolding note
  note-Answered a other delivered (inl t) = inl (older other a.taken t)
  note-Answered a other delivered (inr r) = inr r
  note-Answered a other rejected (inl t) = inl t
  note-Answered a other rejected (inr r) = inr (older other a.refused r)
  note-Answered a other unreachable h = h

  pub note-Fate :
      (a : Agent) (other : ObservationEnvelope) (d : Delivery)
      → Fate name file e a
      → Fate name file e (note world a other d)
  unfolding note
  note-Fate a other delivered (inl l) = inl l
  note-Fate a other rejected (inl l) = inl l
  note-Fate a other unreachable (inl l) = inl l
  note-Fate a other d (inr h) = inr (note-Answered a other d h)

  remove_entry-Fate :
      (a : Agent) (other : String)
      → other ≢ name
      → Fate name file e a
      → Fate name file e (remove_entry world a other)
  unfolding remove_entry remove
  remove_entry-Fate a other ne (inr h) = inr h
  remove_entry-Fate a other ne (inl l) = elim (Bool-cases (world.removable a.calls)) [
    | inr f ↦ rw (f, remove_entry) (inl l)
    | inl t ↦
        rw (t, remove_entry)
          (inl (ground (arith, lookup-delete a.spool.entries other name, eq_iff name other)))
  ]

  after_send-Fate :
      (a : Agent) (other : String) (d : Delivery)
      → other ≢ name
      → Fate name file e a
      → Fate name file e (after_send world other (a, d)).0
  unfolding after_send
  after_send-Fate a other delivered ne h = remove_entry-Fate a other ne h
  after_send-Fate a other rejected ne h = remove_entry-Fate a other ne h
  after_send-Fate a other unreachable ne h = h

  -- The entry itself is sent, and removed only where the controller answered it.
  sent-Fate :
      (a : Agent) (d : Delivery)
      → Fate name file e a
      → Fate name file e (after_send world name (note world a e d, d)).0
  unfolding after_send remove_entry note
  sent-Fate a delivered h = inr (inl (newest a.taken))
  sent-Fate a rejected h = inr (inr (newest a.refused))
  sent-Fate a unreachable h = h

  module _ (holds : file.contents ≡ some e) (fits : file.size ≤ 8388608)
      (reads : (n : ℕ) → world.readable n ≡ true) where
    read_itself :
        (a : Agent)
        → lookup a.spool.entries name ≡ some file
        → read a.spool name (world.readable a.calls) ≡ some e
    unfolding read
    read_itself a l =
        let short : ltb 8388608 file.size ≡ false = ground arith in
        rw (reads a.calls) (rw (l, read, short) holds)

    after_send-Answered :
        (other : String) (b : Agent) (x : ObservationEnvelope) (d : Delivery)
        → Answered b e
        → Answered (after_send world other (note world b x d, d)).0 e
    unfolding after_send remove_entry
    after_send-Answered other b x delivered k = note-Answered b x delivered k
    after_send-Answered other b x rejected k = note-Answered b x rejected k
    after_send-Answered other b x unreachable k = note-Answered b x unreachable k

    drain_one-Answered :
        (a : Agent) (other : String) → Answered a e → Answered (drain_one world a other).0 e
    unfolding drain_one send remove_entry
    drain_one-Answered a other h =
        elim (Option-cases (read a.spool other (world.readable a.calls))) [
          | inl none_there ↦ rw (none_there, drain_one) h
          | inr (x, there) ↦
              rw (there, drain_one)
                (after_send-Answered other (called a) x (classify (world.status (called a).calls))
                  h)
        ]

    other_Fate :
        (a : Agent) (other : String)
        → other ≢ name
        → Fate name file e a
        → Fate name file e (drain_one world a other).0
    unfolding drain_one send
    other_Fate a other ne h = elim (Option-cases (read a.spool other (world.readable a.calls))) [
      | inl none_there ↦ rw (none_there, drain_one) (remove_entry-Fate (called a) other ne h)
      | inr (x, there) ↦
          rw (there, drain_one)
            (after_send-Fate _ other _ ne
              (note-Fate (called a) x (classify (world.status (called a).calls)) h))
    ]

    itself_Fate :
        (a : Agent)
        → lookup a.spool.entries name ≡ some file
        → Fate name file e (drain_one world a name).0
    unfolding drain_one send
    itself_Fate a l =
        rw (read_itself a l, drain_one)
          (sent-Fate (called a) (classify (world.status (called a).calls)) (inl l))

    drain_one-Fate :
        (a : Agent) (other : String)
        → Fate name file e a
        → Fate name file e (drain_one world a other).0
    drain_one-Fate a other (inr h) = inr (drain_one-Answered a other h)
    drain_one-Fate a other (inl l) = elim (Bool-cases (str_eq other name)) [
      | inl t ↦
          let same : name ≡ other = ground (arith, eq_iff other name) in
          subst (λ n. Fate name file e (drain_one world a n).0) same (itself_Fate a l)
      | inr f ↦ other_Fate a other (ground (arith, eq_iff other name)) (inl l)
    ]

    drain_entries-Fate :
        (names : List String) (a : Agent)
        → Fate name file e a
        → Fate name file e (drain_entries world names a)
    unfolding drain_entries
    drain_entries-Fate [] a h = h
    drain_entries-Fate (other ∷ names) a h = elim (Bool-cases (world.stopped a.calls)) [
      | inl t ↦ rw (t, drain_entries) h
      | inr f ↦ elim (Bool-cases (drain_one world a other).1) [
        | inl t ↦ rw (f, t, drain_entries) (drain_entries-Fate names _ (drain_one-Fate a other h))
        | inr s ↦ rw (f, s, drain_entries) (drain_one-Fate a other h)
      ]
    ]

    -- Whatever is answered, the drain keeps the entry or has its observation answered.
    pub drain_spool-Fate : (a : Agent) → Fate name file e a → Fate name file e (drain_spool world a)
    unfolding drain_spool
    drain_spool-Fate a h = elim (Bool-cases (world.listable a.calls)) [
      | inl t ↦ rw (t, drain_spool) (drain_entries-Fate (pending a.spool) (called a) h)
      | inr f ↦ rw (f, drain_spool) h
    ]
