-- ===== src/Mid/Cycle/Once.antt =====
-- run.go: the one response to each record, over cycles that stop with an error at any call.
use topo.Prelude.{
  ℕ, zero, suc, ◌≡◌, refl, sym, ap, ◌∙◌, Bool, true, false, String, str_eq, eq_iff, Option, none,
  some, List, [], ◌∷◌, arith, subst, Bool-cases, inl, inr,
}
use topo.Prelude.Actions.{
  OnSome, OnSome-unit, Ensures, Ensures-return, Ensures-lift, Ensures-if, Ensures-bind,
  Ensures-guard, ◌>>=◌, ◌>>◌, continue, require, return, fail,
}
use topo.Mid.Records.{EccRecord, MidText, is_sys_id, validate_input_record}
use topo.Mid.Journal.{JournalEntry, JournalText}
use topo.Mid.Journal.Entries.{ResultFits, load-ResultFits}
use topo.Mid.Records.Answers.{dispatch-response_to, dispatch_error-response_to}
use topo.Mid.Transport.{Service, Mid, find_responses, insert_result, on_remote}
use topo.Mid.Transport.Laws.{
  ServiceLaws, OneResponse, get-Ensures, claim-Ensures, mark_processed-keeps, poll-keeps,
  find_responses-none, find_responses-answered,
}
use topo.Mid.Cycle.{
  Disk, MidConfig, load_journal, save_journal, clear_journal, choose_result, with_result, respond,
  ensure_response, answer, claim_if_ready, resume_active, resume_claim, new_entry, process,
  cycle_from, run_cycle, run_cycles,
}

checked_id : {S : Type 0} (b : Bool) (id : String) (s : S) → ((require b >> return id) s).0 ≡ s
unfolding require return fail ◌>>=◌
checked_id true id s = refl
checked_id false id s = refl

-- The check of the ID that comes back leaves the state.
after_id :
    {S : Type 0} (o : Option String) (s : S)
    → (continue s o (λ id. require (is_sys_id id) >> return id)).0 ≡ s
after_id none s = refl
after_id (some id) s = checked_id (is_sys_id id) id s

module _ {Remote : Type 0} (text : MidText) (lines : JournalText) (service : Service Remote)
    (disk : Disk) (config : MidConfig) where
  choose_result-response_to :
      (entry : JournalEntry) (r : EccRecord) (digest : String)
      → OnSome
          (λ a. a.response_to ≡ r.sys_id)
          (choose_result text lines service disk config entry r digest)
  unfolding choose_result
  choose_result-response_to entry r digest = elim (Bool-cases (str_eq digest entry.record_digest)) [
    | inl t ↦ rw (t, choose_result) (dispatch-response_to text r config.version)
    | inr f ↦ rw (f, choose_result) (dispatch_error-response_to text r _ _)
  ]

  module _ (answered : Remote → String → ℕ) where
    abbrev One : Mid Remote → Type 0
    One = OneResponse text service config.agent answered

    -- The journal is not the service.
    load_journal-keeps : Ensures One (load_journal text lines service disk) (OnSome ResultFits)
    unfolding load_journal
    load_journal-keeps = record {
      at = λ m h. (h, load-ResultFits lines m.file (disk.readable m.calls));
    }

    save_journal-keeps :
        (e : JournalEntry) → Ensures One (save_journal text lines service disk e) (λ _. Unit)
    unfolding save_journal
    save_journal-keeps e = record { at = λ m h. (h, OnSome-unit _) }

    clear_journal-keeps : Ensures One (clear_journal text lines service disk) (λ _. Unit)
    unfolding clear_journal
    clear_journal-keeps = record { at = λ m h. (h, OnSome-unit _) }

    with_result-keeps :
        (entry : JournalEntry) (r : EccRecord) (digest : String) (o : Option EccRecord)
        → OnSome (λ a. a.response_to ≡ r.sys_id) o
        → Ensures One
            (with_result text lines service disk config entry r digest o)
            (λ full. full.1.response_to ≡ r.sys_id)
    unfolding with_result
    with_result-keeps entry r digest (some a) h = Ensures-return _ _ h
    with_result-keeps entry r digest none h =
        Ensures-bind _ _ (λ a. a.response_to ≡ r.sys_id) _
          (Ensures-lift _ _ (choose_result-response_to entry r digest))
          λ a same.
            Ensures-bind _ _ (λ _. Unit) _ (save_journal-keeps _) λ _ _. Ensures-return _ _ same

    module _ (laws : ServiceLaws service config.agent answered) where
      open laws use {insert-answered}

      after_insert :
          (a : EccRecord) (m : Mid Remote)
          → validate_input_record a a.agent ≡ true
          → (insert_result text service a m).0 ≡ record m { remote = (service.insert m.remote a).0 }
      unfolding insert_result on_remote require return ◌>>=◌
      after_insert a m v = rw v (after_id (service.insert m.remote a).1 _)

      insert_result-keeps :
          (a : EccRecord) (m : Mid Remote)
          → One m
          → answered m.remote a.response_to ≡ 0
          → One (insert_result text service a m).0
      unfolding insert_result require fail ◌>>=◌
      insert_result-keeps a m h free = elim (Bool-cases (validate_input_record a a.agent)) [
        | inr bad ↦ rw bad h
        | inl good ↦ subst One (sym (after_insert a m good)) λ id.
            elim (Bool-cases (str_eq id a.response_to)) [
              | inl t ↦ ground (arith, insert-answered m.remote a id, eq_iff id a.response_to)
              | inr f ↦ ground (arith, insert-answered m.remote a id, h id)
            ]
      ]

      respond-keeps :
          (a : EccRecord) (rows : List EccRecord) (m : Mid Remote)
          → One m
          → (rows ≡ [] → answered m.remote a.response_to ≡ 0)
          → One (respond text lines service disk config a rows m).0
      unfolding respond return fail
      respond-keeps a [] m h free = insert_result-keeps a m h (free refl)
      respond-keeps a (found ∷ []) m h free = h
      respond-keeps a (found ∷ more ∷ rest) m h free = h

      respond_to_found :
          (a : EccRecord) (o : Option (List EccRecord)) (m : Mid Remote)
          → One m
          → (o ≡ some [] → answered m.remote a.response_to ≡ 0)
          → One (continue m o (respond text lines service disk config a)).0
      respond_to_found a none m h free = h
      respond_to_found a (some rows) m h free = respond-keeps a rows m h (λ e. free (ap some e))

      ensure_response-keeps :
          (r a : EccRecord)
          → a.response_to ≡ r.sys_id
          → Ensures One (ensure_response text lines service disk config r a) (λ _. Unit)
      unfolding ensure_response ◌>>=◌
      ensure_response-keeps r a same = record {
        at = λ m h.
            let (t, found) = find_responses text service r.sys_id config.agent m in
            (
              respond_to_found a found t
                  (λ id.
                    rw
                      (find_responses-answered text service config.agent answered laws r.sys_id id
                        m)
                      (h id))
                  (λ none_found. rw same (
                    find_responses-answered text service config.agent answered laws r.sys_id
                      r.sys_id m
                    ∙ find_responses-none text service config.agent answered laws r.sys_id m
                        none_found)),
              OnSome-unit _,
            );
      }

      answer-keeps :
          (entry : JournalEntry) (r a : EccRecord)
          → a.response_to ≡ r.sys_id
          → Ensures One (answer text lines service disk config entry r a) (λ _. Unit)
      unfolding answer
      answer-keeps entry r a same =
          Ensures-bind _ _ (λ _. Unit) _ (ensure_response-keeps r a same)
            λ id _.
              Ensures-bind _ _ (λ _. Unit) _ (save_journal-keeps _)
                λ _ _.
                  Ensures-bind _ _ (λ _. Unit) _
                    (mark_processed-keeps text service config.agent answered laws r)
                    λ _ _. clear_journal-keeps

      claim_if_ready-Ensures :
          (r : EccRecord)
          → Ensures One
              (claim_if_ready text lines service disk config r)
              (λ row. row.sys_id ≡ r.sys_id)
      unfolding claim_if_ready
      claim_if_ready-Ensures r =
          Ensures-if (str_eq r.state "ready") _ _ _
            (λ _. claim-Ensures text service config.agent answered laws r)
            (λ _. Ensures-return r _ refl)

      resume_active-keeps :
          (entry : JournalEntry) (fetched : EccRecord)
          → ResultFits entry
          → fetched.sys_id ≡ entry.record_id
          → Ensures One (resume_active text lines service disk config entry fetched) (λ _. Unit)
      unfolding resume_active
      resume_active-keeps entry fetched fits same =
          Ensures-bind _ _ (λ row. row.sys_id ≡ fetched.sys_id) _ (claim_if_ready-Ensures fetched)
            λ row claimed. Ensures-guard _ _ _ λ _.
              Ensures-bind _ _ (λ _. Unit) _ (Ensures-lift _ _ (OnSome-unit _))
                λ digest _.
                  Ensures-bind _ _ (λ full. full.1.response_to ≡ row.sys_id) _
                    (with_result-keeps entry row digest entry.result (
                      subst (λ id. OnSome (λ a. a.response_to ≡ id) entry.result)
                        (sym (claimed ∙ same)) fits))
                    λ full right. answer-keeps full.0 row full.1 right

      resume_claim-keeps :
          (entry : JournalEntry)
          → ResultFits entry
          → Ensures One (resume_claim text lines service disk config entry) (λ _. Unit)
      unfolding resume_claim
      resume_claim-keeps entry fits =
          Ensures-bind _ _ (λ row. row.sys_id ≡ entry.record_id) _
            (get-Ensures text service config.agent answered laws entry.record_id config.agent)
            λ fetched same.
              Ensures-if (str_eq fetched.state "processed") _ _ _ (λ _. clear_journal-keeps)
                (λ _. resume_active-keeps entry fetched fits same)

      process-keeps :
          (records : List EccRecord)
          → Ensures One (process text lines service disk config records) (λ _. Unit)
      unfolding process new_entry
      process-keeps [] = Ensures-return _ _ tt
      process-keeps (r ∷ rest) =
          Ensures-bind _ _ (λ _. Unit) _ (Ensures-lift _ _ (OnSome-unit _))
            λ digest _.
              Ensures-bind _ _ (λ _. Unit) _ (save_journal-keeps _)
                λ _ _.
                  Ensures-bind _ _ (λ _. Unit) _ (resume_claim-keeps _ tt) λ _ _. process-keeps rest

      cycle_from-keeps :
          (o : Option JournalEntry)
          → OnSome ResultFits o
          → Ensures One (cycle_from text lines service disk config o) (λ _. Unit)
      unfolding cycle_from
      cycle_from-keeps (some entry) fits = resume_claim-keeps entry fits
      cycle_from-keeps none fits =
          Ensures-bind _ _ (λ _. Unit) _
            (poll-keeps text service config.agent answered laws config.agent config.batch_size)
            λ records _. process-keeps records

      run_cycle-keeps : Ensures One (run_cycle text lines service disk config) (λ _. Unit)
      unfolding run_cycle
      run_cycle-keeps = Ensures-bind _ _ (OnSome ResultFits) _ load_journal-keeps cycle_from-keeps

      -- However many cycles run, whatever the journal holds at the start, and at whichever calls the
      -- service or the disk answer with an error (also after they made the change), no record gets a
      -- second response, where none had two at the start and the service keeps its laws.
      pub run_cycles-OneResponse :
          (n : ℕ) (m : Mid Remote)
          → OneResponse text service config.agent answered m
          → OneResponse text service config.agent answered
              (run_cycles text lines service disk config n m)
      unfolding run_cycles
      run_cycles-OneResponse zero m h = h
      run_cycles-OneResponse (suc n) m h = run_cycles-OneResponse n _ ((run_cycle-keeps.at m h).0)
