-- ===== src/Mid/Cycle.antt =====
-- internal/mid/run.go: one cycle of the runtime. A crash is a cycle that stops with an error, as
-- nothing but the journal and the service outlives it.
mod Examples
pub mod Once
use topo.Prelude.{
  ℕ, zero, suc, ◌+◌, ◌≡◌, Bool, true, false, not, ◌&&◌, ◌==◌, String, str_eq, Option, none, some,
  List, [], ◌∷◌, if◌then◌else◌, codes,
}
use topo.Prelude.Actions.{Action, ◌>>=◌, ◌>>◌, return, fail, lift, require}
use topo.Audit.{Text}
use topo.Mid.Records.{EccRecord, MidText, record_digest, dispatch, dispatch_error}
use topo.Mid.Journal.{JournalEntry, JournalText, Append, Removal, load, save, clear}
use topo.Mid.Transport.{
  Service, Mid, poll, get, claim, mark_processed, find_responses, insert_result,
}

-- What the disk does at each call.
pub record Disk : Type 0 where
  pub readable : ℕ → Bool
  pub append : ℕ → Append
  pub removal : ℕ → Removal

-- RunConfig, with the agent of the MID name.
pub record MidConfig : Type 0 where
  pub agent : String
  pub version : Text
  pub batch_size : ℕ

-- The result of a method of the journal that returns only an error.
abbrev done_or_error : Bool → Option (Unit {0})
done_or_error true = some tt
done_or_error false = none

module _ {Remote : Type 0} (text : MidText) (lines : JournalText) (service : Service Remote)
    (disk : Disk) where
  -- The methods of `State`.
  unfoldable pub load_journal : Action (Mid Remote) (Option JournalEntry)
  load_journal m = (record m { calls = m.calls + 1 }, load lines m.file (disk.readable m.calls))

  unfoldable pub save_journal : JournalEntry → Action (Mid Remote) (Unit {0})
  save_journal e m =
      let (file, fine) = save lines m.file e (disk.append m.calls) in
      (record m { calls = m.calls + 1; file = file }, done_or_error fine)

  unfoldable pub clear_journal : Action (Mid Remote) (Unit {0})
  clear_journal m =
      let (file, fine) = clear m.file (disk.removal m.calls) in
      (record m { calls = m.calls + 1; file = file }, done_or_error fine)

  module _ (config : MidConfig) where
    -- The answer to a claimed record: a denial where it changed since it was polled.
    pub choose_result : JournalEntry → EccRecord → String → Option EccRecord
    choose_result entry record_now digest =
        if not (str_eq digest entry.record_digest)
        then dispatch_error text record_now (codes "topo_claim_conflict")
            (codes "Topo denied an ECC record that changed during claim")
        else dispatch text record_now config.version

    -- The entry with its result, which is saved before it is inserted.
    with_result :
        JournalEntry
        → EccRecord
        → String
        → Option EccRecord
        → Action (Mid Remote) (JournalEntry × EccRecord)
    with_result entry record_now digest (some result) = return (entry, result)
    with_result entry record_now digest none = do
      result ← lift (choose_result entry record_now digest)
      save_journal (record entry { result = some result })
      return (record entry { result = some result }, result)

    -- The ID of the one response: the one that is there, or a new one.
    respond : EccRecord → List EccRecord → Action (Mid Remote) String
    respond result [] = insert_result text service result
    respond result (found ∷ []) = return found.sys_id
    respond result (found ∷ more ∷ rest) = fail

    ensure_response : EccRecord → EccRecord → Action (Mid Remote) String
    ensure_response record_now result = do
      responses ← find_responses text service record_now.sys_id config.agent
      respond result responses

    answer : JournalEntry → EccRecord → EccRecord → Action (Mid Remote) (Unit {0})
    answer entry record_now result = do
      id ← ensure_response record_now result
      save_journal (record entry { response_sys_id = id })
      mark_processed text service record_now
      clear_journal

    claim_if_ready : EccRecord → Action (Mid Remote) EccRecord
    claim_if_ready r = if str_eq r.state "ready" then claim text service r else return r

    resume_active : JournalEntry → EccRecord → Action (Mid Remote) (Unit {0})
    resume_active entry fetched = do
      record_now ← claim_if_ready fetched
      require (str_eq record_now.state "processing")
      digest ← lift (record_digest text record_now)
      full ← with_result entry record_now digest entry.result
      answer full.0 record_now full.1

    pub resume_claim : JournalEntry → Action (Mid Remote) (Unit {0})
    resume_claim entry = do
      fetched ← get text service entry.record_id config.agent
      if str_eq fetched.state "processed" then clear_journal else resume_active entry fetched

    new_entry : EccRecord → String → JournalEntry
    new_entry r digest = record {
      version = 1;
      record_id = r.sys_id;
      record_digest = digest;
      result = none;
      response_sys_id = "";
    }

    -- The loop over the polled records.
    process : List EccRecord → Action (Mid Remote) (Unit {0})
    process [] = return tt
    process (r ∷ rest) = do
      digest ← lift (record_digest text r)
      save_journal (new_entry r digest)
      resume_claim (new_entry r digest)
      process rest

    cycle_from : Option JournalEntry → Action (Mid Remote) (Unit {0})
    cycle_from (some entry) = resume_claim entry
    cycle_from none = do records ← poll text service config.agent config.batch_size; process records

    -- `runCycle`
    pub run_cycle : Action (Mid Remote) (Unit {0})
    run_cycle = do entry ← load_journal; cycle_from entry

    -- Cycles and restarts, one after the other.
    pub run_cycles : ℕ → Mid Remote → Mid Remote
    run_cycles zero m = m
    run_cycles (suc n) m = run_cycles n (run_cycle m).0
