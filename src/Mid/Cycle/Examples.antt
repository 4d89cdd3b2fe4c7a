-- ===== src/Mid/Cycle/Examples.antt =====
-- Runs of cycles with a service that keeps a list of rows.

use topo.Prelude.{
  ℕ, ◌≡◌, refl, Bool, true, ◌&&◌, ◌==◌, String, str_eq, eq_iff, none, some, List, [], ◌∷◌, length,
  All, subst, length-append, ◌++◌, arith, if◌then◌else◌, codes,
}
use topo.Mid.Records.{
  EccRecord, MidText, is_sys_id, has_control, validate_record_fields, validate_output_record,
  dispatch,
}
use topo.Mid.Records.Answers.{Correlated, ShortXml, dispatch-Correlated}
use topo.Mid.Journal.{JournalEntry, JournalText, appended, cut, removed}
use topo.Mid.Transport.{Query, ready_for, by_id, responses_to, Service, Mid}
use topo.Mid.Transport.Laws.{ServiceLaws, OneResponse}
use topo.Mid.Cycle.{Disk, MidConfig, run_cycles}
use topo.Mid.Cycle.Once.{run_cycles-OneResponse}

abbrev matches : Query → EccRecord → Bool
matches (ready_for agent) r =
    str_eq r.agent agent && str_eq r.queue "output" && str_eq r.state "ready"
matches (by_id id agent) r = str_eq r.sys_id id && str_eq r.agent agent
matches (responses_to id agent) r =
    str_eq r.response_to id && str_eq r.agent agent && str_eq r.queue "input"

abbrev select : Query → List EccRecord → List EccRecord
select q [] = []
select q (r ∷ rs) = if matches q r then r ∷ select q rs else select q rs

abbrev set_state : String → String → List EccRecord → List EccRecord
set_state id state [] = []
set_state id state (r ∷ rs) =
    (if str_eq r.sys_id id then record r { state = state } else r) ∷ set_state id state rs

-- The rows, where an update is made and then reported as an error.
abbrev toy_service : Service (List EccRecord)
toy_service = record {
  get_records = λ rows query limit. (rows, some (select query rows));
  update = λ rows id state.
      (set_state id state rows, if str_eq state "processed" then none else some id);
  insert = λ rows r. (
    record r { sys_id = "000000000000000000000000000000e5" } ∷ rows,
    some "000000000000000000000000000000e5",
  );
}

abbrev toy_agent : String
toy_agent = "mid.server.m"

abbrev answered : List EccRecord → String → ℕ
answered rows id = length (select (responses_to id toy_agent) rows)

answered-set_state :
    (sys_id state id : String) (rows : List EccRecord)
    → answered (set_state sys_id state rows) id ≡ answered rows id
answered-set_state sys_id state id [] = refl
answered-set_state sys_id state id (r ∷ rs) = ground (arith, answered-set_state sys_id state id rs)

select-by_id :
    (id owner : String) (rows : List EccRecord)
    → All (λ row. row.sys_id ≡ id) (select (by_id id owner) rows)
select-by_id id owner [] = tt
select-by_id id owner (r ∷ rs) = ground (arith, select-by_id id owner rs, eq_iff r.sys_id id)

toy_laws : ServiceLaws toy_service toy_agent answered
toy_laws = record {
  get_records-answered = λ r query limit id. refl;
  update-answered = λ r sys_id state id. answered-set_state sys_id state id r;
  insert-answered =
      λ r new id. ground (arith, eq_iff id new.response_to, eq_iff new.response_to id);
  finds_responses = λ r id none_found. ground arith;
  finds_by_id = λ r id owner rows e.
      let same : select (by_id id owner) r ≡ rows = cc in
      subst (All (λ row. row.sys_id ≡ id)) same (select-by_id id owner r);
}

abbrev toy_text : MidText
toy_text = record {
  json_length = λ r. 900;
  json_hash = λ r. "00000000000000000000000000000000000000000000000000000000000000aa";
  result_xml = λ item. codes item.status ++ item.code ++ item.message ++ item.version;
}

abbrev heartbeat : EccRecord
heartbeat = record {
  sys_id = "000000000000000000000000000000a1";
  agent = toy_agent;
  topic = "Heartbeat";
  name = "beat";
  source = "";
  queue = "output";
  state = "ready";
  response_to = "";
  agent_correlator = "";
  parameters = [];
  payload = [];
  error_string = [];
  created_on = "";
}

abbrev entry : JournalEntry
entry = record {
  version = 1;
  record_id = heartbeat.sys_id;
  record_digest = "00000000000000000000000000000000000000000000000000000000000000aa";
  result = none;
  response_sys_id = "";
}

-- The text of an entry is one byte, so that an entry is found again without its result.
abbrev toy_lines : JournalText
toy_lines = record {
  encode = λ e. codes "e";
  decode = λ line. elim line [ [] ↦ none | b ∷ bs ↦ some entry ];
}

-- The fourth call to the disk fails.
abbrev toy_disk : Disk
toy_disk = record {
  readable = λ call. true;
  append = λ call. if call == 3 then cut 1 else appended;
  removal = λ call. removed;
}

abbrev toy_config : MidConfig
toy_config = record { agent = toy_agent; version = codes "v1"; batch_size = 16 }

abbrev start : Mid (List EccRecord)
start = record { remote = heartbeat ∷ []; file = none; calls = 0 }

start-OneResponse : OneResponse toy_text toy_service toy_agent answered start
start-OneResponse id = ground (arith, eq_iff "" id)

run_cycles-OneResponse_example :
    OneResponse toy_text toy_service toy_agent answered
      (run_cycles toy_text toy_lines toy_service toy_disk toy_config 3 start)
run_cycles-OneResponse_example =
    run_cycles-OneResponse toy_text toy_lines toy_service toy_disk toy_config answered toy_laws 3
      start start-OneResponse

heartbeat_ok : validate_output_record heartbeat heartbeat.agent ≡ true
unfolding validate_output_record is_sys_id validate_record_fields has_control
heartbeat_ok = refl

toy_text-ShortXml : ShortXml toy_text
toy_text-ShortXml item fits = simp length-append (omega (arith, fits))

dispatch-Correlated_example :
    (a : EccRecord) × (dispatch toy_text heartbeat (codes "v1") ≡ some a)
    × Correlated heartbeat a
    × (a.error_string ≡ (
        if str_eq heartbeat.topic "Heartbeat"
        then []
        else codes "Topo denied an unsupported ECC topic"))
dispatch-Correlated_example =
    dispatch-Correlated toy_text heartbeat (codes "v1") heartbeat_ok toy_text-ShortXml
