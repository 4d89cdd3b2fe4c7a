-- ===== src/Agent/Run/Examples.antt =====
-- Ticks of an agent with one observation in its spool.
use topo.Prelude.{true, false, none, some, [], ◌∷◌, ◌==◌, if◌then◌else◌}
use topo.Store.Model.{ObservationEnvelope}
use topo.Agent.Spool.{SpoolFile, written}
use topo.Agent.Run.{Outside, Agent}

abbrev observed : ObservationEnvelope
observed = record {
  schema_version = "v1";
  observation_id = "o1";
  site_id = "site";
  collector_id = "c1";
  plugin = "local";
  job_id = "";
  observed_at = 100;
  assets = [];
  relationships = [];
  errors = [];
  labels = [];
}

abbrev one_file : SpoolFile
one_file = record { size = 40; contents = some observed }

-- The controller is unreachable at first, and later takes what it is sent.
abbrev lab : Outside
lab = record {
  status = λ call. if call == 2 then none else some 202;
  listable = λ call. true;
  readable = λ call. true;
  removable = λ call. true;
  write_end = λ call. written;
  discovered = λ call. some observed;
  sealed_size = λ call. 40;
  entry_name = λ call. "2.spool";
  stopped = λ call. false;
  dispatched = λ call. some [];
}

abbrev waiting : Agent
waiting = record {
  spool = record { entries = ("1.spool", one_file) ∷ []; temporary = 0; max_bytes = 100 };
  calls = 0;
  taken = [];
  refused = [];
  reported = [];
}
