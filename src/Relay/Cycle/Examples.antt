-- ===== src/Relay/Cycle/Examples.antt =====
-- A spool with two deliveries, and the theorems at it: the first is published and reported, and at
-- the second the publisher is down.
use topo.Prelude.{
  ℕ, ◌≡◌, refl, true, false, String, none, some, List, [], ◌∷◌, codes, ltb, lookup, store, delete,
  sort_slice, insert_sorted, bytes_less, err, if◌then◌else◌,
}
use topo.Store.Model.{ObservationEnvelope}
use topo.Relay.Spool.{
  RelayJob, PendingDelivery, SpoolText, pending_names, remove_entry, replace_delivery, write_entry,
  total_bytes, sum_bytes, end_write, written, cut,
}
use topo.Relay.Spool.Bounds.{enqueues, replaces, removes, FileOp}
use topo.Relay.Cycle.{
  Outside, Relay, accepted, refused, drain, drain_entries, drain_one, drain_read, publish_phase,
  publish_one, after_replace, report_phase, attempted, result_for,
}
use topo.Relay.Cycle.Drained.{drain-empties}
use topo.Relay.Cycle.Retained.{IsSafe, drain-IsSafe}

abbrev flat : SpoolText
flat = record { json_length = λ d. 100; entry_name = λ now seq. "2.relay-spool" }

abbrev job : String → RelayJob
job id = record { job_id = id; job_type = "discover"; profile_id = "p"; requested_at = 1 }

abbrev observed : ObservationEnvelope
observed = record {
  schema_version = "v1alpha1";
  observation_id = "o1";
  site_id = "dc";
  collector_id = "r1";
  plugin = "local";
  job_id = "j1";
  observed_at = 5;
  assets = [];
  relationships = [];
  errors = [];
  labels = [];
}

abbrev waiting : String → PendingDelivery
waiting id = record {
  job = job id;
  relay_id = "r1";
  started_at = 1;
  completed_at = 2;
  observation = some observed;
  discovery_error = [];
  published = false;
  publish_attempts = 0;
  publication_error = [];
}

abbrev relay : List (String × PendingDelivery) → Relay
relay entries = record {
  relay_id = "r1";
  spool = record { entries = entries; temporary = []; max_bytes = 300; seq = 2 };
  calls = 0;
  reported = [];
  polls = 0;
}

-- The publisher is down from some call on, and all else works.
abbrev world : ℕ → Outside
world down = record {
  poll = λ n. none;
  report = λ n result. true;
  execute = λ n j. err [];
  publish = λ n o. if ltb n down then accepted else refused true (codes "down");
  clock = λ n. n;
  listed = λ n. true;
  readable = λ n name. true;
  write_end = λ n. written;
  removed = λ n. true;
  not_retained = λ e. [];
  invalid_job = λ j. [];
}

abbrev two_entries : List (String × PendingDelivery)
two_entries = ("1.relay-spool", waiting "j1") ∷ ("2.relay-spool", waiting "j2") ∷ []

second_waits : lookup two_entries "2.relay-spool" ≡ some (waiting "j2")
unfolding lookup
second_waits = refl

drain-IsSafe_example :
    IsSafe "2.relay-spool" (waiting "j2") (drain flat (world 4) (relay two_entries)).0
drain-IsSafe_example =
    drain-IsSafe flat (world 4) (relay two_entries) "2.relay-spool" (waiting "j2") second_waits

drains : (drain flat (world 100) (relay two_entries)).1 ≡ true
unfolding drain drain_entries drain_one drain_read publish_phase publish_one after_replace
    report_phase attempted result_for pending_names remove_entry replace_delivery write_entry
    total_bytes sum_bytes end_write lookup store delete sort_slice insert_sorted bytes_less
drains = refl

stops : (drain flat (world 4) (relay two_entries)).1 ≡ false
unfolding drain drain_entries drain_one drain_read publish_phase publish_one after_replace
    report_phase attempted result_for pending_names remove_entry replace_delivery write_entry
    total_bytes sum_bytes end_write lookup store delete sort_slice insert_sorted bytes_less
stops = refl

drain-empties_example :
    lookup (drain flat (world 100) (relay two_entries)).0.spool.entries "2.relay-spool" ≡ none
drain-empties_example = drain-empties flat (world 100) (relay two_entries) "2.relay-spool" drains

abbrev file_ops : List FileOp
file_ops =
    enqueues (waiting "j1") 5 written
    ∷ replaces "2.relay-spool" (waiting "j2") (cut 60)
    ∷ removes "2.relay-spool"
    ∷ []
