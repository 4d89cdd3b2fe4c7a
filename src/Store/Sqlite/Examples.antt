-- ===== src/Store/Sqlite/Examples.antt =====
-- A database in which each column keeps the value that was put into it, and the theorems at it.
use topo.Prelude.{
  ℕ, ◌≡◌, ◌==◌, Bool, not, String, Option, none, some, List, [], ◌∷◌, arith, refl, codes, lookup,
}
use topo.Prelude.Actions.{return, lift, ◌>>=◌}
use topo.Audit.{Text, AuditText, chain}
use topo.Store.Model.{
  Asset, Relationship, ObservationEnvelope, StoreText, Schedule, CertificateRevocation,
}
use topo.Store.Memory as Memory
use topo.Store.Memory.{new_memory, is_certificate_revoked}
use topo.Store.Memory.Observations.{empty-IndexAgrees}
use topo.Store.Memory.Writes.{Write, saves, appends, upserts, revokes, write_all}
use topo.Store.Sqlite.Rows.{RowText, RoundTrips, Tables, find_claim, scan_observation}
use topo.Store.Sqlite.Database.{Connection, exec, exec_affecting, query, in_transaction}
use topo.Store.Sqlite.Saves.{
  revoke_certificate, save_observation, save_assets, upsert_schedule, append_audit_event,
  append_entry, insert_entry, insert_revocation, newest_entry,
}
use topo.Store.Sqlite.Reads as Reads
use topo.Store.Sqlite.Reads.{list_observations, list_audit_entries, get_schedule}
use topo.Store.Sqlite.Migration.{migrate}
use topo.Store.Sqlite.Represents.{Represents}
use topo.Store.Sqlite.Refines.{run_write, execute, execute-Represents}
use topo.Store.Sqlite.Agrees.{Returns, SameUpToCreation, reads_agree}
use topo.Store.Sqlite.Backfill.{EndsIn, Upgraded, migrate_rebuilds}

data Column : Type 0 where
  of_envelope : ObservationEnvelope → Column
  of_asset : Asset → Column
  of_relationship : Relationship → Column
  of_detail : List (Text × Text) → Column
  of_time : ℕ → Column

abbrev to_envelope : Column → Option ObservationEnvelope
to_envelope (of_envelope e) = some e
to_envelope _ = none

abbrev to_asset : Column → Option Asset
to_asset (of_asset a) = some a
to_asset _ = none

abbrev to_relationship : Column → Option Relationship
to_relationship (of_relationship r) = some r
to_relationship _ = none

abbrev to_detail : Column → Option (List (Text × Text))
to_detail (of_detail d) = some d
to_detail _ = none

abbrev to_time : Column → Option ℕ
to_time (of_time t) = some t
to_time _ = none

abbrev keeping : RowText Column
keeping = record {
  envelope = record { marshal = λ e. some (of_envelope e); unmarshal = to_envelope };
  asset = record { marshal = λ a. some (of_asset a); unmarshal = to_asset };
  relationship = record { marshal = λ r. some (of_relationship r); unmarshal = to_relationship };
  detail = record { marshal = λ d. some (of_detail d); unmarshal = to_detail };
  format_time = of_time;
  parse_time = to_time;
}

kept :
    {A Col : Type 0} (put : A → Col) (get : Col → Option A)
    → ((a : A) → get (put a) ≡ some a)
    → (a : A) (col : Col) → some (put a) ≡ some col
    → get col ≡ some a
kept put get f a col h = ground (arith, f a)

keeping-RoundTrips : RoundTrips keeping
keeping-RoundTrips = record {
  envelope = kept of_envelope to_envelope (λ a. refl);
  asset = kept of_asset to_asset (λ a. refl);
  relationship = kept of_relationship to_relationship (λ a. refl);
  detail = kept of_detail to_detail (λ a. refl);
  time = λ t. refl;
}

abbrev fresh : Tables Column
fresh = record {
  user_version = 5;
  observations = [];
  assets = [];
  asset_claims = [];
  relationships = [];
  audit_entries = [];
  schedules = [];
  revocations = [];
}

abbrev opened : Connection Column
opened = record { tables = fresh; statements = 0 }

-- The fourth statement fails.
abbrev flaky : ℕ → Bool
flaky n = not (n == 3)

abbrev plain : StoreText
plain = record {
  joined_hash = λ parts. elim parts [ [] ↦ "" | a ∷ rest ↦ elim rest [ [] ↦ a | b ∷ _ ↦ b ] ];
  tuple_hash = λ site collector plugin. plugin;
}

abbrev copying : AuditText
copying = record { sha256_hex = λ a. a; format_int = λ n. n ∷ []; format_time = λ n. n ∷ [] }

abbrev host : Asset
host = record {
  asset_type = "host";
  native_id = "m1";
  name = "web";
  identifiers = [];
  attributes = [];
  evidence = [];
}

abbrev seen : String → ℕ → ObservationEnvelope
seen id at = record {
  schema_version = "v1alpha1";
  observation_id = id;
  site_id = "dc";
  collector_id = "c1";
  plugin = "ssh-linux";
  job_id = "";
  observed_at = at;
  assets = host ∷ [];
  relationships = [];
  errors = [];
  labels = [];
}

abbrev leaked : CertificateRevocation
leaked = record { serial_number = "0a1b"; reason = "leaked"; revoked_at = 5 }

abbrev nightly : Schedule
nightly = record {
  collector_id = "c1";
  job_type = "discovery";
  interval_seconds = 60;
  next_run_at = 9;
  created_at = 1;
  updated_at = 1;
}

abbrev batch : List Write
batch =
    revokes leaked
    ∷ saves (seen "o1" 20)
    ∷ upserts nightly
    ∷ appends 7 (record { action = codes "job_created"; actor = codes "api-key"; detail = [] })
    ∷ []

fresh-Represents : Represents keeping fresh new_memory
unfolding lookup find_claim
fresh-Represents = (
  record {
    observations = tt;
    index = empty-IndexAgrees;
    relationships = λ id. refl;
    audit_entries = tt;
    schedules = λ id. refl;
    revocations = λ id. refl;
  },
  λ id key. refl,
)

execute-Represents_example :
    Represents keeping
      (execute keeping flaky plain copying batch opened).0.tables
      (write_all plain copying new_memory (execute keeping flaky plain copying batch opened).1)
execute-Represents_example =
    execute-Represents keeping flaky plain copying keeping-RoundTrips batch opened new_memory
      fresh-Represents

reads_agree_example :
    Returns (flaky 0) (λ es. es ≡ []) (list_observations keeping flaky opened).1
    × Returns (flaky 0) (λ es. es ≡ []) (list_audit_entries keeping flaky opened).1
    × Returns
        (flaky 0)
        (λ s. SameUpToCreation s (Memory.get_schedule new_memory "c1"))
        (get_schedule keeping flaky "c1" opened).1
    × Returns
        (flaky 0)
        (λ b. b ≡ is_certificate_revoked new_memory "0a1b")
        (Reads.is_certificate_revoked keeping flaky "0a1b" opened).1
reads_agree_example = reads_agree keeping flaky new_memory opened "0a1b" "c1" fresh-Represents

-- A database of version 4 with one observation.
abbrev old : Connection Column
old = record opened {
  tables = record fresh {
    user_version = 4;
    observations =
        ("o1", record { envelope_json = of_envelope (seen "o1" 20); observed_at = of_time 20 })
        ∷ [];
  };
}

migrate_rebuilds_example :
    EndsIn
      (Upgraded keeping flaky plain keeping-RoundTrips
        (seen "o1" 20 ∷ [])
        tt
        (migrate keeping flaky plain old).0.tables)
      ((migrate keeping flaky plain old).0.tables ≡ old.tables)
      (migrate keeping flaky plain old).1
unfolding scan_observation
migrate_rebuilds_example =
    migrate_rebuilds keeping flaky plain keeping-RoundTrips (seen "o1" 20 ∷ []) old (omega arith)
      (omega arith) (refl, refl, tt)

-- The failed statement takes the observation with it, and the others stay.
saved_but_one :
    (execute keeping flaky plain copying batch opened).1
    ≡ revokes leaked
      ∷ upserts nightly
      ∷ appends 7 (record { action = codes "job_created"; actor = codes "api-key"; detail = [] })
      ∷ []
unfolding execute run_write revoke_certificate exec_affecting save_observation ◌>>=◌ lift
    in_transaction exec save_assets upsert_schedule append_audit_event append_entry query
    insert_entry insert_revocation return chain newest_entry lookup
saved_but_one = refl
