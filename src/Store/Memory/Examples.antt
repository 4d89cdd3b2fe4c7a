-- ===== src/Store/Memory/Examples.antt =====
-- A repository after three observations of one host, and the theorems at it.
use topo.Prelude.{ℕ, ◌≡◌, ◌≤◌, String, List, [], ◌∷◌}
use topo.Store.Model.{Asset, ObservationEnvelope, StoreText}
use topo.Store.Memory.{new_memory}
use topo.Store.Memory.Observations.{save_all, times_saved, latest, save_all-latest}
use topo.Store.Memory.Reports.{ClaimSpec}
use topo.Store.Memory.Latest.{claim_at, reports, save_all-ClaimSpec}

-- Digests that keep the native ID and the plugin.
abbrev plain : StoreText
plain = record {
  joined_hash = λ parts. elim parts [ [] ↦ "" | a ∷ rest ↦ elim rest [ [] ↦ a | b ∷ _ ↦ b ] ];
  tuple_hash = λ site collector plugin. plugin;
}

abbrev host : String → Asset
host name = record {
  asset_type = "host";
  native_id = "m1";
  name = name;
  identifiers = [];
  attributes = [];
  evidence = [];
}

abbrev seen : String → ℕ → String → ObservationEnvelope
seen id at name = record {
  schema_version = "v1alpha1";
  observation_id = id;
  site_id = "dc";
  collector_id = "c1";
  plugin = "ssh-linux";
  job_id = "";
  observed_at = at;
  assets = host name ∷ [];
  relationships = [];
  errors = [];
  labels = [];
}

-- The second arrives late, and the third is a second delivery of the first.
abbrev deliveries : List ObservationEnvelope
deliveries = seen "o1" 20 "new" ∷ seen "o2" 10 "old" ∷ seen "o1" 20 "new" ∷ []

save_all-latest_example :
    (times_saved "o1" (save_all plain new_memory deliveries).observations ≤ 1)
    × (latest "o1" (save_all plain new_memory deliveries).observations ≡ latest "o1" deliveries)
save_all-latest_example = save_all-latest plain deliveries "o1"

save_all-ClaimSpec_example :
    ClaimSpec
      (claim_at (save_all plain new_memory deliveries).asset_claims "m1" "ssh-linux")
      (reports plain "m1" "ssh-linux" deliveries)
save_all-ClaimSpec_example = save_all-ClaimSpec plain deliveries "m1" "ssh-linux"
