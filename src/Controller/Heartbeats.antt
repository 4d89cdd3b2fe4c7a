-- ===== src/Controller/Heartbeats.antt =====
-- internal/controller/heartbeat.go: when each collector was last seen. Times are nanoseconds.
pub mod Liveness
use topo.Prelude.{ℕ, ◌-◌, ◌*◌, Bool, String, List, [], ◌∷◌, ltb, GoMap, store, sort_slice}
use topo.Store.Model.{str_less}

-- Three minutes.
abbrev pub default_heartbeat_stale_after : ℕ
default_heartbeat_stale_after = 3 * 60 * 1000000000

pub record HeartbeatRecord : Type 0 where
  pub site_id : String
  pub last_seen : ℕ

pub record HeartbeatStore : Type 0 where
  pub records : GoMap HeartbeatRecord
  pub stale_after : ℕ

-- model.CollectorStatus
pub record CollectorStatus : Type 0 where
  pub collector_id : String
  pub site_id : String
  pub last_heartbeat : ℕ
  pub alive : Bool

unfoldable pub new_heartbeat_store : ℕ → HeartbeatStore
new_heartbeat_store stale_after = record { records = []; stale_after = stale_after }

-- `Record`
unfoldable pub record_heartbeat : HeartbeatStore → String → String → ℕ → HeartbeatStore
record_heartbeat s collector_id site_id now = record s {
  records = store s.records collector_id (record { site_id = site_id; last_seen = now });
}

-- The clock is monotonic: no heartbeat is later than `now`.
abbrev pub collector_status : HeartbeatStore → ℕ → String → HeartbeatRecord → CollectorStatus
collector_status s now id r = record {
  collector_id = id;
  site_id = r.site_id;
  last_heartbeat = r.last_seen;
  alive = ltb (now - r.last_seen) s.stale_after;
}

-- The loop over the map.
abbrev pub statuses : HeartbeatStore → ℕ → GoMap HeartbeatRecord → List CollectorStatus
statuses s now [] = []
statuses s now ((id, r) ∷ rest) = collector_status s now id r ∷ statuses s now rest

abbrev pub collector_before : CollectorStatus → CollectorStatus → Bool
collector_before a b = str_less a.collector_id b.collector_id

-- `List`
unfoldable pub list_collectors : HeartbeatStore → ℕ → List CollectorStatus
list_collectors s now = sort_slice collector_before (statuses s now s.records)
