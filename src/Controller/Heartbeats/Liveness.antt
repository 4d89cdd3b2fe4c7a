-- ===== src/Controller/Heartbeats/Liveness.antt =====
-- heartbeat.go: the list of collectors after heartbeats.
use topo.Prelude.{
  ℕ, ◌-◌, ◌≡◌, refl, Bool, String, str_eq, eq_iff, Option, none, some, List, [], ◌∷◌, ◌&&◌, not,
  arith, ltb, if◌then◌else◌, GoMap, lookup, lookup-store, Distinct, store-Distinct, count, to_count,
  count-sort_slice,
}
use topo.Controller.Heartbeats.{
  HeartbeatRecord, HeartbeatStore, new_heartbeat_store, CollectorStatus, record_heartbeat, statuses,
  collector_before, list_collectors,
}

-- The entries for a collector in one of the two states.
abbrev pub shown : String → Bool → List CollectorStatus → ℕ
shown id alive = count (λ c. str_eq c.collector_id id && (if alive then c.alive else not c.alive))

-- 1 where the last heartbeat of the collector makes it alive, or makes it stale.
abbrev pub expected : ℕ → ℕ → Bool → Option HeartbeatRecord → ℕ
expected stale_after now alive none = 0
expected stale_after now alive (some r) =
    let fresh = ltb (now - r.last_seen) stale_after in to_count (if alive then fresh else not fresh)

absent_shown :
    (s : HeartbeatStore) (now : ℕ) (m : GoMap HeartbeatRecord) (id : String) (alive : Bool)
    → lookup m id ≡ none
    → shown id alive (statuses s now m) ≡ 0
unfolding lookup
absent_shown s now [] id alive h = refl
absent_shown s now ((k, r) ∷ rest) id alive h =
    ground (arith, absent_shown s now rest id alive, eq_iff k id, eq_iff id k)

statuses-shown :
    (s : HeartbeatStore) (now : ℕ) (m : GoMap HeartbeatRecord) (id : String) (alive : Bool)
    → Distinct m
    → shown id alive (statuses s now m) ≡ expected s.stale_after now alive (lookup m id)
unfolding lookup
statuses-shown s now [] id alive d = refl
statuses-shown s now ((k, r) ∷ rest) id alive d = ground (
  arith,
  statuses-shown s now rest id alive,
  absent_shown s now rest id alive,
  eq_iff k id,
  eq_iff id k,
)

-- The store after heartbeats, each with its collector, site and time.
pub record_all : HeartbeatStore → List (String × String × ℕ) → HeartbeatStore
record_all s [] = s
record_all s ((c, site, now) ∷ rest) = record_all (record_heartbeat s c site now) rest

-- The last heartbeat of a collector.
abbrev pub last_of :
    String → List (String × String × ℕ) → Option HeartbeatRecord → Option HeartbeatRecord
last_of id [] o = o
last_of id ((c, site, now) ∷ rest) o =
    last_of id rest (if str_eq id c then some (record { site_id = site; last_seen = now }) else o)

record_all-lookup :
    (s : HeartbeatStore) (beats : List (String × String × ℕ)) (id : String)
    → lookup (record_all s beats).records id ≡ last_of id beats (lookup s.records id)
unfolding record_all record_heartbeat
record_all-lookup s [] id = refl
record_all-lookup s ((c, site, now) ∷ rest) id =
    rw (record_all-lookup (record_heartbeat s c site now) rest id)
      (rw (lookup-store s.records c id (record { site_id = site; last_seen = now })) refl)

record_all-Distinct :
    (s : HeartbeatStore) (beats : List (String × String × ℕ))
    → Distinct s.records
    → Distinct (record_all s beats).records
unfolding record_all record_heartbeat
record_all-Distinct s [] d = d
record_all-Distinct s ((c, site, now) ∷ rest) d =
    record_all-Distinct (record_heartbeat s c site now) rest (store-Distinct s.records c _ d)

record_all-stale_after :
    (s : HeartbeatStore) (beats : List (String × String × ℕ))
    → (record_all s beats).stale_after ≡ s.stale_after
unfolding record_all record_heartbeat
record_all-stale_after s [] = refl
record_all-stale_after s ((c, site, now) ∷ rest) =
    record_all-stale_after (record_heartbeat s c site now) rest

-- After any heartbeats the list of collectors shows each collector that sent one once, and no
-- other: as alive when its last heartbeat is more recent than the limit, and else as not alive.
pub record_all-shown :
    (stale_after now : ℕ) (beats : List (String × String × ℕ)) (id : String) (alive : Bool)
    → shown id alive (list_collectors (record_all (new_heartbeat_store stale_after) beats) now)
      ≡ expected stale_after now alive (last_of id beats none)
unfolding list_collectors new_heartbeat_store lookup
record_all-shown stale_after now beats id alive =
    let s = record_all (new_heartbeat_store stale_after) beats in
    rw
      (
        count-sort_slice collector_before
            (λ c. str_eq c.collector_id id && (if alive then c.alive else not c.alive))
            (statuses s now s.records),
        statuses-shown s now s.records id alive
            (record_all-Distinct (new_heartbeat_store stale_after) beats tt),
        record_all-lookup (new_heartbeat_store stale_after) beats id,
        record_all-stale_after (new_heartbeat_store stale_after) beats,
      )
      refl
