-- ===== src/Relay/Cycle/Drained.antt =====
-- run.go: `drain` succeeds only with nothing left to deliver, so that no job is claimed before.
use topo.Prelude.{
  ◌≡◌, refl, Bool, true, String, str_eq, eq_iff, Option, none, List, [], ◌∷◌, ◌++◌, any, any-count,
  count-sort_slice, arith, if◌then◌else◌, GoMap, lookup, inl, inr, Bool-cases,
}
use topo.Store.Model.{str_less}
use topo.Relay.Spool.{PendingDelivery, SpoolText, keys, pending_names}
use topo.Relay.Cycle.{Outside, Relay, is_some, called, drain_one, drain_entries, drain}
use topo.Relay.Cycle.Steps.{RoundSpec, any-append, drain_one-RoundSpec}

-- The keys of a map are the names that it has.
any-keys : (m : GoMap PendingDelivery) (k : String) → any (str_eq k) (keys m) ≡ is_some (lookup m k)
unfolding lookup
any-keys [] k = refl
any-keys ((name, d) ∷ rest) k = ground (arith, any-keys rest k)

module _ (text : SpoolText) (world : Outside) where
  round_done :
      (r : Relay) (name : String) (t : Relay × Bool) (o : Option PendingDelivery)
      → RoundSpec r name o t
      → t.1 ≡ true
      → (k : String)
      → lookup t.0.spool.entries k ≡ (if str_eq k name then none else lookup r.spool.entries k)
  round_done r name (t, goes_on) o (others, inl done) e k = elim (Bool-cases (str_eq k name)) [
    | inl same ↦ rw same (rw ((eq_iff k name).0 same) done.1)
    | inr differs ↦ rw differs (others.0 k differs)
  ]
  round_done r name (t, goes_on) o (others, inr kept) e k = ground arith

  drain_entries_done :
      (r : Relay) (names : List String)
      → (drain_entries text world r names).1 ≡ true
      → (k : String)
      → lookup (drain_entries text world r names).0.spool.entries k
        ≡ (if any (str_eq k) names then none else lookup r.spool.entries k)
  unfolding drain_entries
  drain_entries_done r [] e k = refl
  drain_entries_done r (name ∷ rest) e k =
      let round = drain_one text world r name in
      elim (Bool-cases round.1) [
        | inr stops ↦ ground (arith, rw (stops, drain_entries) at e)
        | inl goes_on ↦
            let first =
              round_done r name round (lookup r.spool.entries name)
                (drain_one-RoundSpec text world r name) goes_on k in
            rw (goes_on, drain_entries)
              (ground (
                arith,
                first,
                drain_entries_done round.0 rest (rw (goes_on, drain_entries) at e) k,
              ))
      ]

  -- When `drain` reports success, no entry is left in the spool.
  pub drain-empties :
      (r : Relay) (k : String)
      → (drain text world r).1 ≡ true
      → lookup (drain text world r).0.spool.entries k ≡ none
  unfolding drain pending_names
  drain-empties r k e = elim (Bool-cases (world.listed r.calls)) [
    | inr unlisted ↦ ground (arith, rw (unlisted, drain) at e)
    | inl listed ↦
        let names = pending_names r.spool in
        rw (listed, drain)
          (ground (
            arith,
            drain_entries_done (called r) names (rw (listed, drain) at e) k,
            any-count (str_eq k) names,
            any-count (str_eq k) (keys r.spool.entries ++ keys r.spool.temporary),
            any-append (str_eq k) (keys r.spool.entries) (keys r.spool.temporary),
            count-sort_slice str_less (str_eq k) (keys r.spool.entries ++ keys r.spool.temporary),
            any-keys r.spool.entries k,
          ))
  ]
