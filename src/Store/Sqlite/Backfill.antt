-- ===== src/Store/Sqlite/Backfill.antt =====
-- sqlite.go: the upgrade to version 5 rebuilds the claims from the observations.
use topo.Prelude.{
  ℕ, zero, suc, ◌+◌, ◌-◌, ◌==◌, ◌≡◌, ◌<◌, refl, Bool, true, false, Option, none, some, List, [],
  ◌∷◌, ltb, arith, if◌then◌else◌, GoMap, lookup,
}
use topo.Prelude.Actions.{return, fail, OnSome, ◌>>◌}
use topo.Store.Model.{Asset, ObservationEnvelope, AssetClaim, StoreText}
use topo.Store.Memory as Memory
use topo.Store.Memory.{Memory, new_memory, values}
use topo.Store.Memory.Observations.{save_all}
use topo.Store.Sqlite.Rows.{RowText, RoundTrips, Tables, scan_observation, scan_all, find_claim}
use topo.Store.Sqlite.Database.{Connection, exec}
use topo.Store.Sqlite.Leads.{
  Leads, IsAtomic, Leads-return, Leads-lift, Leads-bind, Leads-query, Leads-exec,
  Leads-in_transaction, Leads-given, Leads-if, in_transaction-IsAtomic, query-bind-IsAtomic,
  IsAtomic-if,
}
use topo.Store.Sqlite.Migration.{
  migrations, set_user_version, backfill_assets, backfill_envelopes, backfill_asset_claims, upgrade,
  migrate,
}
use topo.Store.Sqlite.Claims.{ClaimsAre, save_asset_claim-Leads}
use topo.Store.Sqlite.Tables.{ObservationsAre, ObservationsAre-scan}

OnSome-if :
    {A : Type 0} (Q : A → Type 0) (b : Bool) (x y : Option A)
    → (b ≡ true → OnSome Q x)
    → (b ≡ false → OnSome Q y)
    → OnSome Q (if b then x else y)
OnSome-if Q true x y f g = f refl
OnSome-if Q false x y f g = g refl

pending : (n v : ℕ) → v + suc n ≡ 5 → 5 - v ≡ suc n
pending n v p = omega arith

-- The state behind a success, and behind an error.
abbrev pub EndsIn : Type 0 → Type 0 → Option (Unit {0}) → Type 0
EndsIn Q R none = R
EndsIn Q R (some _) = Q

ends : (Q R : Type 0) (o : Option (Unit {0})) → OnSome (λ _. Q) o → (o ≡ none → R) → EndsIn Q R o
ends Q R none q f = f refl
ends Q R (some _) q f = q

module _ {Col : Type 0} (row : RowText Col) (driver : ℕ → Bool) (text : StoreText)
    (trip : RoundTrips row) (es : List ObservationEnvelope) where
  -- The observations that the database retains, and claims.
  abbrev pub Holds : GoMap (GoMap AssetClaim) → Tables Col → Type 0
  Holds all t = ObservationsAre row t.observations es × ClaimsAre row t.asset_claims all

  backfill_assets-Leads :
      (e : ObservationEnvelope) (all : GoMap (GoMap AssetClaim)) (assets : List Asset)
      → Leads
          (Holds all)
          (backfill_assets row driver text e assets)
          (λ _. Holds (Memory.save_assets text all e assets))
  unfolding backfill_assets Memory.save_assets
  backfill_assets-Leads e all [] = Leads-return _ tt (λ t h. h)
  backfill_assets-Leads e all (a ∷ rest) =
      let Done : Unit {0} → Tables Col → Type 0 =
        λ _. Holds (Memory.save_assets text all e (a ∷ rest)) in
      Leads-bind (λ json t. (row.asset.marshal a ≡ some json) × Holds all t) _ _ Done
        (Leads-lift _ _ (λ json p t h. (p, h)))
        λ json. Leads-given λ p.
          Leads-bind (λ _. Holds (Memory.save_asset text all e a)) _ _ Done
            (save_asset_claim-Leads row trip text e a json p driver
              (λ t. ObservationsAre row t.observations es) (λ t rows h. h) all)
            λ _. backfill_assets-Leads e (Memory.save_asset text all e a) rest

  backfill_envelopes-Leads :
      (m : Memory) (rest : List ObservationEnvelope)
      → Leads
          (Holds m.asset_claims)
          (backfill_envelopes row driver text rest)
          (λ _. Holds (save_all text m rest).asset_claims)
  unfolding backfill_envelopes save_all Memory.save_observation
  backfill_envelopes-Leads m [] = Leads-return _ tt (λ t h. h)
  backfill_envelopes-Leads m (e ∷ rest) =
      Leads-bind (λ _. Holds (Memory.save_assets text m.asset_claims e e.assets)) _ _ _
        (backfill_assets-Leads e m.asset_claims e.assets)
        λ _. backfill_envelopes-Leads (Memory.save_observation text m e) rest

  -- The claims of a repository in memory that has seen the same observations.
  abbrev pub Rebuilt : Tables Col → Type 0
  Rebuilt = Holds (save_all text new_memory es).asset_claims

  backfill_asset_claims-Leads :
      Leads (Holds []) (backfill_asset_claims row driver text) (λ _. Rebuilt)
  unfolding backfill_asset_claims
  backfill_asset_claims-Leads =
      Leads-bind (λ rows t. (scan_all (scan_observation row) rows ≡ some es) × Holds [] t) _ _
        (λ _. Rebuilt)
        (Leads-query driver _ _ (λ t h. (ObservationsAre-scan row t.observations es h.0, h)))
        λ rows. Leads-given λ scanned. rw scanned (
          Leads-bind (λ envelopes t. (envelopes ≡ es) × Holds [] t) _ _ (λ _. Rebuilt)
            (Leads-lift _ _ (λ envelopes p t h. (cc, h)))
            λ envelopes. Leads-given λ same. rw same (backfill_envelopes-Leads new_memory es))

  empty-ClaimsAre : ClaimsAre row [] []
  unfolding find_claim lookup
  empty-ClaimsAre id key = refl

  -- The tables of versions 2 to 4 are new ones.
  migrations-Observations :
      (v : ℕ) (t : Tables Col)
      → 1 < v
      → ObservationsAre row t.observations es
      → OnSome (λ t'. ObservationsAre row t'.observations es) (migrations v t)
  unfolding migrations
  migrations-Observations v t above h =
      let Q : Tables Col → Type 0 = λ t'. ObservationsAre row t'.observations es in
      OnSome-if Q (v == 1) _ _ (λ e. absurd (ground arith))
        λ _.
          OnSome-if Q (v == 2) _ _ (λ _. h)
            λ _.
              OnSome-if Q (v == 3) _ _ (λ _. h)
                λ _.
                  OnSome-if Q (v == 4) _ _ (λ _. h) λ _. OnSome-if Q (v == 5) _ _ (λ _. h) (λ _. tt)

  migrations_last : (t : Tables Col) → migrations 5 t ≡ some (record t { asset_claims = [] })
  unfolding migrations
  migrations_last t = refl

  abbrev pub Upgraded : Unit {0} → Tables Col → Type 0
  Upgraded _ t = (t.user_version ≡ 5) × Rebuilt t

  -- One round of the loop.
  upgrade_round :
      (n v : ℕ)
      → upgrade row driver text (suc n) v ≡ (
          exec driver (migrations (v + 1))
          >> ((if v + 1 == 5 then backfill_asset_claims row driver text else return tt)
              >> (exec driver (set_user_version (v + 1)) >> upgrade row driver text n (v + 1))))
  unfolding upgrade
  upgrade_round n v = refl

  last_round :
      (v : ℕ)
      → v ≡ 4
      → Leads (λ t. ObservationsAre row t.observations es) (upgrade row driver text 1 v) Upgraded
  unfolding upgrade
  last_round v p = rw p (
      Leads-bind (λ _. Holds []) _ _ Upgraded
        (Leads-exec driver _ _ (λ t h. rw (migrations_last t) (h, empty-ClaimsAre)))
        λ _.
          Leads-bind (λ _. Rebuilt) _ _ Upgraded backfill_asset_claims-Leads
            λ _.
              Leads-bind Upgraded _ _ Upgraded (Leads-exec driver _ _ (λ t h. (refl, h)))
                λ _. Leads-return _ tt (λ t h. h))

  upgrade-Leads :
      (n v : ℕ)
      → v + suc n ≡ 5
      → 0 < v
      → Leads
          (λ t. ObservationsAre row t.observations es)
          (upgrade row driver text (suc n) v)
          Upgraded
  upgrade-Leads zero v p q = last_round v (omega arith)
  upgrade-Leads (suc n) v p q = rw (upgrade_round (suc n) v) (
      let Kept : Unit {0} → Tables Col → Type 0 = λ _ t. ObservationsAre row t.observations es in
      Leads-bind Kept _ _ Upgraded
        (Leads-exec driver _ _ (λ t h. migrations-Observations (v + 1) t (omega arith) h))
        λ _.
          Leads-bind Kept _ _ Upgraded
            (Leads-if (v + 1 == 5) _ _ Kept (λ e. absurd (ground arith))
              (λ _. Leads-return Kept tt (λ t h. h)))
            λ _.
              Leads-bind Kept _ _ Upgraded (Leads-exec driver _ _ (λ t h. h))
                λ _. upgrade-Leads n (v + 1) (omega arith) (omega arith))

  migrate-Leads :
      (n v : ℕ)
      → v + suc n ≡ 5
      → 0 < v
      → Leads
          (λ t. (t.user_version ≡ v) × ObservationsAre row t.observations es)
          (migrate row driver text)
          Upgraded
  unfolding migrate
  migrate-Leads n v p q =
      let Kept : Tables Col → Type 0 = λ t. ObservationsAre row t.observations es in
      Leads-bind (λ version t. (version ≡ v) × Kept t) _ _ Upgraded
        (Leads-query driver _ _ (λ t h. h))
        λ version. Leads-given λ same. rw same (
          Leads-if (ltb 5 v) _ _ Upgraded (λ e. absurd (ground arith))
            λ _.
              Leads-if (v == 5) _ _ Upgraded (λ e. absurd (ground arith))
                λ _.
                  Leads-in_transaction driver Upgraded _
                    (rw (pending n v p) (upgrade-Leads n v p q)))

  migrate-IsAtomic : IsAtomic (migrate row driver text)
  unfolding migrate fail return
  migrate-IsAtomic = query-bind-IsAtomic driver _ _ λ version.
      IsAtomic-if (ltb 5 version) _ _ (record { at = λ c h. refl })
        (IsAtomic-if (version == 5) _ _ (record { at = λ c h. refl })
          (in_transaction-IsAtomic driver _))

  -- The upgrade of a database of version 1 to 4 that succeeds leaves version 5, the observations
  -- that it found, and the claims that a repository in memory has after the same observations; one
  -- that fails at any statement leaves every table and the version as they were.
  pub migrate_rebuilds :
      (c : Connection Col)
      → 0 < c.tables.user_version
      → c.tables.user_version < 5
      → ObservationsAre row c.tables.observations es
      → EndsIn
          (Upgraded tt (migrate row driver text c).0.tables)
          ((migrate row driver text c).0.tables ≡ c.tables)
          (migrate row driver text c).1
  migrate_rebuilds c p q h =
      ends _ _ (migrate row driver text c).1
        ((migrate-Leads (4 - c.tables.user_version) c.tables.user_version (omega arith) p).at c
          (refl, h))
        (migrate-IsAtomic.at c)
