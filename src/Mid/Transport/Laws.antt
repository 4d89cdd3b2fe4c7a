-- ===== src/Mid/Transport/Laws.antt =====
-- client.go: what its calls do to the responses in the queue, for a service that keeps its rows.
use topo.Prelude.{
  ℕ, ◌+◌, ◌≤◌, ◌≡◌, refl, ap, ◌∙◌, ◌≢◌, Bool, true, false, ◌&&◌, String, str_eq, Option, none, some,
  List, [], ◌∷◌, All, length, leb, arith, if◌then◌else◌, to_count, Bool-cases, inl, inr,
}
use topo.Prelude.Actions.{
  OnSome, OnSome-unit, Ensures, Ensures-return, Ensures-lift, Ensures-require, Ensures-bind,
  Ensures-guard, ◌>>=◌, ◌>>◌, continue, require, return, fail,
}
use topo.Mid.Records.{EccRecord, MidText, is_sys_id, validate_record_fields, validate_input_record}
use topo.Mid.Transport.{
  Query, ready_for, by_id, responses_to, Service, Mid, check_rows, one_row, all_rows, on_remote,
  query_records, poll, get, update_state, claim, mark_processed, find_responses,
}

-- The table behind the service: `answered r id` is how many rows of the agent respond to the row
-- `id`. Queries and updates leave them, an insertion adds at most its own row, a query for
-- responses finds one where there is one, and a query by ID finds rows of that ID only.
pub record ServiceLaws {Remote : Type 0} (service : Service Remote) (agent : String)
    (answered : Remote → String → ℕ) : Type 0 where
  pub get_records-answered :
      (r : Remote) (query : Query) (limit : ℕ) (id : String)
      → answered (service.get_records r query limit).0 id ≡ answered r id
  pub update-answered :
      (r : Remote) (sys_id state id : String)
      → answered (service.update r sys_id state).0 id ≡ answered r id
  pub insert-answered :
      (r : Remote) (new : EccRecord) (id : String)
      → answered (service.insert r new).0 id ≤ answered r id + to_count (str_eq id new.response_to)
  pub finds_responses :
      (r : Remote) (id : String)
      → (service.get_records r (responses_to id agent) 2).1 ≡ some []
      → answered r id ≡ 0
  pub finds_by_id :
      (r : Remote) (id owner : String) (rows : List EccRecord)
      → (service.get_records r (by_id id owner) 2).1 ≡ some rows
      → All (λ row. row.sys_id ≡ id) rows

checked :
    (fine : Bool) (rows : List EccRecord) (P : List EccRecord → Type 0)
    → P rows
    → OnSome P (if fine then some rows else none)
checked true rows P h = h
checked false rows P h = tt

none-ne-some : {A : Type 0} {a : A} → none ≢ some a
none-ne-some h = cc

some-injective : {A : Type 0} {a b : A} → some a ≡ some b → a ≡ b
some-injective h = cc

-- The last check of a query leaves the state, and empty rows are those that it was given.
checked_rows :
    {S : Type 0} (fine : Bool) (rows : List EccRecord) (m : S)
    → (((require fine >> return rows) m).0 ≡ m)
      × (((require fine >> return rows) m).1 ≡ some [] → rows ≡ [])
unfolding require return fail ◌>>=◌
checked_rows true rows m = (refl, λ h. some-injective h)
checked_rows false rows m = (refl, λ h. absurd (none-ne-some h))

after_rows :
    {S : Type 0} (p : List EccRecord → Bool) (o : Option (List EccRecord)) (m : S)
    → ((continue m o (λ rows. require (p rows) >> return rows)).0 ≡ m)
      × ((continue m o (λ rows. require (p rows) >> return rows)).1 ≡ some [] → o ≡ some [])
after_rows p none m = (refl, λ h. h)
after_rows p (some rows) m =
    let (same, empty) = checked_rows (p rows) rows m in (same, λ h. ap some (empty h))

check_rows_empty : (o : Option (List EccRecord)) → check_rows 2 o ≡ some [] → o ≡ some []
check_rows_empty none h = h
check_rows_empty (some []) h = refl
check_rows_empty (some (r ∷ rows)) h = ground arith

found_by_id :
    (o : Option (List EccRecord)) (id : String)
    → ((rows : List EccRecord) → o ≡ some rows → All (λ row. row.sys_id ≡ id) rows)
    → OnSome (All (λ row. row.sys_id ≡ id)) o
found_by_id none id h = tt
found_by_id (some rows) id h = h rows refl

module _ {Remote : Type 0} (text : MidText) (service : Service Remote) (agent : String)
    (answered : Remote → String → ℕ) where
  -- No record has two responses.
  abbrev pub OneResponse : Mid Remote → Type 0
  OneResponse m = (id : String) → answered m.remote id ≤ 1

  module _ (laws : ServiceLaws service agent answered) where
    open laws use {
      get_records-answered, update-answered, insert-answered, finds_responses, finds_by_id,
    }

    query_records-keeps :
        (query : Query) (limit : ℕ)
        → Ensures OneResponse (query_records text service query limit) (λ _. Unit)
    unfolding query_records on_remote
    query_records-keeps query limit = record {
      at = λ m h. (λ id. rw (get_records-answered m.remote query limit id) (h id), OnSome-unit _);
    }

    check_rows-some :
        (limit : ℕ) (o : Option (List EccRecord)) (P : List EccRecord → Type 0)
        → OnSome P o
        → OnSome P (check_rows limit o)
    check_rows-some limit none P h = tt
    check_rows-some limit (some rows) P h =
        checked (leb (length rows) limit && all_rows validate_record_fields rows) rows P h

    by_id-keeps :
        (id owner : String)
        → Ensures OneResponse
            (query_records text service (by_id id owner) 2)
            (All (λ row. row.sys_id ≡ id))
    unfolding query_records on_remote
    by_id-keeps id owner = record {
      at = λ m h. (
        λ other. rw (get_records-answered m.remote (by_id id owner) 2 other) (h other),
        check_rows-some 2 (service.get_records m.remote (by_id id owner) 2).1 _ (
            found_by_id (service.get_records m.remote (by_id id owner) 2).1 id
              (finds_by_id m.remote id owner)),
      );
    }

    updated :
        (sys_id state : String)
        → Ensures OneResponse
            (on_remote text service (λ r. service.update r sys_id state))
            (λ _. Unit)
    unfolding on_remote
    updated sys_id state = record {
      at = λ m h. (λ id. rw (update-answered m.remote sys_id state id) (h id), OnSome-unit _);
    }

    update_state-keeps :
        (sys_id state : String)
        → Ensures OneResponse (update_state text service sys_id state) (λ _. Unit)
    unfolding update_state
    update_state-keeps sys_id state =
        Ensures-bind _ _ (λ _. Unit) (λ _. Unit) (updated sys_id state)
          (λ id _.
            Ensures-bind _ _ (λ _. is_sys_id id ≡ true) (λ _. Unit) (Ensures-require _)
              (λ _ _. Ensures-return id (λ _. Unit) tt))

    one_row-sys_id :
        (id : String) (rows : List EccRecord)
        → All (λ row. row.sys_id ≡ id) rows
        → OnSome (λ row. row.sys_id ≡ id) (one_row rows)
    one_row-sys_id id [] h = tt
    one_row-sys_id id (r ∷ []) h = h.0
    one_row-sys_id id (r ∷ s ∷ rows) h = tt

    pub get-Ensures :
        (id owner : String)
        → Ensures OneResponse (get text service id owner) (λ row. row.sys_id ≡ id)
    unfolding get
    get-Ensures id owner = Ensures-guard _ _ _ λ _.
        Ensures-bind _ _ (All (λ row. row.sys_id ≡ id)) _ (by_id-keeps id owner) λ rows all.
          Ensures-bind _ _ (λ row. row.sys_id ≡ id) _
            (Ensures-lift _ _ (one_row-sys_id id rows all))
            λ row same. Ensures-guard _ _ _ λ _. Ensures-return row _ same

    pub claim-Ensures :
        (r : EccRecord) → Ensures OneResponse (claim text service r) (λ row. row.sys_id ≡ r.sys_id)
    unfolding claim
    claim-Ensures r = Ensures-guard _ _ _ λ _.
        Ensures-bind _ _ (λ _. Unit) _ (Ensures-lift _ _ (OnSome-unit _))
          λ digest _.
            Ensures-bind _ _ (λ _. Unit) _ (update_state-keeps r.sys_id "processing")
              λ id _.
                Ensures-bind _ _ (λ row. row.sys_id ≡ r.sys_id) _ (get-Ensures r.sys_id r.agent)
                  λ row same. Ensures-guard _ _ _ λ _.
                    Ensures-bind _ _ (λ _. Unit) _ (Ensures-lift _ _ (OnSome-unit _))
                      λ claimed_digest _. Ensures-guard _ _ _ λ _. Ensures-return row _ same

    pub mark_processed-keeps :
        (r : EccRecord) → Ensures OneResponse (mark_processed text service r) (λ _. Unit)
    unfolding mark_processed
    mark_processed-keeps r = Ensures-guard _ _ _ λ _. update_state-keeps r.sys_id "processed"

    pub poll-keeps :
        (owner : String) (limit : ℕ)
        → Ensures OneResponse (poll text service owner limit) (λ _. Unit)
    unfolding poll
    poll-keeps owner limit = Ensures-guard _ _ _ λ _. Ensures-guard _ _ _ λ _.
        Ensures-bind _ _ (λ _. Unit) _ (query_records-keeps (ready_for owner) limit)
          λ rows _. Ensures-guard _ _ _ λ _. Ensures-return rows _ tt

    found_rows :
        (id : String) (m : Mid Remote)
        → is_sys_id id ≡ true
        → ((find_responses text service id agent m).0
            ≡ record m { remote = (service.get_records m.remote (responses_to id agent) 2).0 })
          × ((find_responses text service id agent m).1 ≡ some []
              → (service.get_records m.remote (responses_to id agent) 2).1 ≡ some [])
    unfolding find_responses query_records on_remote require return ◌>>=◌
    found_rows id m good =
        let (t, rows) = service.get_records m.remote (responses_to id agent) 2 in
        let (same, empty) =
          after_rows (all_rows (λ r. validate_input_record r agent)) (check_rows 2 rows)
            (record m { remote = t }) in
        rw good (same, λ h. check_rows_empty rows (empty h))

    -- A query for responses that finds none, and changes none.
    pub find_responses-none :
        (id : String) (m : Mid Remote)
        → (find_responses text service id agent m).1 ≡ some []
        → answered m.remote id ≡ 0
    unfolding find_responses require fail ◌>>=◌
    find_responses-none id m h = elim (Bool-cases (is_sys_id id)) [
      | inr bad ↦ absurd (none-ne-some (rw bad at h))
      | inl good ↦ finds_responses m.remote id ((found_rows id m good).1 h)
    ]

    pub find_responses-answered :
        (id other : String) (m : Mid Remote)
        → answered (find_responses text service id agent m).0.remote other ≡ answered m.remote other
    unfolding find_responses require fail ◌>>=◌
    find_responses-answered id other m = elim (Bool-cases (is_sys_id id)) [
      | inr bad ↦ rw bad refl
      | inl good ↦
          ap (λ t. answered t.remote other) ((found_rows id m good).0)
          ∙ get_records-answered m.remote (responses_to id agent) 2 other
    ]
