-- ===== src/Mid/Transport.antt =====
-- internal/mid/client.go: the calls of the ECC queue. The web service behind them is a parameter; its
-- answers come with the texts trimmed and the IDs in lower case, as the decoder leaves them.
pub mod Laws
use topo.Prelude.{
  ℕ, ◌+◌, ◌≡◌, Bool, true, false, not, ◌&&◌, ◌||◌, ◌==◌, String, str_eq, Option, none, some, List,
  [], ◌∷◌, any, length, leb, ltb, if◌then◌else◌, codes, bytes_eq,
}
use topo.Prelude.Actions.{Action, ◌>>=◌, ◌>>◌, return, fail, lift, require}
use topo.Audit.{Text}
use topo.Mid.Records.{
  EccRecord, MidText, is_sys_id, has_control, validate_record_fields, validate_output_record,
  validate_input_record, record_digest,
}

abbrev pub max_poll_records : ℕ
max_poll_records = 16

-- The encoded queries that the client sends.
pub data Query : Type 0 where
  -- agent, queue=output, state=ready
  ready_for : String → Query
  -- sys_id, agent
  by_id : String → String → Query
  -- response_to, agent, queue=input
  responses_to : String → String → Query

-- The SOAP service, with whatever state it has: the rows of a query, and the ID of the row that
-- an update of a state or an insertion changed. An error may come after the change was made.
pub record Service (Remote : Type 0) : Type 0 where
  pub get_records : Remote → Query → ℕ → Remote × Option (List EccRecord)
  pub update : Remote → String → String → Remote × Option String
  pub insert : Remote → EccRecord → Remote × Option String

-- The runtime as a whole: the service, the journal file, and how many calls to the disk were made.
pub record Mid (Remote : Type 0) : Type 0 where
  pub remote : Remote
  pub file : Option Text
  pub calls : ℕ

abbrev all_rows : (EccRecord → Bool) → List EccRecord → Bool
all_rows p rows = not (any (λ r. not (p r)) rows)

-- What the client accepts of the rows of a query.
abbrev pub check_rows : ℕ → Option (List EccRecord) → Option (List EccRecord)
check_rows limit none = none
check_rows limit (some rows) =
    if leb (length rows) limit && all_rows validate_record_fields rows then some rows else none

abbrev is_prefix : List ℕ → List ℕ → Bool
is_prefix [] cs = true
is_prefix (p ∷ ps) [] = false
is_prefix (p ∷ ps) (c ∷ cs) = p == c && is_prefix ps cs

abbrev one_row : List EccRecord → Option EccRecord
one_row [] = none
one_row (r ∷ []) = some r
one_row (r ∷ s ∷ rows) = none

module _ {Remote : Type 0} (text : MidText) (service : Service Remote) where
  unfoldable pub on_remote : {A : Type 0} → (Remote → Remote × Option A) → Action (Mid Remote) A
  on_remote f m = let (r, o) = f m.remote in (record m { remote = r }, o)

  unfoldable pub query_records : Query → ℕ → Action (Mid Remote) (List EccRecord)
  query_records query limit =
      on_remote λ r. let (t, rows) = service.get_records r query limit in (t, check_rows limit rows)

  unfoldable pub poll : String → ℕ → Action (Mid Remote) (List EccRecord)
  poll agent limit = do
    require (
        is_prefix (codes "mid.server.") (codes agent)
        && leb (length (codes agent)) 139
        && not (has_control agent))
    require (leb 1 limit && leb limit max_poll_records)
    rows ← query_records (ready_for agent) limit
    require (all_rows (λ r. validate_output_record r agent && str_eq r.state "ready") rows)
    return rows

  unfoldable pub get : String → String → Action (Mid Remote) EccRecord
  get sys_id agent = do
    require (is_sys_id sys_id)
    rows ← query_records (by_id sys_id agent) 2
    row ← lift (one_row rows)
    require (validate_output_record row agent)
    return row

  -- `mutate` for an update of the state.
  update_state : String → String → Action (Mid Remote) String
  update_state sys_id state = do
    id ← on_remote (λ r. service.update r sys_id state)
    require (is_sys_id id)
    return id

  unfoldable pub claim : EccRecord → Action (Mid Remote) EccRecord
  unfolding update_state
  claim r = do
    require (str_eq r.state "ready")
    digest ← lift (record_digest text r)
    update_state r.sys_id "processing"
    claimed ← get r.sys_id r.agent
    require (str_eq claimed.state "processing")
    claimed_digest ← lift (record_digest text claimed)
    require (str_eq claimed_digest digest)
    return claimed

  unfoldable pub mark_processed : EccRecord → Action (Mid Remote) String
  unfolding update_state
  mark_processed r = do
    require (is_sys_id r.sys_id && str_eq r.state "processing")
    update_state r.sys_id "processed"

  unfoldable pub find_responses : String → String → Action (Mid Remote) (List EccRecord)
  find_responses response_to agent = do
    require (is_sys_id response_to)
    rows ← query_records (responses_to response_to agent) 2
    require (all_rows (λ r. validate_input_record r agent) rows)
    return rows

  unfoldable pub insert_result : EccRecord → Action (Mid Remote) String
  insert_result r = do
    require (validate_input_record r r.agent)
    id ← on_remote (λ t. service.insert t r)
    require (is_sys_id id)
    return id
