-- ===== src/Mid/Records.antt =====
-- internal/mid/contract.go and dispatcher.go: the records of the queue and the answers to them.
pub mod Answers
use Prim.Native.String.{◌++◌ as str_append}
use topo.Prelude.{
  ℕ, zero, suc, ◌+◌, ◌*◌, ◌≡◌, Bool, true, false, not, ◌&&◌, ◌||◌, ◌==◌, String, str_eq, Option,
  none, some, List, [], ◌∷◌, ◌++◌, any, length, leb, ltb, if◌then◌else◌, codes,
}
use topo.Audit.{Text}
use topo.Enrollment.Ids.{byte_len}

-- Record: a row of ecc_queue. The texts that may be long are lists of bytes.
pub record EccRecord : Type 0 where
  pub sys_id : String
  pub agent : String
  pub topic : String
  pub name : String
  pub source : String
  pub queue : String
  pub state : String
  pub response_to : String
  pub agent_correlator : String
  pub parameters : Text
  pub payload : Text
  pub error_string : Text
  pub created_on : String

abbrev pub max_short_field_bytes : ℕ
max_short_field_bytes = 512

abbrev pub max_parameters_bytes : ℕ
max_parameters_bytes = 256 * 1024

abbrev pub max_payload_bytes : ℕ
max_payload_bytes = 1048576

abbrev pub max_error_string_bytes : ℕ
max_error_string_bytes = 4096

abbrev pub max_ecc_record_json_bytes : ℕ
max_ecc_record_json_bytes = 2 * 1048576

abbrev pub is_alnum : ℕ → Bool
is_alnum c = (leb 48 c && leb c 57) || (leb 65 c && leb c 90) || (leb 97 c && leb c 122)

abbrev pub is_hex : ℕ → Bool
is_hex c = (leb 48 c && leb c 57) || (leb 65 c && leb c 70) || (leb 97 c && leb c 102)

abbrev pub every : (ℕ → Bool) → List ℕ → Bool
every p [] = true
every p (c ∷ cs) = p c && every p cs

-- `^[0-9a-fA-F]{32}$`
unfoldable pub is_sys_id : String → Bool
is_sys_id s = length (codes s) == 32 && every is_hex (codes s)

-- `^[A-Za-z0-9][A-Za-z0-9._-]{0,127}$`
mid_name_ok : List ℕ → Bool
mid_name_ok [] = false
mid_name_ok (c ∷ cs) =
    is_alnum c && leb (length cs) 127 && every (λ d. is_alnum d || d == 46 || d == 95 || d == 45) cs

pub agent_name : String → Option String
unfolding mid_name_ok
agent_name mid_name =
    if mid_name_ok (codes mid_name) then some (str_append "mid.server." mid_name) else none

unfoldable pub has_control : String → Bool
has_control value = any (λ c. ltb c 32 || c == 127) (codes value)

-- The two checks of the loop over the short fields.
abbrev short_ok : String → Bool
short_ok value = leb (byte_len (codes value)) max_short_field_bytes && not (has_control value)

unfoldable pub validate_record_fields : EccRecord → Bool
validate_record_fields r =
    short_ok r.agent
    && short_ok r.topic
    && short_ok r.name
    && short_ok r.source
    && short_ok r.queue
    && short_ok r.state
    && short_ok r.response_to
    && short_ok r.agent_correlator
    && short_ok r.created_on
    && not (str_eq r.topic "")
    && leb (length r.parameters) max_parameters_bytes
    && leb (length r.payload) max_payload_bytes
    && leb (length r.error_string) max_error_string_bytes

unfoldable pub validate_output_record : EccRecord → String → Bool
validate_output_record r agent =
    is_sys_id r.sys_id
    && str_eq r.agent agent
    && str_eq r.queue "output"
    && (str_eq r.state "ready" || str_eq r.state "processing" || str_eq r.state "processed")
    && validate_record_fields r

unfoldable pub validate_input_record : EccRecord → String → Bool
validate_input_record r agent =
    (str_eq r.sys_id "" || is_sys_id r.sys_id)
    && (str_eq r.agent agent && str_eq r.queue "input" && str_eq r.state "ready")
    && is_sys_id r.response_to
    && validate_record_fields r

-- The loop of strings.Map, on a text that is UTF-8.
abbrev keep_printable : Text → Text
keep_printable [] = []
keep_printable (b ∷ bs) = if ltb b 32 || b == 127 then keep_printable bs else b ∷ keep_printable bs

-- `value[:limit]`
abbrev take : ℕ → Text → Text
take zero bs = []
take (suc n) [] = []
take (suc n) (b ∷ bs) = b ∷ take n bs

unfoldable pub bounded_text : Text → ℕ → Text
bounded_text value limit =
    let printable = keep_printable value in
    if leb (length printable) limit then printable else take limit printable ++ codes "..."

-- resultPayloadItem
pub record ResultItem : Type 0 where
  pub status : String
  pub code : Text
  pub message : Text
  pub version : Text

abbrev heartbeat_item : Text → ResultItem
heartbeat_item version = record {
  status = "success";
  code = [];
  message = codes "Topo ECC heartbeat acknowledged";
  version = bounded_text version 128;
}

abbrev unsupported_item : ResultItem
unsupported_item = record {
  status = "error";
  code = codes "topo_unsupported_topic";
  message = codes "Topo denied an unsupported ECC topic";
  version = [];
}

-- encoding/json, encoding/xml and SHA-256: the JSON of a record with its length and hash, and the
-- XML of a result.
pub record MidText : Type 0 where
  pub json_length : EccRecord → ℕ
  pub json_hash : EccRecord → String
  pub result_xml : ResultItem → Text

module _ (text : MidText) where
  -- The state and the time are left out.
  unfoldable pub record_digest : EccRecord → Option String
  record_digest r =
      let fixed = record r { state = ""; created_on = "" } in
      if ltb max_ecc_record_json_bytes (text.json_length fixed)
      then none
      else some (text.json_hash fixed)

  -- The fields that every answer takes from the record.
  abbrev answer_to : EccRecord → String → Text → ResultItem → EccRecord
  answer_to r name error_string item = record {
    sys_id = "";
    agent = r.agent;
    topic = r.topic;
    name = name;
    source = r.source;
    queue = "input";
    state = "ready";
    response_to = r.sys_id;
    agent_correlator = r.agent_correlator;
    parameters = r.parameters;
    payload = text.result_xml item;
    error_string = error_string;
    created_on = "";
  }

  abbrev when_valid : String → EccRecord → Option EccRecord
  when_valid agent result = if validate_input_record result agent then some result else none

  unfoldable pub dispatch : EccRecord → Text → Option EccRecord
  dispatch r version = when_valid r.agent (
      if str_eq r.topic "Heartbeat"
      then answer_to r r.name [] (heartbeat_item version)
      else answer_to r "Topo unsupported ECC topic" (codes "Topo denied an unsupported ECC topic")
          unsupported_item)

  unfoldable pub dispatch_error : EccRecord → Text → Text → Option EccRecord
  dispatch_error r code message =
      let bounded = bounded_text message max_error_string_bytes in
      when_valid r.agent (
        answer_to r "Topo denied ECC record" bounded (record {
          status = "error";
          code = bounded_text code 128;
          message = bounded;
          version = [];
        }))
