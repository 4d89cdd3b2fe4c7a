-- ===== src/Mid/Records/Answers.antt =====
-- dispatcher.go: what the answers say of the record that they answer.
use topo.Prelude.{
  ℕ, zero, suc, ◌+◌, ◌*◌, ◌≤◌, ◌≡◌, refl, true, false, ◌||◌, ◌==◌, String, str_eq, some, List, [],
  ◌∷◌, any, length, length-append, leb, ltb, leb→le, if◌then◌else◌, codes, arith, eq_iff,
  Bool-cases, inl, inr,
}
use topo.Prelude.Actions.{OnSome}
use topo.Audit.{Text}
use topo.Enrollment.Ids.{byte_len}
use topo.Mid.Records.{
  EccRecord, MidText, ResultItem, is_sys_id, every, is_hex, has_control, validate_record_fields,
  validate_output_record, validate_input_record, short_ok, answer_to, when_valid, heartbeat_item,
  unsupported_item, keep_printable, take, bounded_text, dispatch, dispatch_error, max_payload_bytes,
  max_error_string_bytes,
}

-- A valid answer in the agent's name that is correlated to the record.
abbrev pub Correlated : EccRecord → EccRecord → Type 0
Correlated r a =
    (validate_input_record a r.agent ≡ true)
    × (a.response_to ≡ r.sys_id)
    × (a.agent_correlator ≡ r.agent_correlator)
    × (a.topic ≡ r.topic)

length-take : (n : ℕ) (bs : Text) → length (take n bs) ≤ n
length-take zero bs = ground arith
length-take (suc n) [] = ground arith
length-take (suc n) (b ∷ bs) = ground (arith, length-take n bs)

-- The text is cut to the limit, and then marked by three dots.
length-bounded_text : (value : Text) (limit : ℕ) → length (bounded_text value limit) ≤ limit + 3
unfolding bounded_text
length-bounded_text value limit = elim (Bool-cases (leb (length (keep_printable value)) limit)) [
  | inl t ↦ rw t (ground (arith, leb→le (length (keep_printable value)) limit))
  | inr f ↦
      rw (f, length-append (take limit (keep_printable value)) (codes "..."))
        (ground (arith, length-take limit (keep_printable value)))
]

-- What an ID may be is short enough for every field.
hex_bytes :
    (cs : List ℕ)
    → every is_hex cs ≡ true
    → (byte_len cs ≤ 4 * length cs) × (any (λ c. ltb c 32 || c == 127) cs ≡ false)
hex_bytes [] h = ground arith
hex_bytes (c ∷ cs) h = ground (arith, hex_bytes cs)

is_sys_id-short_ok : (s : String) → is_sys_id s ≡ true → short_ok s ≡ true
unfolding is_sys_id has_control
is_sys_id-short_ok s h = ground (arith, hex_bytes (codes s))

str_eq_refl : (s : String) → str_eq s s ≡ true
str_eq_refl s = ground (arith, eq_iff s s)

no_control-input : has_control "input" ≡ false
unfolding has_control
no_control-input = refl

no_control-ready : has_control "ready" ≡ false
unfolding has_control
no_control-ready = refl

no_control-empty : has_control "" ≡ false
unfolding has_control
no_control-empty = refl

module _ (text : MidText) where
  -- What is given back for an answer with a payload that fits.
  answered :
      (r : EccRecord) (name : String) (error_string : Text) (item : ResultItem)
      → validate_output_record r r.agent ≡ true
      → short_ok name ≡ true
      → length error_string ≤ max_error_string_bytes
      → length (text.result_xml item) ≤ max_payload_bytes
      → validate_input_record (answer_to text r name error_string item) r.agent ≡ true
  unfolding validate_output_record validate_input_record validate_record_fields
  answered r name error_string item v n e p = ground (
    arith,
    str_eq_refl r.agent,
    is_sys_id-short_ok r.sys_id,
    no_control-input,
    no_control-ready,
    no_control-empty,
  )

  -- The checks of an answer refuse it or leave it.
  when_valid-OnSome :
      (agent : String) (a : EccRecord) (P : EccRecord → Type 0)
      → P a
      → OnSome P (when_valid text agent a)
  when_valid-OnSome agent a P h = elim (Bool-cases (validate_input_record a agent)) [
    | inl t ↦ rw t h
    | inr f ↦ rw f tt
  ]

  pub dispatch-response_to :
      (r : EccRecord) (version : Text)
      → OnSome (λ a. a.response_to ≡ r.sys_id) (dispatch text r version)
  unfolding dispatch
  dispatch-response_to r version = elim (Bool-cases (str_eq r.topic "Heartbeat")) [
    | inl t ↦ rw (t, dispatch) (when_valid-OnSome r.agent _ _ refl)
    | inr f ↦ rw (f, dispatch) (when_valid-OnSome r.agent _ _ refl)
  ]

  pub dispatch_error-response_to :
      (r : EccRecord) (code message : Text)
      → OnSome (λ a. a.response_to ≡ r.sys_id) (dispatch_error text r code message)
  unfolding dispatch_error
  dispatch_error-response_to r code message = when_valid-OnSome r.agent _ _ refl

  -- The XML of a result with short texts fits in a payload.
  abbrev pub ShortXml : Type 0
  ShortXml =
      (item : ResultItem)
      → length (codes item.status) + length item.code + length item.message + length item.version
        ≤ 256
      → length (text.result_xml item) ≤ max_payload_bytes

  output_short_name :
      (r : EccRecord) → validate_output_record r r.agent ≡ true → short_ok r.name ≡ true
  unfolding validate_output_record validate_record_fields
  output_short_name r v = ground arith

  unsupported_name : short_ok "Topo unsupported ECC topic" ≡ true
  unfolding has_control
  unsupported_name = refl

  -- Where the XML of a result with short texts, the status included, fits in a payload, a valid
  -- output record always gets an answer, which is valid in its turn and correlated to the record,
  -- and which has an error exactly where the topic is not Heartbeat.
  pub dispatch-Correlated :
      (r : EccRecord) (version : Text)
      → validate_output_record r r.agent ≡ true
      → ShortXml
      → (a : EccRecord) × (dispatch text r version ≡ some a)
        × Correlated r a
        × (a.error_string ≡ (
            if str_eq r.topic "Heartbeat"
            then []
            else codes "Topo denied an unsupported ECC topic"))
  unfolding dispatch
  dispatch-Correlated r version v short = elim (Bool-cases (str_eq r.topic "Heartbeat")) [
    | inl t ↦
        let fine =
          answered r r.name [] (heartbeat_item version) v (output_short_name r v) (ground arith)
            (short _ (ground (arith, length-bounded_text version 128))) in
        (
          answer_to text r r.name [] (heartbeat_item version),
          rw t (rw fine refl),
          (fine, refl, refl, refl),
          rw t refl,
        )
    | inr f ↦
        let fine =
          answered r "Topo unsupported ECC topic" (codes "Topo denied an unsupported ECC topic")
            unsupported_item v unsupported_name (ground arith) (short _ (ground arith)) in
        (
          answer_to text r "Topo unsupported ECC topic"
              (codes "Topo denied an unsupported ECC topic") unsupported_item,
          rw f (rw fine refl),
          (fine, refl, refl, refl),
          rw f refl,
        )
  ]
