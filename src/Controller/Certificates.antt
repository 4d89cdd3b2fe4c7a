-- ===== src/Controller/Certificates.antt =====
-- internal/controller/server.go: the handlers that issue, rotate and revoke the certificates of
-- collectors. X.509, base64 and the authority's key are the parameter `Authority`.
pub mod Enrolled
mod Examples
use topo.Prelude.{
  ℕ, ◌+◌, ◌*◌, ◌≡◌, Bool, true, false, not, String, codes, Option, none, some, List, [], ◌∷◌, ◌++◌,
  if◌then◌else◌, pos, Result, ok, err, lookup,
}
use topo.Audit.{Text, AuditText}
use topo.Enrollment.Ids.{valid_collector_id}
use topo.Enrollment.Tokens.{TokenStore, TokenError, issue, redeem}
use topo.Store.Model.{CertificateRevocation}
use topo.Store.Memory.{Memory, revoke_certificate, is_certificate_revoked}
use topo.Controller.Authorization.{valid_revocation_reason}
use topo.Controller.Server.{Server, Reply, record_audit}

-- Times are in nanoseconds.
abbrev pub enrollment_token_ttl : ℕ
enrollment_token_ttl = 3600 * 1000000000

abbrev pub default_certificate_ttl : ℕ
default_certificate_ttl = 90 * 24 * 3600 * 1000000000

-- A parsed request for a certificate, and the authority: the parsing of a base64 text, the signing
-- for a collector, the serial of a certificate, the normal form of the text of a serial, the
-- fingerprint of a token and the format of a time to the second.
pub record Authority (Csr : Type 0) : Type 0 where
  pub parse_csr : String → Option Csr
  pub sign : Csr → String → Option Text
  pub serial_of : Text → Option String
  pub normalize_serial : String → Option String
  pub token_fingerprint : String → Text
  pub format_seconds : ℕ → Text

-- The controller with its enrolment tokens.
pub record Enrolling : Type 0 where
  pub server : Server
  pub tokens : TokenStore

pub record EnrollRequest : Type 0 where
  pub token : String
  pub collector_id : String
  pub csr : String

pub record EnrollResponse : Type 0 where
  pub certificate : Text
  pub serial_number : String
  pub expires_at : ℕ

pub record RevocationRequest : Type 0 where
  pub serial_number : String
  pub reason : String

module _ {Csr : Type 0} (text : AuditText) (authority : Authority Csr) where
  token_issued :
      Enrolling
      → String
      → ℕ
      → TokenStore × Result TokenError (String × ℕ)
      → Enrolling × Reply (String × ℕ)
  token_issued s collector recorded (tokens, err e) = (record s { tokens = tokens }, err 500)
  token_issued s collector recorded (tokens, ok (token, expires_at)) = (
    record s {
      tokens = tokens;
      server = record_audit text s.server recorded "enrollment_token_issued" "api-key" (
          (codes "collector_id", codes collector)
          ∷ (codes "token_fingerprint", authority.token_fingerprint token)
          ∷ (codes "expires_at", authority.format_seconds expires_at)
          ∷ []);
    },
    ok (token, expires_at),
  )

  -- The body holds the collector ID.
  unfoldable pub create_enrollment_token :
      Enrolling → Option String → Option String → ℕ → ℕ → Enrolling × Reply (String × ℕ)
  unfolding token_issued
  create_enrollment_token s none random now recorded = (s, err 400)
  create_enrollment_token s (some collector) random now recorded =
      if not (valid_collector_id collector)
      then (s, err 400)
      else token_issued s collector recorded
          (issue s.tokens collector (pos enrollment_token_ttl) random now)

  -- The certificate with its serial: signing and parsing may fail.
  signed : Csr → String → Option (Text × String)
  signed csr collector = elim (authority.sign csr collector) [
    | none ↦ none
    | some certificate ↦ elim (authority.serial_of certificate) [
      | none ↦ none
      | some serial ↦ some (certificate, serial)
    ]
  ]

  -- The reply to an accepted request, with what the audit log is told of the serial it replaces.
  certificate_reply :
      Server
      → String
      → String
      → List (Text × Text)
      → ℕ
      → ℕ
      → Option (Text × String)
      → Server × Reply EnrollResponse
  certificate_reply s action collector previous now recorded none = (s, err 500)
  certificate_reply s action collector previous now recorded (some (certificate, serial)) =
      let expires_at = now + default_certificate_ttl in
      (
        record_audit text s recorded action collector (
            previous
            ++ ((codes "serial_number", codes serial)
                ∷ (codes "expires_at", authority.format_seconds expires_at)
                ∷ [])),
        ok (record { certificate = certificate; serial_number = serial; expires_at = expires_at }),
      )

  -- The token is redeemed only after the request for a certificate was found to be valid.
  enroll_redeemed :
      Enrolling → EnrollRequest → Csr → ℕ → ℕ → TokenStore × Bool → Enrolling × Reply EnrollResponse
  unfolding signed certificate_reply
  enroll_redeemed s req csr now recorded (tokens, false) = (record s { tokens = tokens }, err 401)
  enroll_redeemed s req csr now recorded (tokens, true) =
      let (server, reply) =
        certificate_reply s.server "collector_enrolled" req.collector_id [] now recorded
          (signed csr req.collector_id) in
      (record { server = server; tokens = tokens }, reply)

  enroll_parsed : Enrolling → EnrollRequest → ℕ → ℕ → Option Csr → Enrolling × Reply EnrollResponse
  unfolding enroll_redeemed
  enroll_parsed s req now recorded none = (s, err 400)
  enroll_parsed s req now recorded (some csr) =
      enroll_redeemed s req csr now recorded (redeem s.tokens req.token req.collector_id now)

  unfoldable pub enroll :
      Enrolling → Option EnrollRequest → ℕ → ℕ → Enrolling × Reply EnrollResponse
  unfolding enroll_parsed
  enroll s none now recorded = (s, err 400)
  enroll s (some req) now recorded =
      if not (valid_collector_id req.collector_id)
      then (s, err 400)
      else enroll_parsed s req now recorded (authority.parse_csr req.csr)

  rotate_parsed : Server → String → String → ℕ → ℕ → Option Csr → Server × Reply EnrollResponse
  unfolding signed certificate_reply
  rotate_parsed s collector old_serial now recorded none = (s, err 400)
  rotate_parsed s collector old_serial now recorded (some csr) =
      if is_certificate_revoked s.memory old_serial
      then (s, err 401)
      else certificate_reply s "certificate_rotated" collector
          ((codes "previous_serial_number", codes old_serial) ∷ []) now recorded
          (signed csr collector)

  -- The name and the serial of the verified certificate, and the request of the body.
  unfoldable pub rotate :
      Server → Option (String × String) → Option String → ℕ → ℕ → Server × Reply EnrollResponse
  unfolding rotate_parsed
  rotate s none body now recorded = (s, err 401)
  rotate s (some (collector, old_serial)) none now recorded =
      if not (valid_collector_id collector) then (s, err 401) else (s, err 400)
  rotate s (some (collector, old_serial)) (some csr) now recorded =
      if not (valid_collector_id collector)
      then (s, err 401)
      else rotate_parsed s collector old_serial now recorded (authority.parse_csr csr)

  -- A revocation that is there already is the reply.
  revoked_reply :
      Server → CertificateRevocation → ℕ → Memory × Bool → Server × Reply CertificateRevocation
  revoked_reply s revocation recorded (memory, true) = (
    record_audit text (record s { memory = memory }) recorded "certificate_revoked" "api-key"
        ((codes "serial_number", codes revocation.serial_number)
          ∷ (codes "reason", codes revocation.reason)
          ∷ []),
    ok revocation,
  )
  revoked_reply s revocation recorded (memory, false) = (
    record s { memory = memory },
    elim (lookup memory.revocations revocation.serial_number) [
      | none ↦ err 500
      | some existing ↦ ok existing
    ],
  )

  revoke_normal : Server → String → ℕ → ℕ → Option String → Server × Reply CertificateRevocation
  unfolding revoked_reply
  revoke_normal s reason now recorded none = (s, err 400)
  revoke_normal s reason now recorded (some serial) =
      let revocation : CertificateRevocation = record {
        serial_number = serial;
        reason = reason;
        revoked_at = now;
      } in
      if not (valid_revocation_reason reason)
      then (s, err 400)
      else revoked_reply s revocation recorded (revoke_certificate s.memory revocation)

  unfoldable pub create_certificate_revocation :
      Server → Option RevocationRequest → ℕ → ℕ → Server × Reply CertificateRevocation
  unfolding revoke_normal
  create_certificate_revocation s none now recorded = (s, err 400)
  create_certificate_revocation s (some req) now recorded =
      revoke_normal s req.reason now recorded (authority.normalize_serial req.serial_number)
