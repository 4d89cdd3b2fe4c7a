-- ===== src/Controller/Certificates/Examples.antt =====
-- Two enrolments with one token.
use topo.Prelude.{◌≡◌, refl, true, false, some, [], ◌∷◌, String, pos, lookup, store, codes}
use topo.Audit.{AuditText}
use topo.Enrollment.Ids.{valid_collector_id}
use topo.Enrollment.Tokens.{new_token_store, issue, redeem}
use topo.Enrollment.Tokens.SingleUse.{here}
use topo.Store.Memory.{new_memory}
use topo.Controller.Certificates.{Authority, Enrolling, EnrollRequest, enroll}
use topo.Controller.Certificates.Enrolled.{is_ok, enroll_once}

abbrev copying : AuditText
copying = record { sha256_hex = λ a. a; format_int = λ n. n ∷ []; format_time = λ n. n ∷ [] }

-- The text of a request stands for the request, and a certificate has one serial.
abbrev lab_authority : Authority String
lab_authority = record {
  parse_csr = λ text. some text;
  sign = λ csr collector. some (codes csr);
  serial_of = λ certificate. some "5a";
  normalize_serial = λ text. some text;
  token_fingerprint = λ token. [];
  format_seconds = λ time. time ∷ [];
}

abbrev enrolling : Enrolling
enrolling = record {
  server = record {
    memory = new_memory;
    jobs = record { jobs = [] };
    heartbeats = record { records = []; stale_after = 60 };
  };
  tokens = (issue new_token_store "dc-1" (pos 60) (some "t0ken") 100).0;
}

abbrev first_request : EnrollRequest
first_request = record { token = "t0ken"; collector_id = "dc-1"; csr = "request" }

abbrev other_request : EnrollRequest
other_request = record { token = "t0ken"; collector_id = "dc-2"; csr = "other" }

enrolled : is_ok (enroll copying lab_authority enrolling (some first_request) 120 121).1 ≡ true
unfolding enroll redeem issue new_token_store valid_collector_id store lookup
enrolled = refl

enroll_once_example :
    is_ok
      (enroll copying lab_authority
        (enroll copying lab_authority enrolling (some first_request) 120 121).0
        (some other_request)
        130
        131).1
    ≡ false
enroll_once_example =
    enroll_once copying lab_authority enrolling
      (enroll copying lab_authority enrolling (some first_request) 120 121).0 first_request
      other_request 120 121 130 131 enrolled here refl
