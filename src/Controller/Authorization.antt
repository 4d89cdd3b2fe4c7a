-- ===== src/Controller/Authorization.antt =====
-- internal/controller/server.go: who may call the handlers. The lookup of a revocation does not
-- fail in the repository in memory.
pub mod Revoked
mod Examples
use Prim.Native.String.{◌++◌ as str_append}
use topo.Prelude.{
  ℕ, ◌≡◌, Bool, true, false, not, ◌&&◌, ◌||◌, ◌==◌, String, str_eq, Option, none, some, List, [],
  ◌∷◌, any, get_last?, ltb, if◌then◌else◌, codes,
}
use topo.Enrollment.Ids.{byte_len, starts_with_space, ends_with_space, is_control}
use topo.Store.Memory.{Memory, is_certificate_revoked}

-- The first certificate of a verified chain: its serial in base 16 and the name of its subject.
pub record Certificate : Type 0 where
  pub serial : String
  pub common_name : String

-- What a request shows of its caller.
pub record Caller : Type 0 where
  pub certificate : Option Certificate
  pub authorization : String

-- A refusal with its HTTP status, a call without an identity, or a call as a collector.
pub data Access : Type 0 where
  forbidden : ℕ → Access
  anonymous : Access
  as_collector : String → Access

abbrev has_bearer : String → Caller → Bool
has_bearer api_key caller = str_eq caller.authorization (str_append "Bearer " api_key)

certificate_access : String → Caller → Certificate → Bool → Access
certificate_access api_key caller cert true =
    if not (str_eq api_key "") && has_bearer api_key caller then anonymous else forbidden 401
certificate_access api_key caller cert false = as_collector cert.common_name

caller_access : String → Memory → Caller → Option Certificate → Access
unfolding certificate_access
caller_access api_key m caller (some cert) =
    certificate_access api_key caller cert (is_certificate_revoked m cert.serial)
caller_access api_key m caller none =
    if not (str_eq api_key "") && not (has_bearer api_key caller) then forbidden 401 else anonymous

pub collector_auth : String → Memory → Caller → Access
unfolding caller_access
collector_auth api_key m caller = caller_access api_key m caller caller.certificate

abbrev has_certificate : Option Certificate → Bool
has_certificate none = false
has_certificate (some cert) = true

pub admin_auth : String → Caller → Access
admin_auth api_key caller =
    if str_eq api_key ""
    then anonymous
    else if has_bearer api_key caller
    then anonymous
    else if has_certificate caller.certificate
    then forbidden 403
    else forbidden 401

-- `strings.TrimSpace(reason) != reason` is that a space starts or ends it.
pub valid_revocation_reason : String → Bool
valid_revocation_reason reason =
    let cs = codes reason in
    if byte_len cs == 0
      || ltb 512 (byte_len cs)
      || (starts_with_space cs || ends_with_space (get_last? cs))
    then false
    else not (any is_control cs)
