-- ===== src/Controller/Authorization/Revoked.antt =====
-- server.go: a revoked certificate gives no identity.
use topo.Prelude.{
  ◌≡◌, refl, true, not, ◌&&◌, if◌then◌else◌, String, str_eq, some, List, lookup, Option-cases, inl,
  inr,
}
use Prim.Native.String.{◌++◌ as str_append}
use topo.Audit.{AuditText}
use topo.Store.Model.{StoreText, CertificateRevocation}
use topo.Store.Memory.{Memory, revoke_certificate, is_certificate_revoked}
use topo.Store.Memory.Writes.{Write, write_all, revoke_certificate-lasts}
use topo.Controller.Authorization.{
  anonymous, forbidden, certificate_access, caller_access, collector_auth,
}

found_revoked :
    (m : Memory) (serial : String) (r : CertificateRevocation)
    → lookup m.revocations serial ≡ some r
    → is_certificate_revoked m serial ≡ true
unfolding is_certificate_revoked
found_revoked m serial r e = rw (e, is_certificate_revoked) refl

still_revoked :
    (text : StoreText) (audit : AuditText) (m : Memory) (r : CertificateRevocation)
    (ws : List Write)
    → is_certificate_revoked (write_all text audit (revoke_certificate m r).0 ws) r.serial_number
      ≡ true
still_revoked text audit m r ws =
    let later = write_all text audit (revoke_certificate m r).0 ws in
    let lasts = revoke_certificate-lasts text audit m r ws in
    elim (Option-cases (lookup m.revocations r.serial_number)) [
      | inl fresh ↦ found_revoked later r.serial_number r (rw fresh at lasts)
      | inr (old, found) ↦ found_revoked later r.serial_number old (rw found at lasts)
    ]

-- After the revocation of a serial, and whatever is written to the repository then, a caller with a
-- certificate of that serial is let in only with the API key as a bearer token, where there is a
-- key, and then as nobody's collector; without it the answer is 401.
pub revoked_collector_auth :
    (text : StoreText) (audit : AuditText) (m : Memory) (r : CertificateRevocation)
    (ws : List Write)
    → (api_key authorization common_name : String)
    → collector_auth api_key (write_all text audit (revoke_certificate m r).0 ws) (record {
      certificate = some (record { serial = r.serial_number; common_name = common_name });
      authorization = authorization;
    })
      ≡ (if not (str_eq api_key "") && str_eq authorization (str_append "Bearer " api_key)
          then anonymous
          else forbidden 401)
unfolding collector_auth caller_access certificate_access
revoked_collector_auth text audit m r ws api_key authorization common_name =
    rw (still_revoked text audit m r ws) refl
