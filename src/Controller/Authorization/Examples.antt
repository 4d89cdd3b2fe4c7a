-- ===== src/Controller/Authorization/Examples.antt =====
-- A certificate that is revoked, and then used while observations go on.
use topo.Prelude.{◌≡◌, not, ◌&&◌, if◌then◌else◌, str_eq, some, List, [], ◌∷◌}
use Prim.Native.String.{◌++◌ as str_append}
use topo.Audit.{AuditText}
use topo.Store.Model.{StoreText, CertificateRevocation}
use topo.Store.Memory.{new_memory, revoke_certificate}
use topo.Store.Memory.Writes.{Write, revokes, deletes, write_all}
use topo.Controller.Authorization.{anonymous, forbidden, collector_auth}
use topo.Controller.Authorization.Revoked.{revoked_collector_auth}

abbrev plain : StoreText
plain = record { joined_hash = λ parts. ""; tuple_hash = λ site collector plugin. plugin }

abbrev copying : AuditText
copying = record { sha256_hex = λ a. a; format_int = λ n. n ∷ []; format_time = λ n. n ∷ [] }

abbrev leaked : CertificateRevocation
leaked = record { serial_number = "0a1b"; reason = "leaked"; revoked_at = 5 }

abbrev later_writes : List Write
later_writes =
    deletes "c1" ∷ revokes (record { serial_number = "0c"; reason = "old"; revoked_at = 6 }) ∷ []

revoked_collector_auth_example :
    collector_auth "key"
      (write_all plain copying (revoke_certificate new_memory leaked).0 later_writes)
      (record {
        certificate = some (record { serial = "0a1b"; common_name = "c1" });
        authorization = "Bearer kez";
      })
    ≡ (if not (str_eq "key" "") && str_eq "Bearer kez" (str_append "Bearer " "key")
        then anonymous
        else forbidden 401)
revoked_collector_auth_example =
    revoked_collector_auth plain copying new_memory leaked later_writes "key" "Bearer kez" "c1"
