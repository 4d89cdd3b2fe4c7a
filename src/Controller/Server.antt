-- ===== src/Controller/Server.antt =====
-- internal/controller/server.go: the state of the controller, over the repository in memory. A
-- reply is the value of the success, or the HTTP status of the error.
use topo.Prelude.{ℕ, Option, none, some, String, List, codes, Result}
use topo.Audit.{Text, AuditText}
use topo.Store.Memory.{Memory, append_event}
use topo.Controller.Jobs.{JobStore}
use topo.Controller.Heartbeats.{HeartbeatStore}

-- The stores that the handlers change.
pub record Server : Type 0 where
  pub memory : Memory
  pub jobs : JobStore
  pub heartbeats : HeartbeatStore

-- An HTTP status: 400, 404, 422 or 500.
abbrev pub Reply : Type 0 → Type 0
Reply A = Result ℕ A

-- The identity of a verified certificate, where there is one, and otherwise what the caller says.
abbrev pub collector_identity : Option String → String → String
collector_identity none fallback = fallback
collector_identity (some identity) fallback = identity

-- `recordAudit`; the repository in memory does not refuse an event.
unfoldable pub record_audit : AuditText → Server → ℕ → String → String → List (Text × Text) → Server
record_audit text s now action actor detail = record s {
  memory =
      append_event text s.memory now
        (record { action = codes action; actor = codes actor; detail = detail });
}
