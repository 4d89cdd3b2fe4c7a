-- ===== src/Agent/Run/Lasting.antt =====
-- run.go: an observation in the spool, over the loop of the agent.
use topo.Agent.Spool.{Spool}
use topo.Agent.Run.{Agent}
