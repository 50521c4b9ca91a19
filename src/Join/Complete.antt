-- ===== src/Join/Complete.antt =====
-- What a successful join has set up on the joining cluster (pkg/join/join.go).
use subctl.Broker.Info.{Info}
use subctl.Cluster.Overrides.{Overrides}
