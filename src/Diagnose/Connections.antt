-- ===== src/Diagnose/Connections.antt =====
-- pkg/diagnose/connections.go.
use subctl.Base.{String, Bool, true, false, List, [], ◌∷◌, if◌then◌else◌}
use subctl.Base.Effect.{
  Run, new_error, emit, pure, ◌>>=◌, ◌>>◌, or_report, report_error, deferring_end, for_each,
  started, succeeded, aggregate,
}
use subctl.Cluster.Info.{
  InfoApi, Gateway, RouteAgent, Connection, connecting, connected, connection_error,
  connection_none, get_gateways, get_route_agents,
}
use subctl.Contexts.Plan.{attempt}
use subctl.Diagnose.{tracked, failure}

unfoldable pub check_connection : Connection → Run (Unit {0})
check_connection c = elim c.connection_status [
  | connecting ↦ failure "Connection to cluster %q is in progress" (c.remote.endpoint_cluster ∷ [])
  | connection_error ↦
      failure "Connection to cluster %q is not established. Connection details:\n%s"
        (c.remote.endpoint_cluster ∷ [])
  | connected ↦ pure tt
  | connection_none ↦ pure tt
]

abbrev pub missing_connections : String → List Connection → Run (Unit {0})
missing_connections name [] = failure "There are no active connections on gateway %q" (name ∷ [])
missing_connections name (c ∷ cs) = pure tt

unfoldable pub check_gateway : Gateway → Run (Unit {0})
check_gateway g =
    if g.is_active
    then missing_connections g.gateway_name g.connections >> for_each check_connection g.connections
    else pure tt

unfoldable pub found_active : List Gateway → Bool
found_active [] = false
found_active (g ∷ gs) = if g.is_active then true else found_active gs

unfoldable pub check_gateways : List Gateway → Run (Unit {0})
check_gateways [] = report_error "" [] (new_error "no gateways were detected")
check_gateways (g ∷ gs) = tracked "failures while diagnosing gateway connections" (
    for_each check_gateway (g ∷ gs)
    >> (if found_active (g ∷ gs) then pure tt else failure "No active gateway was found" []))

abbrev pub note_no_endpoints : String → List Connection → Run (Unit {0})
note_no_endpoints name [] =
    emit (succeeded "There are no remote endpoint connections on route agent %q" (name ∷ []))
note_no_endpoints name (c ∷ cs) = pure tt

unfoldable pub check_route_agent : RouteAgent → Run (Unit {0})
check_route_agent a =
    note_no_endpoints a.agent_name a.remote_endpoints
    >> for_each check_connection a.remote_endpoints

unfoldable pub check_route_agents : List RouteAgent → Run (Unit {0})
check_route_agents [] = report_error "" [] (new_error "no route agents were detected")
check_route_agents (a ∷ agents) =
    tracked "failures while diagnosing route agent connections"
      (for_each check_route_agent (a ∷ agents))

module _ (api : InfoApi) where
  unfoldable pub check_gateway_connections : Run (Unit {0})
  check_gateway_connections = emit (started "Checking gateway connections" []) >>= λ _.
      deferring_end (
        or_report "Error retrieving gateways" [] (get_gateways api) >>= λ gateways.
        check_gateways gateways)

  unfoldable pub check_route_agent_connections : Run (Unit {0})
  check_route_agent_connections = emit (started "Checking route agent connections" []) >>= λ _.
      deferring_end (
        or_report "Error retrieving route agents" [] (get_route_agents api) >>= λ agents.
        check_route_agents agents)

  -- Connections: both checks are made, and their errors joined.
  unfoldable pub connections : Run (Unit {0})
  connections = attempt check_gateway_connections >>= λ e.
      attempt check_route_agent_connections >>= λ f. aggregate (e ∷ (f ∷ []))
