-- ===== src/Diagnose/Honest/Grown.antt =====
-- The checks of pkg/diagnose that run under a tracker take no report back.
use subctl.Base.{
  ℕ, String, String_eq, ◌==◌, Bool, true, false, List, [], ◌∷◌, Option, none, some, if◌then◌else◌,
  leb, nat_eq, length,
}
use subctl.Base.Effect.{Result, ok, err, Event, Run, pure, ◌>>◌, for_each}
use subctl.Base.Keep.{Keeps, keeping, Keeps-pure, Keeps-emit, Keeps-bind, Keeps-for_each}
use subctl.Cluster.Info.{
  Endpoint, SubmarinerCr, ServiceDiscoveryCr, Connection, ConnectionStatus, connecting, connected,
  connection_error, connection_none, Gateway, RouteAgent,
}
use subctl.Diagnose.{failure}
use subctl.Diagnose.Tally.{AtLeast, AtLeast-Adds}
use subctl.Diagnose.Deployments.{
  DeploymentsApi, PodStatus, check_subnet, check_pair, check_pairs, check_deployment,
  check_daemonset, check_pod, check_pods_status, check_submariner_pods, check_discovery_pods,
  check_components,
}
use subctl.Diagnose.Connections.{
  check_connection, missing_connections, check_gateway, note_no_endpoints, check_route_agent,
  found_active,
}

module _ (a b : ℕ) where
  abbrev Kept : {A : Type 0} → Run A → Type 0
  Kept m = Keeps (AtLeast a b) m

  adds : (e : Event) → subctl.Base.Keep.Adds (AtLeast a b) e
  adds e = AtLeast-Adds a b e

  module _ (api : DeploymentsApi) where
    check_subnet-Keeps : (s d : Endpoint) (subnet : String) → Kept (check_subnet api s d subnet)
    unfolding check_subnet
    check_subnet-Keeps s d subnet = by_answer (api.is_overlapping s.subnets subnet)
      where
        by_answer :
            (r : Result Bool)
            → Kept (elim r [
              | err e ↦ failure "Error parsing CIDR in cluster %q: %s" (d.endpoint_cluster ∷ [])
              | ok true ↦
                  failure "CIDR %q in cluster %q overlaps with cluster %q (CIDRs: %v)"
                    (subnet ∷ (d.endpoint_cluster ∷ (s.endpoint_cluster ∷ s.subnets)))
              | ok false ↦ pure tt
            ])
        by_answer (ok true) = Keeps-emit _ _ (adds _)
        by_answer (ok false) = Keeps-pure _ tt
        by_answer (err e) = Keeps-emit _ _ (adds _)

    check_pair-Keeps : (s d : Endpoint) → Kept (check_pair api s d)
    unfolding check_pair
    check_pair-Keeps s d = search (keeping, adds, check_subnet-Keeps) depth 20

    pub check_pairs-Keeps : (es : List Endpoint) → Kept (check_pairs api es)
    unfolding check_pairs
    check_pairs-Keeps [] = Keeps-pure _ tt
    check_pairs-Keeps (e ∷ es) =
        Keeps-bind _ _ _ (Keeps-for_each _ _ es (check_pair-Keeps e)) (λ _. check_pairs-Keeps es)

    check_deployment-Keeps : (ns n : String) → Kept (check_deployment api ns n)
    unfolding check_deployment
    check_deployment-Keeps ns n = search (keeping, adds) depth 20

    check_daemonset-Keeps : (ns n : String) → Kept (check_daemonset api ns n)
    unfolding check_daemonset
    check_daemonset-Keeps ns n = search (keeping, adds) depth 20

    check_pod-Keeps : (p : PodStatus) → Kept (check_pod api p)
    unfolding check_pod
    check_pod-Keeps p = search (keeping, adds) depth 20

    check_pods_status-Keeps : (ns : String) → Kept (check_pods_status api ns)
    unfolding check_pods_status
    check_pods_status-Keeps ns = search (keeping, adds, check_pod-Keeps) depth 20

    check_submariner_pods-Keeps : (s : SubmarinerCr) → Kept (check_submariner_pods api s)
    unfolding check_submariner_pods
    check_submariner_pods-Keeps s = search (keeping, check_daemonset-Keeps) depth 20

    check_discovery_pods-Keeps : Kept (check_discovery_pods api)
    unfolding check_discovery_pods
    check_discovery_pods-Keeps = search (keeping, check_deployment-Keeps) depth 20

    pub check_components-Keeps :
        (s : Option SubmarinerCr) (d : Option ServiceDiscoveryCr) → Kept (check_components api s d)
    check_components-Keeps none none = Keeps-pure _ tt
    check_components-Keeps (some s) none =
        search (keeping, check_submariner_pods-Keeps, check_pods_status-Keeps) depth 20
    check_components-Keeps none (some d) =
        search (keeping, check_discovery_pods-Keeps, check_pods_status-Keeps) depth 20
    check_components-Keeps (some s) (some d) =
        search
          (
            keeping, check_submariner_pods-Keeps, check_discovery_pods-Keeps,
            check_pods_status-Keeps,
          )
          depth 20

  check_connection-Keeps : (c : Connection) → Kept (check_connection c)
  unfolding check_connection
  check_connection-Keeps c = by_status c.connection_status
    where
      by_status :
          (s : ConnectionStatus)
          → Kept (elim s [
            | connecting ↦
                failure "Connection to cluster %q is in progress" (c.remote.endpoint_cluster ∷ [])
            | connection_error ↦
                failure "Connection to cluster %q is not established. Connection details:\n%s"
                  (c.remote.endpoint_cluster ∷ [])
            | connected ↦ pure tt
            | connection_none ↦ pure tt
          ])
      by_status connecting = Keeps-emit _ _ (adds _)
      by_status connection_error = Keeps-emit _ _ (adds _)
      by_status connected = Keeps-pure _ tt
      by_status connection_none = Keeps-pure _ tt

  missing_connections-Keeps : (n : String) (cs : List Connection) → Kept (missing_connections n cs)
  missing_connections-Keeps n [] = Keeps-emit _ _ (adds _)
  missing_connections-Keeps n (c ∷ cs) = Keeps-pure _ tt

  pub check_gateway-Keeps : (g : Gateway) → Kept (check_gateway g)
  unfolding check_gateway
  check_gateway-Keeps g =
      search (keeping, missing_connections-Keeps, check_connection-Keeps) depth 20

  pub gateways_checked :
      (gs : List Gateway)
      → Kept (
          for_each check_gateway gs
          >> (if found_active gs then pure tt else failure "No active gateway was found" []))
  gateways_checked gs = search (keeping, adds, check_gateway-Keeps) depth 20

  note_no_endpoints-Keeps : (n : String) (cs : List Connection) → Kept (note_no_endpoints n cs)
  note_no_endpoints-Keeps n [] = Keeps-emit _ _ (adds _)
  note_no_endpoints-Keeps n (c ∷ cs) = Keeps-pure _ tt

  check_route_agent-Keeps : (r : RouteAgent) → Kept (check_route_agent r)
  unfolding check_route_agent
  check_route_agent-Keeps r =
      search (keeping, note_no_endpoints-Keeps, check_connection-Keeps) depth 20

  pub route_agents_checked : (rs : List RouteAgent) → Kept (for_each check_route_agent rs)
  route_agents_checked rs = search (keeping, check_route_agent-Keeps) depth 20
