-- ===== src/Diagnose/Honest.antt =====
-- The checks of pkg/diagnose: whether they answer with an error, and what they have reported.
pub mod Grown
pub mod Services
pub mod Probes
pub mod Walls
pub mod Vxlan
pub mod Pools
pub mod Responses
use subctl.Base.{
  ℕ, arith, String, Text, ◌≡◌, refl, Bool, true, false, List, [], ◌∷◌, Option, none, some,
  if◌then◌else◌,
}
use subctl.Base.Effect.{
  Error, Result, ok, err, Event, Log, Run, ask, emit, pure, fail, lift, ◌>>=◌, ◌>>◌, on_error,
  or_wrap, or_report, report_error, started, succeeded, deferring_end, is_not_found, new_error,
}
use subctl.Base.Keep.{
  Keeps, keeping, Keeps-ask, Keeps-lift, Keeps-or_wrap, Keeps-bind, Keeps-pure, Keeps-report_error,
}
use subctl.Base.{String_eq, ◌==◌}
use subctl.Cluster.Info.{
  ClusterInfo, SubmarinerCr, InfoApi, Gateway, RouteAgent, get_gateways, get_route_agents, listed,
}
use subctl.Join.Version.{ℤ, check_version, failed_requirements}
use subctl.Diagnose.{tracked, failures}
use subctl.Diagnose.Tally.{
  errors, Exactly-Adds, AtLeast, AtLeast-Adds, Keeps-tracked, Quiet, Judged, IsHonest,
  IsHonest-pure, IsHonest-report_error, IsHonest-if, IsHonest-deferring_end, IsHonest-or_report,
  IsHonest-bind, IsHonest-emit, IsHonest-tracked, IsHonest-both,
}
use subctl.Diagnose.Deployments.{DeploymentsApi, for_broker, check_overlapping_cidrs, check_pods}
use subctl.Diagnose.Metrics.{check_metrics_config}
use subctl.Diagnose.Honest.Responses.{check_metrics_config-IsHonest}
use subctl.Diagnose.Connections.{
  check_gateways, check_route_agents, check_gateway_connections, check_route_agent_connections,
  connections,
}
use subctl.Diagnose.Globalnet.{GlobalnetApi, globalnet_config}
use subctl.Diagnose.Exports.{ExportsApi, service_discovery}
use subctl.Diagnose.Platform.{k8s_version}
use subctl.Diagnose.Honest.Grown.{
  check_pairs-Keeps, check_components-Keeps, gateways_checked, route_agents_checked,
}
use subctl.Diagnose.Honest.Services.{
  check_cluster_global_egress_ips-Keeps, check_global_egress_ips-Keeps,
  check_global_ingress_ips-Keeps, check_service_export-Keeps,
}
use subctl.Diagnose.Firewall.{
  FirewallApi, Library, FirewallOptions, tunnel_port, nat_discovery_port,
}
use subctl.Diagnose.Firewall.Checks.{
  Side, tunnel_config_across_clusters, nat_discovery_config_across_clusters,
  firewall_intra_vxlan_config,
}
use subctl.Diagnose.Honest.Walls.{across-IsHonest}
use subctl.Diagnose.Honest.Vxlan.{firewall_intra_vxlan_config-IsHonest}
use subctl.Diagnose.Honest.Pools.{check_calico_ippools-IsHonest}
use subctl.Diagnose.Calico.{CalicoApi, check_calico_ippools_if_calico_cni}

-- A call, and what is made of its answer, report no failure.
call-Quiet :
    {A : Type 0} (e : Event) (f : Log → Result A)
    → subctl.Diagnose.is_failure e ≡ false
    → Quiet (ask e f)
call-Quiet e f quiet = record { kept = λ a b. Keeps-ask _ e f (Exactly-Adds a b e quiet) }

module _ (api : DeploymentsApi) where
  for_broker-Quiet : (s : SubmarinerCr) → Quiet (for_broker api (some s) none)
  unfolding for_broker
  for_broker-Quiet s = record { kept = λ a b. search (keeping, Exactly-Adds a b) depth 20 }

  check_overlapping_cidrs-IsHonest : (s : SubmarinerCr) → IsHonest (check_overlapping_cidrs api s)
  unfolding check_overlapping_cidrs
  check_overlapping_cidrs-IsHonest s = IsHonest-bind _ _ (IsHonest-emit _ refl) λ _.
      IsHonest-deferring_end _ (
        IsHonest-bind _ _ (IsHonest-or_report _ _ _ (for_broker-Quiet s)) λ found.
          IsHonest-bind _ _ (IsHonest-or_report _ _ _ (record { kept = λ a b. Keeps-lift _ _ }))
            λ _.
              IsHonest-bind _ _ (IsHonest-or_report _ _ _ (call-Quiet _ _ refl))
                λ es. IsHonest-tracked _ _ (record { kept = λ a b. check_pairs-Keeps a b api es }))

  check_pods-IsHonest : (info : ClusterInfo) → IsHonest (check_pods api info)
  unfolding check_pods
  check_pods-IsHonest info =
      IsHonest-tracked _ _ (record {
        kept = λ a b. check_components-Keeps a b api info.submariner_cr info.discovery_cr;
      })

check_gateways-IsHonest : (gs : List Gateway) → IsHonest (check_gateways gs)
unfolding check_gateways
check_gateways-IsHonest [] = IsHonest-report_error _ _ _
check_gateways-IsHonest (g ∷ gs) =
    IsHonest-tracked _ _ (record { kept = λ a b. gateways_checked a b (g ∷ gs) })

check_route_agents-IsHonest : (rs : List RouteAgent) → IsHonest (check_route_agents rs)
unfolding check_route_agents
check_route_agents-IsHonest [] = IsHonest-report_error _ _ _
check_route_agents-IsHonest (r ∷ rs) =
    IsHonest-tracked _ _ (record { kept = λ a b. route_agents_checked a b (r ∷ rs) })

module _ (api : InfoApi) where
  listed_gateways : Quiet (get_gateways api)
  unfolding get_gateways listed
  listed_gateways = record { kept = λ a b. search (keeping, Exactly-Adds a b) depth 20 }

  listed_route_agents : Quiet (get_route_agents api)
  unfolding get_route_agents listed
  listed_route_agents = record { kept = λ a b. search (keeping, Exactly-Adds a b) depth 20 }

  check_gateway_connections-IsHonest : IsHonest (check_gateway_connections api)
  unfolding check_gateway_connections
  check_gateway_connections-IsHonest = IsHonest-bind _ _ (IsHonest-emit _ refl) λ _.
      IsHonest-deferring_end _
        (IsHonest-bind _ _ (IsHonest-or_report _ _ _ listed_gateways) check_gateways-IsHonest)

  check_route_agent_connections-IsHonest : IsHonest (check_route_agent_connections api)
  unfolding check_route_agent_connections
  check_route_agent_connections-IsHonest = IsHonest-bind _ _ (IsHonest-emit _ refl) λ _.
      IsHonest-deferring_end _ (
        IsHonest-bind _ _ (IsHonest-or_report _ _ _ listed_route_agents)
          check_route_agents-IsHonest)

  route_agents_grown : (a b : ℕ) → Keeps (AtLeast a b) (check_route_agent_connections api)
  unfolding check_route_agent_connections get_route_agents listed check_route_agents report_error
  route_agents_grown a b = search (keeping, AtLeast-Adds a b, judged) depth 20
    where
      judged : (rs : List RouteAgent) → Keeps (AtLeast a b) (check_route_agents rs)
      judged [] = Keeps-report_error _ _ _ _ _ (AtLeast-Adds a b _)
      judged (r ∷ rs) = Keeps-tracked _ _ _ (route_agents_checked a b (r ∷ rs))

  connections-IsHonest : IsHonest (connections api)
  unfolding connections
  connections-IsHonest =
      IsHonest-both _ _ check_gateway_connections-IsHonest (record { kept = route_agents_grown })
        check_route_agent_connections-IsHonest

globalnet_config-IsHonest :
    (api : GlobalnetApi) (s : SubmarinerCr) → IsHonest (globalnet_config api s)
unfolding globalnet_config
globalnet_config-IsHonest api s = IsHonest-if _ _ _ (IsHonest-pure tt) (
    IsHonest-bind _ _ (IsHonest-emit _ refl) λ _. IsHonest-deferring_end _ (
      IsHonest-tracked _ _ (record {
        kept = λ a b.
            Keeps-bind _ _ _
              (Keeps-bind _ _ _ (check_cluster_global_egress_ips-Keeps a b api)
                (λ _. check_global_egress_ips-Keeps a b api))
              (λ _. check_global_ingress_ips-Keeps a b api);
      })))

service_discovery-IsHonest : (api : ExportsApi) (id : String) → IsHonest (service_discovery api id)
unfolding service_discovery
service_discovery-IsHonest api id = IsHonest-bind _ _ (IsHonest-emit _ refl) λ _.
    IsHonest-deferring_end _
      (IsHonest-tracked _ _ (record { kept = λ a b. check_service_export-Keeps a b api id }))

module _ (atoi : Text → Result ℤ) (server : Log → Result (Text × Text)) where
  versions_read : (discovery : Bool) → Quiet (check_version atoi server discovery)
  unfolding check_version
  versions_read discovery = record { kept = λ a b. search (keeping, Exactly-Adds a b) depth 20 }

  k8s_version-IsHonest : (discovery : Bool) → IsHonest (k8s_version atoi server discovery)
  unfolding k8s_version
  k8s_version-IsHonest discovery = IsHonest-bind _ _ (IsHonest-emit _ refl) λ _.
      IsHonest-deferring_end _ (
        IsHonest-bind _ _ (IsHonest-or_report _ _ _ (versions_read discovery)) λ requirements.
          IsHonest-bind _ _
            (IsHonest-tracked _ _
              (record { kept = λ a b. search (keeping, AtLeast-Adds a b) depth 20 }))
            (λ _. IsHonest-emit _ refl))

-- The parts of a cluster that are asked.
pub record Cluster : Type 0 where
  pub deployments : DeploymentsApi
  pub firewall : FirewallApi
  pub info : InfoApi
  pub globalnet : GlobalnetApi
  pub exports : ExportsApi
  pub atoi : Text → Result ℤ
  pub server : Log → Result (Text × Text)
  pub calico : CalicoApi
  pub library : Library
  pub options : FirewallOptions

abbrev pub IsTruthful : Run (Unit {0}) → Type 0
IsTruthful m = (log : Log) → Judged (failures log) (errors log) (m log)

-- Of all the checks.
pub record IsSound (c : Cluster) : Type 0 where
  pub overlapping_cidrs : (s : SubmarinerCr) → IsTruthful (check_overlapping_cidrs c.deployments s)
  pub pods : (i : ClusterInfo) → IsTruthful (check_pods c.deployments i)
  pub metrics :
      (s : SubmarinerCr) (i : ClusterInfo)
      → IsTruthful (check_metrics_config c.library c.firewall s i)
  pub connections : IsTruthful (connections c.info)
  pub globalnet : (s : SubmarinerCr) → IsTruthful (globalnet_config c.globalnet s)
  pub service_discovery : (id : String) → IsTruthful (service_discovery c.exports id)
  pub k8s_version : (d : Bool) → IsTruthful (k8s_version c.atoi c.server d)
  pub calico :
      (s : SubmarinerCr) → IsTruthful (check_calico_ippools_if_calico_cni c.calico c.info s)
  pub tunnel :
      (local remote : Side) (ns : String)
      → IsTruthful (tunnel_config_across_clusters c.library c.options local remote ns)
  pub nat_discovery :
      (local remote : Side) (ns : String)
      → IsTruthful (nat_discovery_config_across_clusters c.library c.options local remote ns)
  pub intra_vxlan :
      (side : Side) (ns : String)
      → IsTruthful (firewall_intra_vxlan_config c.library c.options side ns)

truthful : (m : Run (Unit {0})) → IsHonest m → IsTruthful m
truthful m h log = h.run (failures log) (errors log) log (refl, omega arith)

-- Whatever the API servers answer, each of the checks of overlapping CIDRs, pods, metrics, connections,
-- Globalnet, service discovery, the Kubernetes version, Calico's IP pools and the firewall (tunnels, NAT discovery
-- and intra-cluster VXLAN) is truthful: where it returns no error it has reported no failure, and where it returns an
-- error it has reported a failure or an error.
pub IsSound-always : (c : Cluster) → IsSound c
unfolding tunnel_config_across_clusters nat_discovery_config_across_clusters
IsSound-always c = record {
  overlapping_cidrs = λ s. truthful _ (check_overlapping_cidrs-IsHonest c.deployments s);
  pods = λ i. truthful _ (check_pods-IsHonest c.deployments i);
  metrics = λ s i. truthful _ (check_metrics_config-IsHonest c.library c.firewall s i);
  connections = truthful _ (connections-IsHonest c.info);
  globalnet = λ s. truthful _ (globalnet_config-IsHonest c.globalnet s);
  service_discovery = λ id. truthful _ (service_discovery-IsHonest c.exports id);
  k8s_version = λ d. truthful _ (k8s_version-IsHonest c.atoi c.server d);
  calico = λ s. truthful _ (check_calico_ippools-IsHonest c.calico c.info s);
  tunnel = λ x y ns. truthful _ (across-IsHonest c.library c.options tunnel_port _ _ _ x y ns);
  nat_discovery =
      λ x y ns. truthful _ (across-IsHonest c.library c.options nat_discovery_port _ _ _ x y ns);
  intra_vxlan = λ x ns. truthful _ (firewall_intra_vxlan_config-IsHonest c.library c.options x ns);
}
