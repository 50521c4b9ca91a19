-- ===== src/Cluster/Info.antt =====
-- The rest of pkg/cluster/info.go: what a command knows of a cluster, and reads from it.
-- The two custom resources hold the specifications that Deploy builds.
pub mod Nodes
pub mod Tests
use subctl.Base.{
  ℕ, String, String_eq, Text, ◌==◌, Bool, true, false, not, nat_eq, List, [], ◌∷◌, length, Option,
  none, some, if◌then◌else◌,
}
use subctl.Base.Effect.{
  Error, Result, ok, err, Log, Run, ask, pure, fail, lift, ◌>>=◌, ◌>>◌, on_error, or_wrap,
  is_not_found, not_found, call, get, list, submariner, service_discovery, gateway, route_agent,
  endpoint, cluster, node,
}
use subctl.Deploy.{SubmarinerSpec, CommonSpec}
use subctl.Operator.{operator_namespace}

pub record Endpoint : Type 0 where
  pub endpoint_name : String
  pub endpoint_cluster : String
  pub subnets : List String
  pub backend : String
  pub hostname : String
  pub private_ip : String
  pub public_ip : String
  pub nat_enabled : Bool

-- Of a gateway's or a route agent's connection.
pub data ConnectionStatus : Type 0 where
  connecting connected connection_error connection_none : ConnectionStatus

pub record Connection : Type 0 where
  pub connection_status : ConnectionStatus
  pub remote : Endpoint
  pub using_ip : String

pub record Gateway : Type 0 where
  pub gateway_name : String
  pub is_active : Bool
  pub local_endpoint : Endpoint
  pub connections : List Connection

pub record RouteAgent : Type 0 where
  pub agent_name : String
  pub remote_endpoints : List Connection

pub record SubmarinerCr : Type 0 where
  pub submariner_namespace : String
  pub spec : SubmarinerSpec
  pub network_plugin : Text
  pub status_cluster_id : String

pub record ServiceDiscoveryCr : Type 0 where
  pub discovery_namespace : String
  pub spec : CommonSpec

-- The reads of one cluster's API server.
pub record InfoApi : Type 0 where
  pub get_submariner : Log → Result SubmarinerCr
  pub get_service_discovery : Log → Result ServiceDiscoveryCr
  pub list_gateways : Log → Result (List Gateway)
  pub list_route_agents : Log → Result (List RouteAgent)
  pub list_nodes : Log → Result (List String)
  pub list_endpoints : Log → Result (List Endpoint)

-- The node count is `none` where the source has -1: it was not asked for yet.
pub record ClusterInfo : Type 0 where
  pub cluster_name : String
  pub api : InfoApi
  pub submariner_cr : Option SubmarinerCr
  pub discovery_cr : Option ServiceDiscoveryCr
  pub node_count : Option ℕ

-- A resource that is not found is none; another error is wrapped.
unfoldable pub optional : {A : Type 0} → String → Run A → Run (Option A)
optional message m =
    on_error m (λ a. pure (some a))
      (λ e. if is_not_found e then pure none else or_wrap message (fail e))

unfoldable pub listed : {A : Type 0} → Run (List A) → Run (List A)
listed m = on_error m pure (λ e. if is_not_found e then pure [] else fail e)

module _ (api : InfoApi) where
  unfoldable pub get_gateways : Run (List Gateway)
  get_gateways = listed (ask (call list gateway operator_namespace "") api.list_gateways)

  unfoldable pub get_route_agents : Run (List RouteAgent)
  get_route_agents =
      listed (ask (call list route_agent operator_namespace "") api.list_route_agents)

  unfoldable pub new_info : String → Run ClusterInfo
  new_info name =
      optional "error retrieving Submariner"
        (ask (call get submariner operator_namespace "submariner") api.get_submariner)
      >>= λ s.
          optional "error retrieving ServiceDiscovery" (
            ask (call get service_discovery operator_namespace "service-discovery")
              api.get_service_discovery)
          >>= λ d.
              or_wrap "error retrieving Gateways" get_gateways
              >> pure (record {
                cluster_name = name;
                api = api;
                submariner_cr = s;
                discovery_cr = d;
                node_count = none;
              })

unfoldable pub count_nodes : ClusterInfo → Option ℕ → Run (Bool × ClusterInfo)
count_nodes c (some n) = pure (nat_eq n 1, c)
count_nodes c none =
    or_wrap "error listing Nodes" (ask (call list node "" "") c.api.list_nodes) >>= λ nodes.
    pure (nat_eq (length nodes) 1, record c { node_count = some (length nodes) })

-- HasSingleNode: the answer, and the info with the count that it keeps.
unfoldable pub has_single_node : ClusterInfo → Run (Bool × ClusterInfo)
unfolding count_nodes
has_single_node c = count_nodes c c.node_count

-- The first endpoint that a test accepts.
unfoldable pub first_endpoint : (Endpoint → Bool) → List Endpoint → Option Endpoint
first_endpoint test [] = none
first_endpoint test (e ∷ es) = if test e then some e else first_endpoint test es

abbrev pub or_missing : String → Option Endpoint → Run Endpoint
or_missing what none = fail (record { cause = not_found; messages = what ∷ [] })
or_missing what (some e) = pure e

-- `id` is the cluster ID of the Submariner resource, without which the source panics.
unfoldable pub get_local_endpoint : InfoApi → String → Run Endpoint
get_local_endpoint api id =
    or_wrap "error listing Endpoints"
      (ask (call list endpoint operator_namespace "") api.list_endpoints)
    >>= λ es. or_missing "local Endpoint" (first_endpoint (λ e. e.endpoint_cluster == id) es)

unfoldable pub get_any_remote_endpoint : InfoApi → String → Run Endpoint
get_any_remote_endpoint api id =
    or_wrap "error listing Endpoints"
      (ask (call list endpoint operator_namespace "") api.list_endpoints)
    >>= λ es. or_missing "remote Endpoint" (first_endpoint (λ e. not (e.endpoint_cluster == id)) es)

unfoldable pub namespace_of : ClusterInfo → String
namespace_of c = elim c.submariner_cr [
  | some s ↦ s.submariner_namespace
  | none ↦ elim c.discovery_cr [ some d ↦ d.discovery_namespace | none ↦ operator_namespace ]
]
