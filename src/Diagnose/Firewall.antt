-- ===== src/Diagnose/Firewall.antt =====
-- pkg/diagnose/firewall.go, firewall_tunnel.go, firewall_natdiscovery.go and firewall_vxlan.go: pods on two
-- nodes, of which one listens for what the other sends. fmt.Sprintf and the other functions on strings,
-- and the endpoint's backend configuration, belong to other modules. The calls of both clusters are
-- logged alike.
pub mod Checks
use subctl.Base.{
  ℕ, String, String_eq, Text, Text_eq, ◌==◌, Bool, true, false, not, ◌&&◌, ◌||◌, nat_eq, List, [],
  ◌∷◌, Option, none, some, if◌then◌else◌,
}
use subctl.Base.Dict.{Dict, lookup}
use subctl.Base.Effect.{
  Error, Result, ok, err, Log, Run, new_error, wrap, ask, emit, pure, fail, lift, ◌>>=◌, ◌>>◌,
  on_error, or_wrap, or_report, report_error, deferring, deferring_end, started, succeeded, call,
  get, list, pod, service,
}
use subctl.Cluster.Overrides.{RepositoryInfo}
use subctl.Cluster.Info.{
  Endpoint, Connection, Gateway, ClusterInfo, SubmarinerCr, get_gateways, has_single_node,
  get_local_endpoint, get_any_remote_endpoint,
}
use subctl.Kube.{get_or_empty}
use subctl.Operator.{operator_namespace}
use subctl.Pods.{
  PodApi, Pod, Config, Scheduling, SchedulingType, non_gateway_node, custom_node, with_defaults,
  schedule, delete_scheduled, await_completion,
}
use subctl.Diagnose.{tracked, failure}

pub data TargetPort : Type 0 where
  tunnel_port nat_discovery_port : TargetPort

pub record FirewallOptions : Type 0 where
  pub validation_timeout : ℕ
  pub verbose_output : Bool

-- What is asked of one cluster, besides the reads of its Info.
pub record FirewallApi : Type 0 where
  pub pods : PodApi
  -- The labels of the active gateway's pods.
  pub list_gateway_pods : Log → Result (List (Dict String String))
  -- The names and node ports of the load balancer's service.
  pub get_load_balancer : Log → Result (List (String × ℕ))
  -- GetImageRepositoryInfo of the overrides given.
  pub repository : Result RepositoryInfo
  pub pod_ip : Pod → String

pub record Library : Type 0 where
  pub sprintf : String → List String → String
  pub itoa : ℕ → String
  pub halve : ℕ → ℕ
  -- strings.Contains, and strings.Split(s, "/")[0].
  pub contains_text : String → String → Bool
  pub before_slash : String → String
  pub truncate : String → String
  pub new_uuid : String
  pub is_ovn_kubernetes : Text → Bool
  pub get_udp_port : Endpoint → ℕ → Result ℕ
  pub get_natt_discovery_port : Endpoint → Result ℕ
  pub is_using_load_balancer : Endpoint → Bool

abbrev pub single_node_message : String
single_node_message = "Skipping this check as it's a single node cluster"

abbrev pub pod_config : Scheduling → String → String → String → RepositoryInfo → Config
pod_config scheduling name ns command repo = record {
  name = name;
  scheduling = scheduling;
  config_namespace = ns;
  command = command;
  image_repository_info = repo;
}

abbrev pub client_config : Bool → String → String → RepositoryInfo → Config
client_config host_networking ns command repo =
    pod_config
      (record { schedule_on = non_gateway_node; node_name = ""; host_networking = host_networking })
      "validate-client" ns command repo

abbrev pub sniffer_config : String → String → String → RepositoryInfo → Config
sniffer_config node ns command repo =
    pod_config (record { schedule_on = custom_node; node_name = node; host_networking = true })
      "validate-sniffer" ns command repo

unfoldable pub spawn_pod : PodApi → Config → Run Pod
spawn_pod pods c = or_wrap "error scheduling pod" (schedule pods c)

-- `defer pod.Delete()`, for the pod of the configuration.
unfoldable pub deleting : {A : Type 0} → PodApi → Config → Pod → Run A → Run A
deleting pods c p m = deferring (delete_scheduled pods (with_defaults c) p) m

unfoldable pub await_output : PodApi → Config → Pod → Run String
await_output pods c p = await_completion pods (with_defaults c) p

unfoldable pub find_in : String → List Connection → Option Connection
find_in id [] = none
find_in id (c ∷ cs) = if c.remote.endpoint_cluster == id then some c else find_in id cs

abbrev pub or_else : Option Connection → Option Connection → Option Connection
or_else (some c) d = some c
or_else none d = d

-- The first connection to the cluster, over the active gateways.
unfoldable pub find_connection : String → List Gateway → Option Connection
find_connection id [] = none
find_connection id (g ∷ gs) =
    let rest = find_connection id gs in
    if g.is_active then or_else (find_in id g.connections) rest else rest

unfoldable pub connection_ip : Connection → String
connection_ip c =
    if not (c.using_ip == "")
    then c.using_ip
    else if c.remote.nat_enabled
    then c.remote.public_ip
    else c.remote.private_ip

abbrev pub ip_of : Option Connection → Run String
ip_of (some c) = pure (connection_ip c)
ip_of none =
    report_error "Error" []
      (new_error "the gateway on cluster %q does not have an active connection to cluster %q")

abbrev pub gateway_ip_of : String → List Gateway → Run String
gateway_ip_of id [] =
    report_error "Error" [] (new_error "there are no gateways detected on cluster %q")
gateway_ip_of id (g ∷ gs) = ip_of (find_connection id (g ∷ gs))

unfoldable pub get_gateway_ip : ClusterInfo → String → Run String
get_gateway_ip info id =
    or_report "Error retrieving gateways from cluster %q" (info.cluster_name ∷ [])
      (get_gateways info.api)
    >>= λ gateways. gateway_ip_of id gateways

abbrev pub first_node : List (Dict String String) → Run String
first_node [] =
    report_error "" [] (new_error "could not find the active Gateway node in local cluster %q")
first_node (labels ∷ rest) = pure (get_or_empty (lookup "gateway.submariner.io/node" labels))

unfoldable pub get_active_gateway_node_name : FirewallApi → ClusterInfo → Run String
get_active_gateway_node_name api info =
    or_report "Error listing Pods in cluster %q" (info.cluster_name ∷ []) (
      ask
        (call list pod operator_namespace
          "app=submariner-gateway,gateway.submariner.io/status=active")
        api.list_gateway_pods)
    >>= λ pods. first_node pods

abbrev pub is_known_driver : String → Bool
is_known_driver driver = driver == "libreswan" || (driver == "wireguard" || driver == "vxlan")

abbrev pub or_context : String → Result ℕ → Result ℕ
or_context message (ok port) = ok port
or_context message (err e) = err (wrap message e)

abbrev pub port_name : TargetPort → String
port_name tunnel_port = "cable-encaps"
port_name nat_discovery_port = "natt-discovery"

unfoldable pub find_port : String → List (String × ℕ) → Option ℕ
find_port name [] = none
find_port name ((n, port) ∷ ports) = if n == name then some port else find_port name ports

abbrev pub or_no_port : Option ℕ → Run ℕ
or_no_port (some port) = pure port
or_no_port none = fail (new_error "could not determine nodePort for port name %q of LB service %s")

-- awaitPodCompletion: the client's pod, and then the sniffer's, whose output is taken.
unfoldable pub await_pod_completion : PodApi → Config → Pod → PodApi → Config → Pod → Run String
await_pod_completion client_pods c p sniffer_pods d q =
    or_report "Error waiting for the client pod to finish its execution" []
      (await_output client_pods c p)
    >>= λ _.
        or_report "Error waiting for the sniffer pod to finish its execution" []
          (await_output sniffer_pods d q)

module _ (l : Library) where
  unfoldable pub get_target_port : SubmarinerCr → Endpoint → TargetPort → Result ℕ
  get_target_port s e target =
      if is_known_driver e.backend
      then elim target [
        | tunnel_port ↦
            or_context "error reading tunnel port" (l.get_udp_port e s.spec.ce_ipsec_natt_port)
        | nat_discovery_port ↦
            or_context "error reading nat-discovery port" (l.get_natt_discovery_port e)
      ]
      else err (new_error "could not determine the target port for cable driver %q")

  unfoldable pub get_lb_node_port : FirewallApi → String → Endpoint → TargetPort → Run ℕ
  get_lb_node_port api ns e target =
      if l.is_using_load_balancer e
      then (or_wrap "error reading the details of LB service %s"
            (ask (call get service ns "submariner-gateway") api.get_load_balancer)
          >>= λ ports. or_no_port (find_port (port_name target) ports))
      else pure 0

  -- `ns` is the namespace of the endpoint.
  unfoldable pub get_port_filter : FirewallApi → String → ℕ → Endpoint → TargetPort → Run String
  get_port_filter api ns dest_port e target =
      or_report "Could not determine LB node port" [] (get_lb_node_port api ns e target)
      >>= λ node_port. pure (
          if nat_eq node_port 0
          then l.sprintf "dst port %d" (l.itoa dest_port ∷ [])
          else l.sprintf "dst port %d or dst port %d " (l.itoa dest_port ∷ (l.itoa node_port ∷ [])))

  unfoldable pub validate_output : String → String → Run (Unit {0})
  validate_output output message =
      if l.contains_text output message
      then pure tt
      else report_error "" [] (
          new_error
            "the tcpdump output from the sniffer pod does not include the message sent from client pod")
