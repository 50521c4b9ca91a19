-- ===== src/Diagnose/Tests.antt =====
-- Two clusters of which one has a subnet that overlaps, and a cluster with the ipvs mode.
use subctl.Base.{
  ◌<◌, arith, true, String, String_eq, ◌≡◌, ◌↔◌, refl, false, List, [], ◌∷◌, none, contains,
}
use subctl.Base.Effect.{
  Result, ok, err, Log, new_error, pure, fail, ◌>>=◌, ask, emit, on_error, or_wrap, deferring,
  for_each, lift, or_report, report_error, deferring_end,
}
use subctl.Cluster.Info.{Endpoint, SubmarinerCr}
use subctl.Join.Version.{pos}
use subctl.Pods.{
  Pod, succeeded, with_defaults, pod_spec, check_ns_labels, delete_scheduled, await_until_scheduled,
  schedule_pod, await_completion, is_finished, schedule_and_await_completion,
}
use subctl.Diagnose.{failures, tracked}
use subctl.Diagnose.Deployments.{DeploymentsApi, check_subnet, check_pair, check_pairs}
use subctl.Diagnose.Platform.{KubeProxyApi, kube_proxy_mode, judge_output}
use subctl.Diagnose.Honest.{Cluster, IsSound, IsSound-always}
use subctl.Diagnose.Overlaps.{AllApart, check_pairs_ok_iff}
use subctl.Diagnose.Unheeded.{kube_proxy_mode_unheeded}

abbrev refused : {A : Type 0} → Result A
refused = err (new_error "refused")

-- Equal subnets overlap, and no others.
abbrev deployments : DeploymentsApi
deployments = record {
  authorize = λ spec log. refused;
  new_producer = λ config. ok tt;
  list_broker_endpoints = λ ns log. ok [];
  is_overlapping = λ subnets subnet. ok (contains subnets subnet);
  get_deployment = λ ns n log. ok (none, 1);
  get_daemon_set = λ ns n log. ok (1, 1);
  list_pods = λ ns log. ok [];
}

endpoint : String → List String → Endpoint
endpoint c subnets = record {
  endpoint_name = "gateway";
  endpoint_cluster = c;
  subnets = subnets;
  backend = "libreswan";
  hostname = "worker";
  private_ip = "";
  public_ip = "";
  nat_enabled = false;
}

abbrev endpoints : List Endpoint
unfolding endpoint
endpoints = endpoint "east" ("10.0.0.0/16" ∷ []) ∷ (endpoint "west" ("10.1.0.0/16" ∷ []) ∷ [])

overlapping :
    (tracked "overlap"
      (check_pairs deployments (endpoint "north" ("10.1.0.0/16" ∷ []) ∷ endpoints))
      []).0
    ≡ err (new_error "overlap")
unfolding tracked failures check_pairs check_pair check_subnet for_each pure emit ◌>>=◌ contains
    endpoint endpoints
overlapping = refl

check_pairs_ok_iff_example :
    ((tracked "overlap" (check_pairs deployments endpoints) []).0 ≡ ok tt)
    ↔ AllApart deployments endpoints
check_pairs_ok_iff_example = check_pairs_ok_iff deployments "overlap" endpoints []

abbrev probe : Pod
probe = record { pod_name = "query-x7"; phase = succeeded; message = "kube-ipvs0: 10.96.0.1" }

abbrev proxy : KubeProxyApi
proxy = record {
  is_ovn_kubernetes = λ plugin. false;
  has_missing_interface = λ output. false;
  repository = ok (record { name = []; version = []; overrides = [] });
  pods = record {
    nettest_image = λ r. [];
    namespace_labels = λ ns log. ok [];
    create_pod = λ spec ns log. ok probe;
    delete_pod = λ ns n log. ok tt;
    await_pod = λ check ns n log. ok probe;
  };
}

abbrev cluster : Cluster
cluster = record {
  deployments = deployments;
  firewall = record {
    pods = proxy.pods;
    list_gateway_pods = λ log. ok [];
    get_load_balancer = λ log. ok [];
    repository = proxy.repository;
    pod_ip = λ pod. "10.0.0.7";
  };
  info = record {
    get_submariner = λ log. refused;
    get_service_discovery = λ log. refused;
    list_gateways = λ log. ok [];
    list_route_agents = λ log. ok [];
    list_nodes = λ log. ok [];
    list_endpoints = λ log. ok [];
  };
  globalnet = record {
    default_name = "default";
    list_cluster_egress = λ log. ok [];
    list_egress = λ log. ok [];
    list_service_exports = λ log. ok [];
    get_service = λ ns n log. refused;
    get_ingress = λ ns n log. refused;
    list_internal_services = λ ns n log. ok [];
  };
  exports = record {
    ready = "Ready";
    valid = "Valid";
    conflict_type = "Conflict";
    service_label = "service-name";
    list_exports = λ log. ok [];
    get_exported_service = λ ns n log. ok tt;
    list_endpoint_slices = λ ns n id log. ok [];
    get_import = λ ns n log. ok [];
    import_name = λ n ns id. n;
  };
  atoi = λ s. ok (pos 29);
  server = λ log. ok ([], []);
  options = record { validation_timeout = 90; verbose_output = false };
  calico = record { is_calico = λ plugin. false; list_ip_pools = λ log. ok [] };
  library = record {
    sprintf = λ format args. format;
    itoa = λ n. "";
    halve = λ n. n;
    contains_text = λ s t. true;
    before_slash = λ s. s;
    truncate = λ s. s;
    new_uuid = "0c1b";
    is_ovn_kubernetes = λ plugin. false;
    get_udp_port = λ e port. ok port;
    get_natt_discovery_port = λ e. ok 4490;
    is_using_load_balancer = λ e. false;
  };
}

IsSound-always_example : IsSound cluster
IsSound-always_example = IsSound-always cluster

abbrev submariner : SubmarinerCr
submariner = record {
  submariner_namespace = "submariner-operator";
  network_plugin = [];
  status_cluster_id = "east";
  spec = record {
    common = record {
      repository = [];
      version = [];
      broker_k8s_ca = "";
      broker_k8s_remote_namespace = "submariner-k8s-broker";
      broker_k8s_api_server_token = "";
      broker_k8s_api_server = [];
      broker_k8s_secret = "";
      broker_k8s_insecure = false;
      debug = false;
      cluster_id = "east";
      spec_namespace = "submariner-operator";
      image_overrides = [];
      clusterset_ip_enabled = false;
      clusterset_ip_cidr = "";
      core_dns_custom_config = none;
      custom_domains = [];
    };
    ce_ipsec_natt_port = 4500;
    ce_ipsec_debug = false;
    ce_ipsec_force_udp_encaps = false;
    ce_ipsec_preferred_server = false;
    ce_ipsec_psk = "";
    ce_ipsec_psk_secret = "";
    nat_enabled = false;
    service_cidr = "";
    cluster_cidr = "";
    global_cidr = "";
    cable_driver = "";
    service_discovery_enabled = false;
    air_gapped_deployment = false;
    load_balancer_enabled = false;
    connection_health_check = record {
      enabled = false;
      interval_seconds = 1;
      max_packet_loss_count = 5;
    };
  };
}

-- The pod's output shows the interface of the ipvs mode.
ipvs_run : Result (Unit {0}) × Log
unfolding pure fail ◌>>=◌ ask emit on_error or_wrap deferring with_defaults pod_spec check_ns_labels
    delete_scheduled await_until_scheduled schedule_pod await_completion is_finished
    schedule_and_await_completion kube_proxy_mode judge_output lift or_report report_error
    deferring_end
ipvs_run = kube_proxy_mode proxy submariner "" []

one_failure : failures [] < failures ipvs_run.1
unfolding ipvs_run failures
one_failure = omega arith

kube_proxy_mode_unheeded_example : ipvs_run.0 ≡ ok tt
unfolding ipvs_run
kube_proxy_mode_unheeded_example = kube_proxy_mode_unheeded proxy submariner "" [] refl one_failure
