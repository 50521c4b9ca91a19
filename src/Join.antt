-- ===== src/Join.antt =====
-- pkg/join/join.go and pkg/join/options.go: a cluster joins a broker. The local cluster is reached by
-- one client, and the broker's by another that is made from the configuration the broker info yields.
-- The operator's allocation of CIDRs and its custom resources are parameters.
pub mod Version
pub mod Refused
pub mod Installed
pub mod Complete
pub mod Tests
use subctl.Base.{
  ℕ, String, Text, Text_eq, Bool, true, false, not, ◌&&◌, List, [], ◌∷◌, Option, none, some,
  if◌then◌else◌, ltb,
}
use subctl.Base.Effect.{
  Error, Result, ok, err, Log, Run, new_error, ask, emit, pure, fail, lift, ◌>>=◌, ◌>>◌, on_error,
  or_wrap, or_report, report_error, deferring_end, is_not_found, started, succeeded, failed, warned,
  call, remote, get, apply, replace, cluster, submariner, service_discovery, secret, global_cidr,
  clusterset_cidr,
}
use subctl.Cluster.Id.{is_empty}
use subctl.Cluster.Overrides.{Overrides, RepositoryInfo, merge_image_overrides, new_repository_info}
use subctl.Kube.{Secret, Client, data_of, request, event}
use subctl.Broker.{ensure_secret, create_sa_for_cluster}
use subctl.Broker.Info.{
  Info, Connection, RestConfig, get_broker_administrator_config, is_connectivity_enabled,
  is_service_discovery_enabled,
}
use subctl.Operator.{ensure_operator, operator_namespace}
use subctl.Deploy.{
  SubmarinerOptions, ServiceDiscoveryOptions, SubmarinerSpec, CommonSpec, populate_submariner_spec,
  populate_service_discovery_spec, count, slash,
}
use subctl.Join.Version.{ℤ, check_version}

-- The options, less OperatorDebug and HTTPProxyConfig, which only the operator's deployment reads, and
-- BrokerURL, which nothing does.
pub record Options : Type 0 where
  pub preferred_server : Bool
  pub force_udp_encaps : Bool
  pub nat_traversal : Bool
  pub ignore_requirements : Bool
  pub globalnet_enabled : Bool
  pub ipsec_debug : Bool
  pub submariner_debug : Bool
  pub air_gapped_deployment : Bool
  pub load_balancer_enabled : Bool
  pub health_check_enabled : Bool
  pub broker_k8s_secure : Bool
  pub enable_clusterset_ip : Bool
  pub natt_port : ℕ
  pub globalnet_cluster_size : ℕ
  pub health_check_interval : ℕ
  pub health_check_max_packet_loss_count : ℕ
  pub cluster_id : String
  pub service_cidr : String
  pub cluster_cidr : String
  pub globalnet_cidr : String
  pub repository : Text
  pub image_version : Text
  pub cable_driver : String
  pub core_dns_custom_config_map : Text
  pub clusterset_ip_cidr : String
  pub custom_domains : List String
  pub image_override_arr : List Text

pub record World : Type 0 where
  pub atoi : Text → Result ℤ
  pub server : Log → Result (Text × Text)
  pub valid_overrides : List Text
  pub default_repo : Text
  pub default_version : Text
  pub connection : Connection
  -- client.NewProducerFromRestConfig, and the client of the broker's cluster.
  pub new_producer : RestConfig → Result (Unit {0})
  pub broker_client : RestConfig → Client
  pub local_client : Client
  -- AllocateAndUpdateGlobalCIDRConfigMap: from the cluster ID, CIDR and size, the CIDR to use.
  pub allocate_global_cidr : String → String → ℕ → String → Log → Result String
  -- AllocateCIDRFromConfigMap: whether the clusterset IP is enabled, and its CIDR.
  pub allocate_clusterset_cidr : String → String → String → Log → Result (Bool × String)
  -- names.ForClusterSA
  pub cluster_sa : String → String
  pub encode_base64 : String → String
  pub replace_submariner : SubmarinerSpec → Log → Result (Unit {0})
  pub apply_service_discovery : CommonSpec → Log → Result (Unit {0})

-- broker.LocalClientBrokerSecretName
abbrev pub local_client_broker_secret_name : String
local_client_broker_secret_name = "submariner-broker-secret"

unfoldable pub populate_broker_secret : Info → Secret
populate_broker_secret info = record {
  secret_name = local_client_broker_secret_name;
  annotations = [];
  content = info.client_token.content;
}

unfoldable pub submariner_options_from : Options → SubmarinerOptions
submariner_options_from o = record {
  preferred_server = o.preferred_server;
  force_udp_encaps = o.force_udp_encaps;
  nat_traversal = o.nat_traversal;
  ipsec_debug = o.ipsec_debug;
  submariner_debug = o.submariner_debug;
  air_gapped_deployment = o.air_gapped_deployment;
  load_balancer_enabled = o.load_balancer_enabled;
  health_check_enabled = o.health_check_enabled;
  broker_k8s_insecure = not o.broker_k8s_secure;
  clusterset_ip_enabled = o.enable_clusterset_ip;
  natt_port = o.natt_port;
  health_check_interval = o.health_check_interval;
  health_check_max_packet_loss_count = o.health_check_max_packet_loss_count;
  cluster_id = o.cluster_id;
  cable_driver = o.cable_driver;
  core_dns_custom_config_map = o.core_dns_custom_config_map;
  repository = o.repository;
  image_version = o.image_version;
  service_cidr = o.service_cidr;
  cluster_cidr = o.cluster_cidr;
  custom_domains = o.custom_domains;
}

unfoldable pub service_discovery_options_from : Options → ServiceDiscoveryOptions
service_discovery_options_from o = record {
  submariner_debug = o.submariner_debug;
  broker_k8s_insecure = not o.broker_k8s_secure;
  clusterset_ip_enabled = o.enable_clusterset_ip;
  cluster_id = o.cluster_id;
  core_dns_custom_config_map = o.core_dns_custom_config_map;
  repository = o.repository;
  image_version = o.image_version;
  custom_domains = o.custom_domains;
}

unfoldable pub is_valid_custom_core_dns_config : Text → Result (Unit {0})
is_valid_custom_core_dns_config config =
    if not (is_empty config) && ltb 1 (count slash config)
    then err (new_error "coredns-custom-configmap should be in <namespace>/<name> format")
    else ok tt

unfoldable pub decide_requirements : Bool → List String → Run (Unit {0})
decide_requirements ignored [] = pure tt
decide_requirements ignored (r ∷ rs) =
    if ignored
    then emit (warned "The target cluster fails to meet Submariner's version requirements" (r ∷ rs))
    else emit (failed "The target cluster fails to meet Submariner's version requirements" (r ∷ rs))
      >> fail (new_error "version requirements not met")

-- A cluster that has its own Cluster resource was joined before; otherwise one on the broker belongs to
-- another cluster.
unfoldable pub ensure_unique_cluster : Client → Client → String → String → Run (Unit {0})
ensure_unique_cluster local broker ns id =
    on_error (request local get cluster operator_namespace id) (λ _. pure tt)
      (λ e.
        if is_not_found e
        then on_error (request broker get cluster ns id)
            (λ _.
              emit (failed "Detected an existing joined cluster with the same ID %q" (id ∷ []))
              >> fail (new_error "cluster ID not unique"))
            (λ f.
              if is_not_found f
              then pure tt
              else report_error "error retrieving broker Cluster CR" [] f)
        else report_error "error retrieving local Cluster CR" [] e)

module _ (w : World) where
  unfoldable pub check_requirements : Bool → Info → Run (Unit {0})
  check_requirements ignored info =
      or_report "unable to check version requirements" []
        (check_version w.atoi w.server info.service_discovery_enabled)
      >>= λ requirements. decide_requirements ignored requirements

  -- deploy.Submariner with submarinercr.Ensure
  unfoldable pub deploy_submariner :
      SubmarinerOptions → Info → Secret → String → String → RepositoryInfo → Run (Unit {0})
  deploy_submariner options info broker_secret global clusterset repo =
      or_report "Error creating PSK secret for cluster" []
        (ensure_secret w.local_client operator_namespace info.ipsec_psk)
      >>= λ psk. or_report "Submariner deployment failed" [] (
          or_wrap "error creating Submariner resource" (
            ask (event w.local_client replace submariner operator_namespace "submariner") (
              w.replace_submariner (
                populate_submariner_spec w.encode_base64 options info broker_secret psk global
                  clusterset repo))))

  -- deploy.ServiceDiscovery with servicediscoverycr.Ensure
  unfoldable pub deploy_service_discovery :
      ServiceDiscoveryOptions → Info → Secret → String → RepositoryInfo → Run (Unit {0})
  deploy_service_discovery options info broker_secret clusterset repo =
      or_report "Service discovery deployment failed" [] (
        or_wrap "error creating/updating ServiceDiscovery resource" (
          ask (event w.local_client apply service_discovery operator_namespace "service-discovery")
            (w.apply_service_discovery (
              populate_service_discovery_spec w.encode_base64 options info broker_secret clusterset
                repo))))

  unfoldable pub allocate_global : Client → String → Options → Run String
  allocate_global broker ns options =
      if options.globalnet_enabled
      then or_wrap "unable to determine the global CIDR" (
          ask (event broker apply global_cidr ns "") (
            w.allocate_global_cidr options.cluster_id options.globalnet_cidr
              options.globalnet_cluster_size ns))
      else pure options.globalnet_cidr

  -- The options and the CIDR of the clusterset IP, as they are afterwards.
  unfoldable pub allocate_clusterset : Client → String → Info → Options → Run (Options × String)
  allocate_clusterset broker ns info options =
      if is_service_discovery_enabled info
      then (or_wrap "unable to determine the clusterset IP CIDR" (
            ask (event broker apply clusterset_cidr ns "")
              (w.allocate_clusterset_cidr options.cluster_id options.clusterset_ip_cidr ns))
          >>= λ answer. pure (
            if answer.0 then record options { enable_clusterset_ip = true } else options,
            answer.1,
          ))
      else pure (options, options.clusterset_ip_cidr)

  unfoldable pub deploy_resource :
      Info → Options → Secret → String → String → RepositoryInfo → Run (Unit {0})
  deploy_resource info options broker_secret global clusterset repo =
      if is_connectivity_enabled info
      then emit (started "Deploying submariner" [])
        >> (or_report "Error deploying the Submariner resource" [] (
              deploy_submariner (submariner_options_from options) info broker_secret global
                clusterset repo)
            >> emit (succeeded "Submariner is up and running" []))
      else if is_service_discovery_enabled info
      then emit (started "Deploying service discovery only" [])
        >> (or_report "Error deploying the ServiceDiscovery resource" [] (
              deploy_service_discovery (service_discovery_options_from options) info broker_secret
                clusterset repo)
            >> emit (succeeded "Service discovery is up and running" []))
      else pure tt

  -- What follows once the cluster ID is known to be unique.
  unfoldable pub install : Client → String → Info → Options → Overrides → Run (Unit {0})
  install broker ns info given overrides = allocate_global broker ns given >>= λ global.
      allocate_clusterset broker ns info given >>= λ allocated.
      emit (started "Deploying the Submariner operator" []) >>= λ _.
      or_report "Error deploying the operator" []
        (ensure_operator w.local_client operator_namespace)
      >>= λ _. emit (started "Creating SA for cluster" []) >>= λ _.
          or_report "Error creating SA for cluster" []
            (create_sa_for_cluster broker (w.cluster_sa given.cluster_id) ns)
          >>= λ token. emit (started "Connecting to Broker" []) >>= λ _.
              or_report "Error creating broker secret for cluster" [] (
                ensure_secret w.local_client operator_namespace
                  (populate_broker_secret (record info { client_token = token })))
              >>= λ broker_secret.
                  deploy_resource (record info { client_token = token }) allocated.0 broker_secret
                    global allocated.1
                    (new_repository_info w.default_repo w.default_version given.repository
                      given.image_version overrides)

  unfoldable pub connect : Info → Options → Overrides → Run (Unit {0})
  connect info options overrides =
      or_report "Error retrieving broker admin config" []
        (get_broker_administrator_config w.connection info (not options.broker_k8s_secure))
      >>= λ config.
          or_report "Error creating broker client producer" [] (lift (w.new_producer config))
          >>= λ _.
              ensure_unique_cluster w.local_client (w.broker_client config)
                (data_of info.client_token "namespace") options.cluster_id
              >>= λ _.
                  install (w.broker_client config) (data_of info.client_token "namespace") info
                    options overrides

  unfoldable pub cluster_to_broker : Info → Options → Run (Unit {0})
  cluster_to_broker info options = check_requirements options.ignore_requirements info >>= λ _.
      or_report "error validating custom CoreDNS config" []
        (lift (is_valid_custom_core_dns_config options.core_dns_custom_config_map))
      >>= λ _.
          or_report "Error calculating image overrides" []
            (lift (merge_image_overrides w.valid_overrides none options.image_override_arr))
          >>= λ overrides. emit (started "Gathering relevant information from Broker" []) >>= λ _.
              deferring_end (connect info options overrides)
