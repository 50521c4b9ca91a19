-- ===== src/Join/Tests.antt =====
-- Joins of one cluster to one broker (pkg/join/join.go).
use subctl.Base.{
  String_eq, Text, codes, ◌≡◌, ◌↔◌, refl, true, false, ◌∷◌, [], contains, none, has_suffix,
  has_prefix,
}
use subctl.Base.Dict.{lookup}
use subctl.Base.Effect.{
  Error, Result, ok, err, Verb, Resource, Log, pure, fail, lift, ◌>>=◌, ask, emit, on_error,
  or_wrap, or_report, report_error, ignore_already_exists, deferring_end, not_found,
}
use subctl.Kube.{Client, request, request_created, request_secret, request_secrets, report_created}
use subctl.Kube.Samples.{friendly_client, token_secret, fresh_secret}
use subctl.Cluster.Id.{is_empty}
use subctl.Cluster.Overrides.{merge, merge_image_overrides, new_repository_info}
use subctl.Broker.{
  ensure_namespace, find_secret, has_token, new_token_secret, get_token_secret_for, ensure_secret,
  await_token, ensure_token_secret, ensure_service_account, create_sa_for_cluster, connectivity,
}
use subctl.Broker.Info.{
  Info, get_broker_administrator_config_from, get_and_check, get_broker_administrator_config,
  is_connectivity_enabled, is_service_discovery_enabled,
}
use subctl.Operator.{
  any_created, ensure_from_yaml, ensure_crds, ensure_operator_accounts, is_ocp_platform,
  ensure_component_rbac, ensure_rbac, ensure_role_binding, ensure_submariner_accounts,
  ensure_submariner, ensure_lighthouse_pair, ensure_lighthouse_accounts, ensure_lighthouse,
  ensure_deployment, ensure_operator,
}
use subctl.Deploy.{count}
use subctl.Join.Version.{
  ℤ, pos, is_too_old, failed_requirements, without_last, parse_minor, check_version, AtLeast,
  failed_requirements_none_iff,
}
use subctl.Join.{
  World, Options, populate_broker_secret, is_valid_custom_core_dns_config, decide_requirements,
  ensure_unique_cluster, check_requirements, deploy_submariner, deploy_service_discovery,
  allocate_global, allocate_clusterset, deploy_resource, install, connect, cluster_to_broker,
}
use subctl.Join.Refused.{
  IsTaken, IsUnmet, IsRefusal, cluster_to_broker-Taken, cluster_to_broker-Unmet,
}

abbrev missing : Error
missing = record { cause = not_found; messages = [] }

-- No Cluster resource is found.
abbrev clusterless : Verb → Resource → Result (Unit {0})
clusterless Verb.get Resource.cluster = err missing
clusterless _ _ = ok tt

abbrev new_cluster : Client
new_cluster = record friendly_client { done = λ v r ns n log. clusterless v r }

abbrev digits : Text → Result ℤ
digits [] = ok (pos 0)
digits (c ∷ []) = ok (pos 1)
digits (c ∷ d ∷ _) = ok (pos 18)

-- The broker answers with `broker`, and the joining cluster runs 1.`minor`, if `digits` reads it.
abbrev site : Client → (Text → Result ℤ) → World
site broker atoi = record {
  atoi = atoi;
  server = λ log. ok (codes "1", codes "18+");
  valid_overrides = [];
  default_repo = [];
  default_version = [];
  connection = record { new_client = λ c log. ok tt; list_clusters = λ c ns log. ok tt };
  new_producer = λ c. ok tt;
  broker_client = λ c. broker;
  local_client = new_cluster;
  allocate_global_cidr = λ id cidr size ns log. ok "242.0.0.0/16";
  allocate_clusterset_cidr = λ id cidr ns log. ok (true, "243.0.0.0/20");
  cluster_sa = λ id. id;
  encode_base64 = λ s. s;
  replace_submariner = λ spec log. ok tt;
  apply_service_discovery = λ spec log. ok tt;
}

abbrev recent : Text → Result ℤ
recent s = ok (pos 30)

abbrev info : Info
info = record {
  broker_url = codes "https://broker";
  client_token = token_secret "broker";
  ipsec_psk = fresh_secret "submariner-ipsec-psk";
  service_discovery_enabled = false;
  components = connectivity ∷ [];
  custom_domains = none;
}

abbrev options : Options
options = record {
  preferred_server = false;
  force_udp_encaps = false;
  nat_traversal = true;
  ignore_requirements = false;
  globalnet_enabled = true;
  ipsec_debug = false;
  submariner_debug = false;
  air_gapped_deployment = false;
  load_balancer_enabled = false;
  health_check_enabled = true;
  broker_k8s_secure = true;
  enable_clusterset_ip = false;
  natt_port = 4500;
  globalnet_cluster_size = 0;
  health_check_interval = 1;
  health_check_max_packet_loss_count = 5;
  cluster_id = "east";
  service_cidr = "";
  cluster_cidr = "";
  globalnet_cidr = "";
  repository = [];
  image_version = [];
  cable_driver = "libreswan";
  core_dns_custom_config_map = codes "ns/map";
  clusterset_ip_cidr = "";
  custom_domains = [];
  image_override_arr = [];
}

run : World → Result (Unit {0}) × Log
unfolding pure fail lift ◌>>=◌ ask emit on_error or_wrap or_report report_error
    ignore_already_exists deferring_end request request_created request_secret request_secrets
    report_created merge merge_image_overrides new_repository_info ensure_namespace find_secret
    has_token new_token_secret get_token_secret_for ensure_secret await_token ensure_token_secret
    ensure_service_account create_sa_for_cluster get_broker_administrator_config_from get_and_check
    get_broker_administrator_config is_connectivity_enabled is_service_discovery_enabled any_created
    ensure_from_yaml ensure_crds ensure_operator_accounts is_ocp_platform ensure_component_rbac
    ensure_rbac ensure_role_binding ensure_submariner_accounts ensure_submariner
    ensure_lighthouse_pair ensure_lighthouse_accounts ensure_lighthouse ensure_deployment
    ensure_operator count is_too_old failed_requirements without_last parse_minor check_version
    populate_broker_secret is_valid_custom_core_dns_config decide_requirements ensure_unique_cluster
    check_requirements deploy_submariner deploy_service_discovery allocate_global
    allocate_clusterset deploy_resource install connect cluster_to_broker lookup is_empty contains
    has_suffix has_prefix
run w = cluster_to_broker w info options []

joined : (run (site new_cluster recent)).0 ≡ ok tt
unfolding run
joined = refl

taken : IsTaken (site friendly_client recent) info options
taken = record {
  missing = missing;
  is_missing = refl;
  local_missing = λ log. refl;
  broker_found = λ config log. refl;
}

cluster_to_broker-Taken_example :
    IsRefusal (cluster_to_broker (site friendly_client recent) info options)
cluster_to_broker-Taken_example =
    cluster_to_broker-Taken (site friendly_client recent) info options taken

unmet : IsUnmet (site new_cluster digits) info options
unfolding run
unmet = record {
  version = (codes "1", codes "18+");
  major = pos 1;
  minor = pos 18;
  served = λ log. refl;
  major_read = refl;
  minor_read = refl;
  unmet = λ h. cc;
  not_ignored = refl;
}

cluster_to_broker-Unmet_example :
    IsRefusal (cluster_to_broker (site new_cluster digits) info options)
cluster_to_broker-Unmet_example =
    cluster_to_broker-Unmet (site new_cluster digits) info options unmet

failed_requirements_none_iff_example :
    (failed_requirements true (pos 1) (pos 20) ≡ [])
    ↔ (AtLeast (pos 1) (pos 20) 19 × (true ≡ true → AtLeast (pos 1) (pos 20) 21))
failed_requirements_none_iff_example = failed_requirements_none_iff true (pos 1) (pos 20)
