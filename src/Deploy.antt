-- ===== src/Deploy.antt =====
-- pkg/deploy/submariner.go and pkg/deploy/servicediscovery.go: the specifications of the custom
-- resources that a joining cluster gets. Base64 is a parameter; numbers are as wide as they have to be.
pub mod Texts
pub mod Brokers
pub mod Tests
use subctl.Base.{
  ℕ, zero, suc, ◌+◌, String, Text, codes, Bool, true, false, List, [], ◌∷◌, Option, none, some,
  if◌then◌else◌, has_prefix, nat_eq,
}
use subctl.Cluster.Id.{is_empty}
use subctl.Cluster.Overrides.{RepositoryInfo, Overrides}
use subctl.Broker.Info.{Info, is_service_discovery_enabled}
use subctl.Kube.{Secret, data_of}
use subctl.Operator.{operator_namespace}

abbrev pub slash : ℕ
slash = b'/'

abbrev pub colon : ℕ
colon = b':'

-- The start of the first occurrence (strings.Index).
unfoldable pub index : Text → Text → Option ℕ
index [] sep = if is_empty sep then some 0 else none
index (c ∷ s) sep =
    let rest = index s sep in
    if has_prefix (c ∷ s) sep then some 0 else elim rest [ none ↦ none | some i ↦ some (suc i) ]

unfoldable pub drop : ℕ → Text → Text
drop zero s = s
drop (suc n) [] = []
drop (suc n) (_ ∷ s) = drop n s

abbrev pub extend : ℕ → List Text → List Text
extend c [] = (c ∷ []) ∷ []
extend c (w ∷ ws) = (c ∷ w) ∷ ws

-- strings.Split for a separator of one character: never empty.
unfoldable pub split : ℕ → Text → List Text
split sep [] = [] ∷ []
split sep (c ∷ s) = if nat_eq c sep then [] ∷ split sep s else extend c (split sep s)

-- strings.Count for a separator of one character.
unfoldable pub count : ℕ → Text → ℕ
count sep [] = 0
count sep (c ∷ s) = if nat_eq c sep then suc (count sep s) else count sep s

-- "://"
abbrev pub schema_mark : Text
schema_mark = colon ∷ slash ∷ slash ∷ []

unfoldable pub remove_schema_prefix : Text → Text
remove_schema_prefix url = elim (index url schema_mark) [ none ↦ url | some i ↦ drop (3 + i) url ]

-- The namespace and the name.
unfoldable pub get_custom_core_dns_params : Text → Text × Text
get_custom_core_dns_params config =
    if is_empty config then ([], []) else elim (split slash config) [
      | [] ↦ ([], config)
      | (_ ∷ []) ↦ ([], config)
      | (ns ∷ name ∷ _) ↦ (ns, name)
    ]

pub record SubmarinerOptions : Type 0 where
  pub preferred_server : Bool
  pub force_udp_encaps : Bool
  pub nat_traversal : Bool
  pub ipsec_debug : Bool
  pub submariner_debug : Bool
  pub air_gapped_deployment : Bool
  pub load_balancer_enabled : Bool
  pub health_check_enabled : Bool
  pub broker_k8s_insecure : Bool
  pub clusterset_ip_enabled : Bool
  pub natt_port : ℕ
  pub health_check_interval : ℕ
  pub health_check_max_packet_loss_count : ℕ
  pub cluster_id : String
  pub cable_driver : String
  pub core_dns_custom_config_map : Text
  pub repository : Text
  pub image_version : Text
  pub service_cidr : String
  pub cluster_cidr : String
  pub custom_domains : List String

pub record ServiceDiscoveryOptions : Type 0 where
  pub submariner_debug : Bool
  pub broker_k8s_insecure : Bool
  pub clusterset_ip_enabled : Bool
  pub cluster_id : String
  pub core_dns_custom_config_map : Text
  pub repository : Text
  pub image_version : Text
  pub custom_domains : List String

pub record CoreDnsCustomConfig : Type 0 where
  pub config_map_name : Text
  pub config_namespace : Text

pub record HealthCheckSpec : Type 0 where
  pub enabled : Bool
  pub interval_seconds : ℕ
  pub max_packet_loss_count : ℕ

-- What both specifications hold.
pub record CommonSpec : Type 0 where
  pub repository : Text
  pub version : Text
  pub broker_k8s_ca : String
  pub broker_k8s_remote_namespace : String
  pub broker_k8s_api_server_token : String
  pub broker_k8s_api_server : Text
  pub broker_k8s_secret : String
  pub broker_k8s_insecure : Bool
  pub debug : Bool
  pub cluster_id : String
  pub spec_namespace : String
  pub image_overrides : Overrides
  pub clusterset_ip_enabled : Bool
  pub clusterset_ip_cidr : String
  pub core_dns_custom_config : Option CoreDnsCustomConfig
  pub custom_domains : List String

pub record SubmarinerSpec : Type 0 where
  pub common : CommonSpec
  pub ce_ipsec_natt_port : ℕ
  pub ce_ipsec_debug : Bool
  pub ce_ipsec_force_udp_encaps : Bool
  pub ce_ipsec_preferred_server : Bool
  pub ce_ipsec_psk : String
  pub ce_ipsec_psk_secret : String
  pub nat_enabled : Bool
  pub service_cidr : String
  pub cluster_cidr : String
  pub global_cidr : String
  pub cable_driver : String
  pub service_discovery_enabled : Bool
  pub air_gapped_deployment : Bool
  pub load_balancer_enabled : Bool
  pub connection_health_check : HealthCheckSpec

unfoldable pub core_dns_custom_config_from : Text → Option CoreDnsCustomConfig
core_dns_custom_config_from config =
    if is_empty config
    then none
    else let params = get_custom_core_dns_params config in
      some (record { config_map_name = params.1; config_namespace = params.0 })

-- `global_cidr` and `clusterset_ip_cidr` are the CIDRs of the two configurations: an empty global CIDR
-- is left out, which is the empty text in the specification too.
module _ (encode_base64 : String → String) where
  unfoldable pub populate_submariner_spec :
      SubmarinerOptions → Info → Secret → Secret → String → String → RepositoryInfo → SubmarinerSpec
  populate_submariner_spec options info broker_secret psk_secret global_cidr clusterset_ip_cidr
        repo =
      record {
        common = record {
          repository = repo.name;
          version = repo.version;
          broker_k8s_ca = encode_base64 (data_of broker_secret "ca.crt");
          broker_k8s_remote_namespace = data_of broker_secret "namespace";
          broker_k8s_api_server_token = data_of broker_secret "token";
          broker_k8s_api_server = remove_schema_prefix info.broker_url;
          broker_k8s_secret = broker_secret.secret_name;
          broker_k8s_insecure = options.broker_k8s_insecure;
          debug = options.submariner_debug;
          cluster_id = options.cluster_id;
          spec_namespace = operator_namespace;
          image_overrides = repo.overrides;
          clusterset_ip_enabled = options.clusterset_ip_enabled;
          clusterset_ip_cidr = clusterset_ip_cidr;
          core_dns_custom_config = core_dns_custom_config_from options.core_dns_custom_config_map;
          custom_domains = options.custom_domains;
        };
        ce_ipsec_natt_port = options.natt_port;
        ce_ipsec_debug = options.ipsec_debug;
        ce_ipsec_force_udp_encaps = options.force_udp_encaps;
        ce_ipsec_preferred_server = options.preferred_server;
        ce_ipsec_psk = encode_base64 (data_of info.ipsec_psk "psk");
        ce_ipsec_psk_secret = psk_secret.secret_name;
        nat_enabled = options.nat_traversal;
        service_cidr = options.service_cidr;
        cluster_cidr = options.cluster_cidr;
        global_cidr = global_cidr;
        cable_driver = options.cable_driver;
        service_discovery_enabled = is_service_discovery_enabled info;
        air_gapped_deployment = options.air_gapped_deployment;
        load_balancer_enabled = options.load_balancer_enabled;
        connection_health_check = record {
          enabled = options.health_check_enabled;
          interval_seconds = options.health_check_interval;
          max_packet_loss_count = options.health_check_max_packet_loss_count;
        };
      }

  unfoldable pub populate_service_discovery_spec :
      ServiceDiscoveryOptions → Info → Secret → String → RepositoryInfo → CommonSpec
  populate_service_discovery_spec options info broker_secret clusterset_ip_cidr repo = record {
    repository = options.repository;
    version = options.image_version;
    broker_k8s_ca = encode_base64 (data_of broker_secret "ca.crt");
    broker_k8s_remote_namespace = data_of broker_secret "namespace";
    broker_k8s_api_server_token = data_of broker_secret "token";
    broker_k8s_api_server = remove_schema_prefix info.broker_url;
    broker_k8s_secret = broker_secret.secret_name;
    broker_k8s_insecure = options.broker_k8s_insecure;
    debug = options.submariner_debug;
    cluster_id = options.cluster_id;
    spec_namespace = operator_namespace;
    image_overrides = repo.overrides;
    clusterset_ip_enabled = options.clusterset_ip_enabled;
    clusterset_ip_cidr = clusterset_ip_cidr;
    core_dns_custom_config = core_dns_custom_config_from options.core_dns_custom_config_map;
    custom_domains = options.custom_domains;
  }
