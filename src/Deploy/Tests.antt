-- ===== src/Deploy/Tests.antt =====
-- Runs of pkg/deploy/broker.go, and the texts of pkg/deploy/submariner.go on examples.
use subctl.Base.{
  String, Text, codes, ◌≡◌, ◌≢◌, ◌↔◌, ◌⊎◌, inl, refl, true, false, ◌∷◌, ◌++◌, List, [], All,
  contains, arith,
}
use subctl.Base.Effect.{
  Result, ok, err, Log, pure, fail, lift, ◌>>=◌, ask, emit, on_error, or_wrap, or_report,
  report_error, ignore_already_exists, deferring_end, new_error, for_each,
}
use subctl.Base.Keep.{Keeps}
use subctl.Base.Report.{HasErrored}
use subctl.Base.Dict.{lookup}
use subctl.Kube.{request, request_created, request_secret, request_secrets, report_created}
use subctl.Kube.Samples.{friendly_client}
use subctl.Broker.{
  connectivity, service_discovery_component, ensure, ensure_namespace, find_secret, has_token,
  new_token_secret, get_token_secret_for, ensure_secret, await_token, ensure_token_secret,
  create_new_broker_admin_sa, create_broker_administrator_role_and_sa,
}
use subctl.Operator.{
  any_created, ensure_from_yaml, ensure_crds, ensure_operator_accounts, is_ocp_platform,
  ensure_component_rbac, ensure_rbac, ensure_role_binding, ensure_submariner_accounts,
  ensure_submariner, ensure_lighthouse_pair, ensure_lighthouse_accounts, ensure_lighthouse,
  ensure_deployment, ensure_operator,
}
use subctl.Deploy.{slash, schema_mark, count, remove_schema_prefix, get_custom_core_dns_params}
use subctl.Deploy.Texts.{remove_schema_prefix-host, get_custom_core_dns_params-Lossless}
use subctl.Deploy.Brokers.{
  BrokerSpec, BrokerOptions, Discovery, all_known, is_valid_components, check_globalnet_config,
  ensure_broker_cr, deploy, broker_with, broker,
}
use subctl.Deploy.Brokers.Checked.{IsReport, is_valid_components_ok_iff, broker-Refused}
use subctl.Deploy.Brokers.Complete.{broker_reports}

-- The CIDRs are accepted, and the Broker resource as `answer` says.
abbrev discovery : Result (Unit {0}) → Discovery
discovery answer = record {
  is_valid_cidr = λ cidr. ok tt;
  get_valid_allocation_size = λ cidr size. ok 65536;
  validate_global_networks = λ ns log. ok tt;
  create_global_config_map = λ enabled cidr size ns log. ok tt;
  validate_clusterset_networks = λ ns log. ok tt;
  create_clusterset_config_map = λ enabled cidr size ns log. ok tt;
  replace_broker = λ spec log. answer;
}

abbrev options : List String → BrokerOptions
options components = record {
  broker_namespace = "submariner-k8s-broker";
  broker_spec = record {
    components = components;
    globalnet_enabled = true;
    globalnet_cidr_range = "242.0.0.0/8";
    default_globalnet_cluster_size = 0;
    clusterset_ip_enabled = false;
    clusterset_ip_cidr_range = "243.0.0.0/8";
    default_custom_domains = [];
  };
}

abbrev both : List String
both = connectivity ∷ service_discovery_component ∷ []

run : Result (Unit {0}) → Result (Unit {0}) × Log
unfolding pure fail lift ◌>>=◌ ask emit on_error or_wrap or_report report_error
    ignore_already_exists deferring_end for_each request request_created request_secret
    request_secrets report_created ensure ensure_namespace find_secret has_token new_token_secret
    get_token_secret_for ensure_secret await_token ensure_token_secret create_new_broker_admin_sa
    create_broker_administrator_role_and_sa any_created ensure_from_yaml ensure_crds
    ensure_operator_accounts is_ocp_platform ensure_component_rbac ensure_rbac ensure_role_binding
    ensure_submariner_accounts ensure_submariner ensure_lighthouse_pair ensure_lighthouse_accounts
    ensure_lighthouse ensure_deployment ensure_operator all_known is_valid_components
    check_globalnet_config ensure_broker_cr deploy broker_with broker contains lookup
run answer = broker (discovery answer) friendly_client (options both) []

abbrev checked : BrokerSpec
checked = record (options both).broker_spec { default_globalnet_cluster_size = 65536 }

broker_reports_example : HasErrored (run (err (new_error "refused"))).1
unfolding run
broker_reports_example =
    broker_reports (discovery (err (new_error "refused"))) friendly_client (options both) refl

no_components : is_valid_components [] ≢ ok tt
unfolding is_valid_components
no_components h = cc

broker-Refused_example :
    Keeps (All IsReport) (broker (discovery (ok tt)) friendly_client (options []))
broker-Refused_example =
    broker-Refused (discovery (ok tt)) friendly_client (options []) (inl no_components)

is_valid_components_ok_iff_example :
    (is_valid_components both ≡ ok tt)
    ↔ ((both ≢ []) × All (λ c. (c ≡ service_discovery_component) ⊎ (c ≡ connectivity)) both)
is_valid_components_ok_iff_example = is_valid_components_ok_iff both

remove_schema_prefix-host_example :
    (remove_schema_prefix (codes "https" ++ (schema_mark ++ codes "api:6443")) ≡ codes "api:6443")
    × (remove_schema_prefix (codes "api:6443") ≡ codes "api:6443")
unfolding count
remove_schema_prefix-host_example =
    remove_schema_prefix-host (codes "https") (codes "api:6443") refl refl

get_custom_core_dns_params-Lossless_example :
    ((count slash (codes "dns/map") ≡ 0)
      × (get_custom_core_dns_params (codes "dns/map") ≡ ([], codes "dns/map")))
    ⊎ ((ns : Text) × (name : Text) × (count slash ns ≡ 0)
        × (count slash name ≡ 0)
        × (codes "dns/map" ≡ ns ++ slash ∷ name)
        × (get_custom_core_dns_params (codes "dns/map") ≡ (ns, name)))
unfolding count
get_custom_core_dns_params-Lossless_example =
    get_custom_core_dns_params-Lossless (codes "dns/map") (omega arith)
