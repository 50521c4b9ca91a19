-- ===== src/Deploy/Brokers.antt =====
-- pkg/deploy/broker.go, with pkg/brokercr/ensure.go: the broker is deployed after its options were
-- checked. The checks of CIDRs and the config maps of CIDRs belong to the operator: parameters.
pub mod Checked
pub mod Complete
use subctl.Base.{ℕ, String, String_eq, Bool, true, false, List, [], ◌∷◌, contains, if◌then◌else◌}
use subctl.Base.Effect.{
  Error, Result, ok, err, Log, Run, new_error, ask, pure, lift, ◌>>=◌, ◌>>◌, emit, started, or_wrap,
  or_report, deferring_end, get, apply, replace, broker_cr, global_cidr, clusterset_cidr,
}
use subctl.Kube.{Client, event}
use subctl.Broker.{ensure, connectivity, service_discovery_component, globalnet}
use subctl.Operator.{ensure_operator, operator_namespace}

pub record BrokerSpec : Type 0 where
  pub components : List String
  pub globalnet_enabled : Bool
  pub globalnet_cidr_range : String
  pub default_globalnet_cluster_size : ℕ
  pub clusterset_ip_enabled : Bool
  pub clusterset_ip_cidr_range : String
  pub default_custom_domains : List String

pub record BrokerOptions : Type 0 where
  pub broker_namespace : String
  pub broker_spec : BrokerSpec

-- The operator's packages cidr, globalnet and clusterset IP, and what the API server answers to a
-- broker resource.
pub record Discovery : Type 0 where
  pub is_valid_cidr : String → Result (Unit {0})
  pub get_valid_allocation_size : String → ℕ → Result ℕ
  pub validate_global_networks : String → Log → Result (Unit {0})
  pub create_global_config_map : Bool → String → ℕ → String → Log → Result (Unit {0})
  pub validate_clusterset_networks : String → Log → Result (Unit {0})
  pub create_clusterset_config_map : Bool → String → ℕ → String → Log → Result (Unit {0})
  pub replace_broker : BrokerSpec → Log → Result (Unit {0})

abbrev pub valid_components : List String
valid_components = service_discovery_component ∷ connectivity ∷ []

-- The loop over the components, whose order does not matter but for the message.
unfoldable pub all_known : List String → Result (Unit {0})
all_known [] = ok tt
all_known (c ∷ cs) =
    if contains valid_components c then all_known cs else err (new_error "unknown component: %s")

unfoldable pub is_valid_components : List String → Result (Unit {0})
is_valid_components [] = err (new_error "at least one component must be provided for deployment")
is_valid_components (c ∷ cs) = all_known (c ∷ cs)

module _ (d : Discovery) where
  abbrev pub with_size : BrokerSpec → Result ℕ → Result BrokerSpec
  with_size spec (err e) = err e
  with_size spec (ok size) = ok (record spec { default_globalnet_cluster_size = size })

  abbrev pub valid_range : BrokerSpec → Result BrokerSpec → Result (Unit {0}) → Result BrokerSpec
  valid_range spec (err e) r = err e
  valid_range spec (ok s) (err e) = err e
  valid_range spec (ok s) (ok _) = ok s

  -- It sets the cluster size, and so returns the options' specification.
  unfoldable pub check_globalnet_config : BrokerSpec → Result BrokerSpec
  check_globalnet_config spec =
      if spec.globalnet_enabled
      then valid_range spec
          (with_size spec (
            d.get_valid_allocation_size spec.globalnet_cidr_range
              spec.default_globalnet_cluster_size))
          (d.is_valid_cidr spec.globalnet_cidr_range)
      else ok spec

  module _ (c : Client) where
    -- brokercr.Ensure
    unfoldable pub ensure_broker_cr : String → BrokerSpec → Run (Unit {0})
    ensure_broker_cr ns spec =
        or_wrap "error creating Broker resource"
          (ask (event c replace broker_cr ns "submariner-broker") (d.replace_broker spec))

    unfoldable pub deploy : String → BrokerSpec → Run (Unit {0})
    deploy ns spec = do
      emit (started "Setting up broker RBAC" [])
      deferring_end (
          or_report "error setting up broker RBAC" [] (ensure c spec.components false ns) >>= λ _.
          emit (started "Deploying the Submariner operator" []) >>= λ _.
          or_report "error deploying Submariner operator" [] (ensure_operator c operator_namespace)
          >>= λ _. emit (started "Deploying the broker" []) >>= λ _.
              or_report "Broker deployment failed" [] (ensure_broker_cr ns spec))

    unfoldable pub broker_with : List String → String → BrokerSpec → Run (Unit {0})
    broker_with component_set ns spec = do
      deploy ns spec
      if spec.globalnet_enabled
          then or_report "error validating existing globalCIDR configmap" []
              (ask (event c get global_cidr ns "") (d.validate_global_networks ns))
          else pure tt
      or_report "error creating globalCIDR configmap on Broker" [] (
          ask (event c apply global_cidr ns "") (
            d.create_global_config_map spec.globalnet_enabled spec.globalnet_cidr_range
              spec.default_globalnet_cluster_size ns))
      if contains component_set service_discovery_component
          then or_report "error validating existing clustersetIPCIDR configmap" []
              (ask (event c get clusterset_cidr ns "") (d.validate_clusterset_networks ns))
          else pure tt
      or_report "error creating clustersetIPCIDR configmap on Broker" [] (
          ask (event c apply clusterset_cidr ns "") (
            d.create_clusterset_config_map spec.clusterset_ip_enabled spec.clusterset_ip_cidr_range
              0 ns))

    unfoldable pub broker : BrokerOptions → Run (Unit {0})
    broker options =
        let given = options.broker_spec in
        let components = given.components in
        let component_set =
          if given.globalnet_enabled then globalnet ∷ components else components in
        or_report "invalid components parameter" [] (lift (is_valid_components components)) >>= λ _.
        or_report "invalid GlobalCIDR configuration" [] (lift (check_globalnet_config given))
        >>= λ spec.
            or_report "invalid ClustersetIP configuration" []
              (lift (d.is_valid_cidr spec.clusterset_ip_cidr_range))
            >>= λ _. broker_with component_set options.broker_namespace spec
