-- ===== src/Upgrade.antt =====
-- cmd/subctl/upgrade.go, with getBroker of cmd/subctl/broker.go: "subctl upgrade". The flags are global
-- variables, which the functions also set: their values are passed on. The HTTP proxy's configuration
-- and the operator's image, which only the operator's deployment reads, are left out.
pub mod Newer
pub mod Migrated
pub mod Tests
use subctl.Base.{
  ℕ, String, String_eq, Text, Text_eq, codes, ◌==◌, Bool, true, false, not, ◌&&◌, ◌||◌, leb, List,
  [], ◌∷◌, ◌++◌, length, Option, none, some, has_prefix, if◌then◌else◌,
}
use subctl.Base.Effect.{
  Error, Result, ok, err, Log, Run, new_error, ask, emit, pure, fail, lift, ◌>>=◌, ◌>>◌, on_error,
  or_wrap, or_report, report_error, deferring_end, is_not_found, started, succeeded, warned, get,
  delete, apply, replace, submariner, service_discovery, secret, broker_cr, deployment,
}
use subctl.Cluster.Id.{is_empty}
use subctl.Cluster.Info.{ClusterInfo, SubmarinerCr, ServiceDiscoveryCr}
use subctl.Kube.{Secret, Client, request, request_secret, event}
use subctl.Broker.{ensure_secret}
use subctl.Deploy.{SubmarinerSpec, CommonSpec, drop}
use subctl.Deploy.Brokers.{BrokerSpec, Discovery, deploy}
use subctl.Join.{local_client_broker_secret_name}
use subctl.Operator.{operator_namespace, operator_component, ensure_operator}

-- github.com/coreos/go-semver
pub record SemVer (V : Type 0) : Type 0 where
  pub new_version : Text → Result V
  pub less_than : V → V → Bool
  pub equal : V → V → Bool
  pub show : V → Text

-- strings.TrimPrefix
unfoldable pub trim_prefix : Text → Text → Text
trim_prefix s prefix = if has_prefix s prefix then drop (length prefix) s else s

-- A dotted triplet, and not a development version.
unfoldable pub is_comparable : Text → Bool
is_comparable current =
    leb 5 (length current)
    && (not (has_prefix current (codes "devel")) && not (has_prefix current (codes "release")))

-- What upgradeSubctl comes to: this subctl is kept, or the version is installed in its place.
pub data Decision : Type 0 where
  keep : Decision
  install : Text → Decision
  invalid : String → Error → Decision

module _ {V : Type 0} (s : SemVer V) where
  unfoldable pub compare_versions : V → Result V → Decision
  compare_versions to (err e) = invalid "Error parsing current subctl version" e
  compare_versions to (ok current) =
      if s.less_than to current || s.equal to current
      then keep
      else install (codes "v" ++ s.show to)

  unfoldable pub decide_to : Text → Result V → Decision
  decide_to current (err e) = invalid "Invalid target version" e
  decide_to current (ok to) =
      if is_comparable current
      then compare_versions to (s.new_version (trim_prefix current (codes "v")))
      else install (codes "v" ++ s.show to)

  -- The decision, and the version flag as it is left.
  unfoldable pub decide : Text → Text → Decision × Text
  decide current given =
      if given == current
      then (keep, given)
      else if is_empty given
      then (install (codes "latest"), given)
      else let trimmed = trim_prefix given (codes "v") in
        (decide_to current (s.new_version trimmed), trimmed)

  -- The latest release on GitHub stands in for a version that is not given, if it can be read.
  unfoldable pub requested : Option Text → Text → Text
  requested latest given = if is_empty given then or_given latest else given
    where
      or_given : Option Text → Text
      or_given none = given
      or_given (some tag) = tag

-- The download: the path of the new subctl.
pub record Host : Type 0 where
  pub current_version : Text
  pub latest_release : Option Text
  pub absolute_path : Result String
  pub run_installer : Text → Result (Unit {0})

module _ (h : Host) where
  unfoldable pub perform : Decision → Run (Option String)
  perform keep = pure none
  perform (invalid message e) = report_error message [] e
  perform (install target) =
      emit (started "Upgrading subctl from %s to %s, replacing %s" []) >>= λ _.
      or_report "Error determining the installation path" [] (lift h.absolute_path) >>= λ path.
      or_report "Error upgrading subctl" [] (lift (h.run_installer target)) >>= λ _.
      emit subctl.Base.Effect.ended >> pure (some path)

  -- The path of the upgraded subctl, if it was upgraded, and the version flag.
  unfoldable pub upgrade_subctl : {V : Type 0} → SemVer V → Text → Run (Option String × Text)
  upgrade_subctl s given =
      let decision = decide s h.current_version (requested s h.latest_release given) in
      perform decision.0 >>= λ path. pure (path, decision.1)

-- What the API server answers to the upgrade of one cluster.
pub record Site : Type 0 where
  pub client : Client
  pub discovery : Discovery
  pub new_producer : Result (Unit {0})
  -- The broker's namespace and specification.
  pub get_broker : Log → Result (String × BrokerSpec)
  pub replace_submariner : SubmarinerSpec → Log → Result (Unit {0})
  pub apply_service_discovery : CommonSpec → Log → Result (Unit {0})

pub record Versions : Type 0 where
  pub subctl_version : Text
  pub operator_version : Text
  pub submariner_version : Text

abbrev pub broker_namespace : String
broker_namespace = "submariner-k8s-broker"

-- The prefix of the secrets of service account tokens.
abbrev pub old_secret_prefix : Text
old_secret_prefix = codes "broker-secret-"

module _ (w : Site) where
  unfoldable pub get_broker : Run (Option (String × BrokerSpec))
  get_broker = or_wrap "error creating broker client Producer" (lift w.new_producer) >>= λ _.
      on_error
        (ask (event w.client get broker_cr broker_namespace "submariner-broker") w.get_broker)
        (λ b. pure (some b))
        (λ e. if is_not_found e then pure none else or_wrap "error retrieving Broker" (fail e))

  abbrev pub deploy_found : Option (String × BrokerSpec) → Run Bool
  deploy_found none = pure false
  deploy_found (some (ns, spec)) = emit (started "Upgrading the Broker to %s" []) >>= λ _.
      or_report "Error upgrading the Broker" [] (deploy w.discovery w.client ns spec) >> pure true

  -- Whether there is a broker, which then is upgraded.
  unfoldable pub upgrade_broker : Run Bool
  upgrade_broker = emit (started "Checking if the Broker is installed" []) >>= λ _.
      deferring_end
        (or_report "Error checking for the Broker" [] get_broker >>= λ found. deploy_found found)

  unfoldable pub copy_secret : Secret → Run String
  copy_secret old =
      or_report "Error creating Broker secret %q" (local_client_broker_secret_name ∷ []) (
        ensure_secret w.client operator_namespace
          (record old { secret_name = local_client_broker_secret_name; annotations = [] }))
      >>= λ _.
          on_error (request w.client delete secret operator_namespace old.secret_name)
            (λ _. pure tt)
            (λ e.
              emit (warned "Error deleting the old broker secret %q: %v" (old.secret_name ∷ [])))
          >>= λ _.
              emit (succeeded "Successfully migrated the Broker secret from %q to %q" [])
              >> pure local_client_broker_secret_name

  -- The name of the secret to use.
  unfoldable pub migrate_broker_secret : String → Run String
  migrate_broker_secret from =
      if has_prefix (codes from) old_secret_prefix
      then on_error
          (request_secret w.client get secret operator_namespace local_client_broker_secret_name)
          (λ _. pure local_client_broker_secret_name)
          (λ e.
            if is_not_found e
            then (or_report "Error retrieving old Broker secret %q" (from ∷ [])
                  (request_secret w.client get secret operator_namespace from)
                >>= λ old. copy_secret old)
            else report_error "Error retrieving Broker secret %q"
                (local_client_broker_secret_name ∷ []) e)
      else pure from

  unfoldable pub upgrade_operator : Run (Unit {0})
  upgrade_operator = emit (started "Checking if the Operator is installed" []) >>= λ _.
      deferring_end (
        on_error (request w.client get deployment operator_namespace operator_component)
          (λ _. emit (started "Upgrading the Operator to %s" []) >>= λ _.
            or_report "Error upgrading the Operator" []
              (ensure_operator w.client operator_namespace))
          (λ e.
            if is_not_found e
            then pure tt
            else report_error "Error retrieving Operator deployment" [] e))

  unfoldable pub upgrade_connectivity : Text → Option SubmarinerCr → Run (Unit {0})
  upgrade_connectivity version none = pure tt
  upgrade_connectivity version (some s) =
      emit (started "Upgrading the Connectivity component to %s" []) >>= λ _. deferring_end (
        migrate_broker_secret s.spec.common.broker_k8s_secret >>= λ name.
        or_report "Error upgrading the Connectivity component" [] (
          or_wrap "error creating Submariner resource" (
            ask (event w.client replace submariner operator_namespace "submariner") (
              w.replace_submariner (record s.spec {
                common = record s.spec.common { version = version; broker_k8s_secret = name };
              })))))

  unfoldable pub upgrade_service_discovery : Text → Option ServiceDiscoveryCr → Run (Unit {0})
  upgrade_service_discovery version none = pure tt
  upgrade_service_discovery version (some d) =
      emit (started "Upgrading Service Discovery to %s" []) >>= λ _. deferring_end (
        migrate_broker_secret d.spec.broker_k8s_secret >>= λ name.
        or_report "Error upgrading Service Discovery" [] (
          or_wrap "error creating/updating ServiceDiscovery resource" (
            ask (event w.client apply service_discovery operator_namespace "service-discovery") (
              w.apply_service_discovery
                (record d.spec { version = version; broker_k8s_secret = name })))))

  unfoldable pub upgrade_components : Text → Bool → ClusterInfo → Run (Unit {0})
  upgrade_components version broker_upgraded info =
      (if broker_upgraded then pure tt else upgrade_operator) >>= λ _.
      upgrade_connectivity version info.submariner_cr >>= λ _.
      upgrade_service_discovery version info.discovery_cr

  abbrev pub has_component : Option SubmarinerCr → Option ServiceDiscoveryCr → Bool
  has_component none none = false
  has_component (some _) _ = true
  has_component none (some _) = true

  unfoldable pub upgrade_submariner : Versions → ClusterInfo → Run (Unit {0})
  upgrade_submariner v info = upgrade_broker >>= λ broker_upgraded.
      if has_component info.submariner_cr info.discovery_cr
      then upgrade_components v.submariner_version broker_upgraded info
      else pure tt
