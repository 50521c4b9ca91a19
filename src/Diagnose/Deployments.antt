-- ===== src/Diagnose/Deployments.antt =====
-- pkg/diagnose/deployments.go, less the metrics check, with ForBroker of
-- internal/restconfig/restconfig.go. Numbers of replicas are never negative.
use subctl.Base.{
  ℕ, ◌+◌, String, String_eq, ◌==◌, Bool, true, false, ◌&&◌, leb, nat_eq, List, [], ◌∷◌, Option,
  none, some, if◌then◌else◌,
}
use subctl.Base.Dict.{Dict, lookup}
use subctl.Base.Effect.{
  Result, ok, err, Log, Run, ask, emit, pure, lift, ◌>>=◌, ◌>>◌, on_error, or_wrap, or_report,
  deferring_end, for_each, started, warned, call, remote, get, list, endpoint, cluster,
  service_import, deployment, daemon_set, pod,
}
use subctl.Broker.Info.{RestConfig}
use subctl.Cluster.Info.{Endpoint, ClusterInfo, SubmarinerCr, ServiceDiscoveryCr}
use subctl.Deploy.{CommonSpec}
use subctl.Kube.{get_or_empty}
use subctl.Operator.{operator_namespace}
use subctl.Diagnose.{tracked, failure}

pub record PodStatus : Type 0 where
  pub pod_name : String
  pub labels : Dict String String
  pub is_running : Bool
  pub restart_counts : List ℕ

-- The API servers of the cluster and of its broker. `is_overlapping` is the operator's
-- cidr.IsOverlapping, and `authorize` admiral's GetAuthorizedRestConfigFromData.
pub record DeploymentsApi : Type 0 where
  pub authorize : CommonSpec → Log → Result RestConfig
  pub new_producer : RestConfig → Result (Unit {0})
  pub list_broker_endpoints : String → Log → Result (List Endpoint)
  pub is_overlapping : List String → String → Result Bool
  -- The desired number, where one is given, and the number available.
  pub get_deployment : String → String → Log → Result (Option ℕ × ℕ)
  -- The desired number and the number scheduled.
  pub get_daemon_set : String → String → Log → Result (ℕ × ℕ)
  pub list_pods : String → Log → Result (List PodStatus)

module _ (api : DeploymentsApi) where
  -- ForBroker: without either resource there is no configuration, and no error.
  unfoldable pub for_broker :
      Option SubmarinerCr → Option ServiceDiscoveryCr → Run (Option RestConfig × String)
  for_broker (some s) d =
      or_wrap "error getting auth rest config" (
        ask (remote get cluster s.spec.common.broker_k8s_remote_namespace "")
          (api.authorize s.spec.common))
      >>= λ config. pure (some config, s.spec.common.broker_k8s_remote_namespace)
  for_broker none (some d) =
      or_wrap "error getting auth rest config" (
        ask (remote get service_import d.spec.broker_k8s_remote_namespace "")
          (api.authorize d.spec))
      >>= λ config. pure (some config, d.spec.broker_k8s_remote_namespace)
  for_broker none none = pure (none, "")

  unfoldable pub check_subnet : Endpoint → Endpoint → String → Run (Unit {0})
  check_subnet source dest subnet = elim (api.is_overlapping source.subnets subnet) [
    | err e ↦ failure "Error parsing CIDR in cluster %q: %s" (dest.endpoint_cluster ∷ [])
    | ok true ↦
        failure "CIDR %q in cluster %q overlaps with cluster %q (CIDRs: %v)"
          (subnet ∷ (dest.endpoint_cluster ∷ (source.endpoint_cluster ∷ source.subnets)))
    | ok false ↦ pure tt
  ]

  unfoldable pub check_pair : Endpoint → Endpoint → Run (Unit {0})
  check_pair source dest =
      if source.endpoint_cluster == dest.endpoint_cluster
      then failure "Found multiple Submariner endpoints (%q and %q) in cluster %q"
          (source.endpoint_name ∷ (dest.endpoint_name ∷ (source.endpoint_cluster ∷ [])))
      else for_each (check_subnet source dest) dest.subnets

  -- Each endpoint with all that are listed after it.
  unfoldable pub check_pairs : List Endpoint → Run (Unit {0})
  check_pairs [] = pure tt
  check_pairs (source ∷ dests) = for_each (check_pair source) dests >> check_pairs dests

  abbrev pub new_producer_for : Option RestConfig → Result (Unit {0})
  new_producer_for none = ok tt
  new_producer_for (some config) = api.new_producer config

  unfoldable pub check_overlapping_cidrs : SubmarinerCr → Run (Unit {0})
  check_overlapping_cidrs s =
      emit (
        started
          (if s.spec.global_cidr == ""
            then "Non-Globalnet deployment detected - checking that cluster CIDRs do not overlap"
            else "Globalnet deployment detected - checking that globalnet CIDRs do not overlap")
          [])
      >>= λ _. deferring_end (
          or_report "Error getting the Broker's REST config" [] (for_broker (some s) none)
          >>= λ found.
              or_report "Error creating broker client Producer" [] (lift (new_producer_for found.0))
              >>= λ _.
                  or_report "Error listing the Submariner endpoints from the Broker cluster" []
                    (ask (remote list endpoint found.1 "") (api.list_broker_endpoints found.1))
                  >>= λ endpoints.
                      tracked "failures while diagnosing overlapping CIDRs" (check_pairs endpoints))

  abbrev pub or_one : Option ℕ → ℕ
  or_one none = 1
  or_one (some n) = n

  unfoldable pub check_deployment : String → String → Run (Unit {0})
  check_deployment ns name = emit (started "Checking Deployment %q" (name ∷ [])) >>= λ _.
      deferring_end (
        on_error (ask (call get deployment ns name) (api.get_deployment ns name))
          (λ d.
            if nat_eq d.1 (or_one d.0)
            then pure tt
            else failure
                "The desired number of replicas for Deployment %q (%d) does not match the actual number running (%d)"
                (name ∷ []))
          (λ e. failure "Error obtaining Deployment %q: %v" (name ∷ [])))

  unfoldable pub check_daemonset : String → String → Run (Unit {0})
  check_daemonset ns name = emit (started "Checking DaemonSet %q" (name ∷ [])) >>= λ _.
      deferring_end (
        on_error (ask (call get daemon_set ns name) (api.get_daemon_set ns name))
          (λ d.
            if nat_eq d.1 d.0
            then pure tt
            else failure
                "The desired number of running pods for DaemonSet %q (%d) does not match the actual number (%d)"
                (name ∷ []))
          (λ e. failure "Error obtaining Daemonset %q: %v" (name ∷ [])))

  unfoldable pub is_active_gateway : PodStatus → Bool
  is_active_gateway p =
      get_or_empty (lookup "app" p.labels) == "submariner-gateway"
      && get_or_empty (lookup "gateway.submariner.io/status" p.labels) == "active"

  unfoldable pub count_active : List PodStatus → ℕ
  count_active [] = 0
  count_active (p ∷ ps) = (if is_active_gateway p then 1 else 0) + count_active ps

  unfoldable pub check_pod : PodStatus → Run (Unit {0})
  check_pod p =
      if p.is_running
      then for_each
          (λ n.
            if leb 5 n
            then emit (warned "Pod %q has restarted %d times" (p.pod_name ∷ []))
            else pure tt)
          p.restart_counts
      else failure "Pod %q is not running. (current state is %v)" (p.pod_name ∷ [])

  unfoldable pub check_pods_status : String → Run (Unit {0})
  check_pods_status ns = emit (started "Checking the status of all Submariner pods" []) >>= λ _.
      deferring_end (
        on_error (ask (call list pod ns "submariner.io/transient!=true") (api.list_pods ns))
          (λ pods.
            for_each check_pod pods
            >> (if nat_eq (count_active pods) 1
                then pure tt
                else emit (
                    warned "Expected one Gateway pod to be labeled as active. Found %d on nodes %v"
                      [])))
          (λ e. failure "Error obtaining Pods list: %v" []))

  unfoldable pub check_submariner_pods : SubmarinerCr → Run (Unit {0})
  check_submariner_pods s = do
    check_daemonset operator_namespace "submariner-gateway"
    check_daemonset operator_namespace "submariner-routeagent"
    if s.spec.global_cidr == ""
        then pure tt
        else check_daemonset operator_namespace "submariner-globalnet"
    check_daemonset s.submariner_namespace "submariner-metrics-proxy"

  unfoldable pub check_discovery_pods : Run (Unit {0})
  check_discovery_pods = do
    check_deployment operator_namespace "submariner-lighthouse-agent"
    check_deployment operator_namespace "submariner-lighthouse-coredns"

  abbrev pub check_components : Option SubmarinerCr → Option ServiceDiscoveryCr → Run (Unit {0})
  check_components none none = pure tt
  check_components (some s) none = check_submariner_pods s >> check_pods_status operator_namespace
  check_components none (some d) = check_discovery_pods >> check_pods_status operator_namespace
  check_components (some s) (some d) =
      check_submariner_pods s >> check_discovery_pods >> check_pods_status operator_namespace

  unfoldable pub check_pods : ClusterInfo → Run (Unit {0})
  check_pods info =
      tracked "failures while diagnosing pods"
        (check_components info.submariner_cr info.discovery_cr)
