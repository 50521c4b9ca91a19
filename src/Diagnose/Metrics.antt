-- ===== src/Diagnose/Metrics.antt =====
-- pkg/diagnose/deployment_metrics.go: a pod on another node asks for the metrics. HasSingleNode keeps the
-- number of nodes in the info of the cluster, which is passed on.
use subctl.Base.{String, String_eq, ◌==◌, Bool, false, [], ◌∷◌, Option, none, some, if◌then◌else◌}
use subctl.Base.Effect.{
  Error, Run, new_error, emit, pure, lift, ◌>>=◌, on_error, or_report, report_error, deferring_end,
  started, succeeded, aggregate,
}
use subctl.Cluster.Overrides.{RepositoryInfo}
use subctl.Cluster.Info.{ClusterInfo, SubmarinerCr, has_single_node}
use subctl.Contexts.Plan.{attempt}
use subctl.Diagnose.Deployments.{DeploymentsApi, check_overlapping_cidrs, check_pods}
use subctl.Diagnose.Firewall.{
  FirewallApi, Library, single_node_message, client_config, spawn_pod, deleting, await_output,
}

module _ (l : Library) (api : FirewallApi) where
  unfoldable pub check_response : String → String → Run (Unit {0})
  check_response component output =
      if l.contains_text output "200 OK"
      then pure tt
      else report_error "Unable to access %s metrics service in submariner-operator namespace"
          (component ∷ []) (new_error "Unexpected output %v")

  unfoldable pub ask_metrics : String → String → String → RepositoryInfo → Run (Unit {0})
  ask_metrics ns component command repo =
      let c = client_config false ns command repo in
      or_report "Error spawning the client pod on non-Gateway node" [] (spawn_pod api.pods c)
      >>= λ client. deleting api.pods c client (
          or_report "Error waiting for the client pod to finish its execution" []
            (await_output api.pods c client)
          >>= λ output. check_response component output)

  unfoldable pub check_nodes_metrics : String → String → String → Bool → Run (Unit {0})
  check_nodes_metrics ns component command single =
      if single
      then emit (succeeded single_node_message [])
      else or_report "Error determining repository information" [] (lift api.repository) >>= λ repo.
          ask_metrics ns component command repo

  -- The error, if any, and the info as it is left.
  unfoldable pub check_component_metrics :
      String → String → String → ClusterInfo → Run (Option Error × ClusterInfo)
  check_component_metrics ns component command info =
      emit
        (started "Checking that %s metrics are accessible from non-gateway nodes" (component ∷ []))
      >>= λ _. deferring_end (
          on_error
            (or_report "Error determining whether the cluster has a single node" []
              (has_single_node info))
            (λ found.
              attempt (check_nodes_metrics ns component command found.0) >>= λ e. pure (e, found.1))
            (λ e. pure (some e, info)))

  unfoldable pub check_globalnet_metrics :
      SubmarinerCr → ClusterInfo → Run (Option Error × ClusterInfo)
  check_globalnet_metrics s info =
      if s.spec.global_cidr == ""
      then pure (none, info)
      else check_component_metrics s.submariner_namespace "globalnet"
          "curl -I -m 10 --retry 6 submariner-globalnet-metrics.submariner-operator.svc.cluster.local:8081/metrics"
          info

  unfoldable pub check_metrics_config : SubmarinerCr → ClusterInfo → Run (Unit {0})
  check_metrics_config s info =
      check_component_metrics s.submariner_namespace "gateway"
        "curl -I -m 10 --retry 6 submariner-gateway-metrics.submariner-operator.svc.cluster.local:8080/metrics"
        info
      >>= λ first.
          check_globalnet_metrics s first.1 >>= λ second. aggregate (first.0 ∷ (second.0 ∷ []))

  -- Deployments, of a cluster with Submariner or without.
  unfoldable pub deployments : DeploymentsApi → ClusterInfo → Run (Unit {0})
  deployments d info = elim info.submariner_cr [
    | none ↦ check_pods d info
    | some s ↦
        check_overlapping_cidrs d s >>= λ _. check_pods d info >>= λ _. check_metrics_config s info
  ]
