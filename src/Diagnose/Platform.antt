-- ===== src/Diagnose/Platform.antt =====
-- pkg/diagnose/k8s_version.go and pkg/diagnose/kubeproxy.go.
use subctl.Base.{String, Text, Text_eq, Bool, true, [], if◌then◌else◌}
use subctl.Base.Effect.{
  Result, Log, Run, emit, lift, ◌>>=◌, ◌>>◌, or_report, deferring_end, for_each, started, succeeded,
}
use subctl.Cluster.Overrides.{RepositoryInfo}
use subctl.Cluster.Info.{SubmarinerCr}
use subctl.Join.Version.{ℤ, check_version}
use subctl.Pods.{PodApi, Config, gateway_node, schedule_and_await_completion}
use subctl.Diagnose.{tracked, failure}

module _ (atoi : Text → Result ℤ) (server : Log → Result (Text × Text)) where
  -- With whether the cluster has service discovery.
  unfoldable pub k8s_version : Bool → Run (Unit {0})
  k8s_version discovery =
      emit (started "Checking Submariner support for the Kubernetes version" []) >>= λ _.
      deferring_end (
        or_report "Error checking the version requirements" [] (check_version atoi server discovery)
        >>= λ failed_requirements.
            tracked "failures while diagnosing the Kubernetes version"
              (for_each (λ requirement. failure requirement []) failed_requirements)
            >> emit (succeeded "Kubernetes version %q is supported" []))

-- strings.EqualFold with "OVNKubernetes", strings.Contains with either message of a missing interface,
-- and GetImageRepositoryInfo of the overrides given.
pub record KubeProxyApi : Type 0 where
  pub is_ovn_kubernetes : Text → Bool
  pub has_missing_interface : String → Bool
  pub repository : Result RepositoryInfo
  pub pods : PodApi

module _ (api : KubeProxyApi) where
  abbrev pub query_config : String → RepositoryInfo → Config
  query_config ns repo = record {
    name = "query-iface-list";
    scheduling = record { schedule_on = gateway_node; node_name = ""; host_networking = true };
    config_namespace = ns;
    command = "ip a s kube-ipvs0";
    image_repository_info = repo;
  }

  unfoldable pub judge_output : String → Run (Unit {0})
  judge_output output =
      if api.has_missing_interface output
      then emit (succeeded "The kube-proxy mode is supported" [])
      else failure
          "The cluster is deployed with kube-proxy ipvs mode which Submariner does not support" []

  unfoldable pub kube_proxy_mode : SubmarinerCr → String → Run (Unit {0})
  kube_proxy_mode s ns =
      emit (started "Checking Submariner support for the kube-proxy mode" []) >>= λ _.
      deferring_end (
        if api.is_ovn_kubernetes s.network_plugin
        then emit (
            succeeded
              "Cluster is running with %q CNI which internally implements kube-proxy functionality"
              [])
        else or_report "Error determining repository information" [] (lift api.repository)
          >>= λ repo.
              or_report "Error spawning the network pod" []
                (schedule_and_await_completion api.pods (query_config ns repo))
              >>= λ output. judge_output output)
