-- ===== src/Diagnose/Firewall/Checks.antt =====
-- The checks of pkg/diagnose/firewall.go and firewall_vxlan.go with their pods.
use subctl.Base.{ℕ, String, String_eq, true, false, List, [], ◌∷◌, if◌then◌else◌}
use subctl.Base.Effect.{
  Run, emit, pure, fail, lift, ◌>>=◌, ◌>>◌, on_error, or_report, deferring_end, started, succeeded,
}
use subctl.Cluster.Overrides.{RepositoryInfo}
use subctl.Cluster.Info.{
  Endpoint, ClusterInfo, SubmarinerCr, has_single_node, get_local_endpoint, get_any_remote_endpoint,
}
use subctl.Pods.{Pod, Config}
use subctl.Diagnose.{tracked, failure}
use subctl.Diagnose.Firewall.{
  TargetPort, tunnel_port, nat_discovery_port, FirewallOptions, FirewallApi, Library,
  single_node_message, client_config, sniffer_config, spawn_pod, deleting, await_output,
  await_pod_completion, get_gateway_ip, get_active_gateway_node_name, get_target_port,
  get_port_filter, validate_output,
}

-- A cluster with Submariner, as the commands require it.
pub record Side : Type 0 where
  pub info : ClusterInfo
  pub submariner : SubmarinerCr
  pub api : FirewallApi

-- The first subnet of an endpoint, without which the source panics.
abbrev pub first_subnet : List String → String
first_subnet [] = ""
first_subnet (s ∷ ss) = s

module _ (l : Library) (options : FirewallOptions) where
  abbrev pub show_output : String → String → Run (Unit {0})
  show_output format output =
      if options.verbose_output then emit (succeeded format (output ∷ [])) else pure tt

  -- The sniffer's command. It ends as soon as the message is seen, or at the timeout.
  abbrev pub sniff_command : String → String
  sniff_command filter =
      l.sprintf
        "(tcpdump --immediate-mode -ln -Q in -A -s 100 -i any udp and %s & pid=\"$!\"; (sleep %d; kill \"$pid\") &) | sed '/%s/q'"
        (filter ∷ (l.itoa options.validation_timeout ∷ (l.new_uuid ∷ [])))

  abbrev pub send_command : String → ℕ → String
  send_command ip port =
      l.sprintf
        "for x in $(seq 1000); do echo %s; done | for i in $(seq 5); do timeout 2 nc -n -p 9898 -u %s %d; done"
        (l.new_uuid ∷ (ip ∷ (l.itoa port ∷ [])))

  -- What happens between the two pods' start and their deletion.
  unfoldable pub exchange :
      Side → Side → String → RepositoryInfo → ℕ → Config → Pod → Run (Unit {0})
  exchange local remote ns repo dest_port d sniffer =
      or_report "Error retrieving the gateway IP of cluster %q" (local.info.cluster_name ∷ [])
        (get_gateway_ip remote.info local.submariner.status_cluster_id)
      >>= λ ip.
          let c = client_config true ns (send_command ip dest_port) repo in
          or_report "Error spawning the client pod on non-Gateway node of cluster %q"
            (remote.info.cluster_name ∷ []) (spawn_pod remote.api.pods c)
          >>= λ client. deleting remote.api.pods c client (
              await_pod_completion remote.api.pods c client local.api.pods d sniffer >>= λ output.
              show_output "tcpdump output from sniffer pod on Gateway node:\n%s" output >>= λ _.
              validate_output l output l.new_uuid)

  -- Once the node of the gateway is known.
  unfoldable pub sniff : Side → Side → String → Endpoint → String → TargetPort → Run (Unit {0})
  sniff local remote ns endpoint node target =
      or_report "Could not determine the target port" []
        (lift (get_target_port l local.submariner endpoint target))
      >>= λ dest_port. get_port_filter l local.api ns dest_port endpoint target >>= λ filter.
          or_report "Error determining repository information" [] (lift local.api.repository)
          >>= λ repo.
              let d = sniffer_config node ns (sniff_command filter) repo in
              or_report "Error spawning the sniffer pod on the Gateway node %q" (node ∷ [])
                (spawn_pod local.api.pods d)
              >>= λ sniffer.
                  deleting local.api.pods d sniffer
                    (exchange local remote ns repo dest_port d sniffer)

  unfoldable pub check_nodes : Side → Side → String → TargetPort → Run (Unit {0})
  check_nodes local remote ns target =
      or_report "Unable to obtain the local endpoint" []
        (get_local_endpoint local.info.api local.submariner.spec.common.cluster_id)
      >>= λ endpoint. get_active_gateway_node_name local.api local.info >>= λ node.
          sniff local remote ns endpoint node target

  unfoldable pub verify_connectivity : Side → Side → String → TargetPort → String → Run (Unit {0})
  verify_connectivity local remote ns target message = emit (started message []) >>= λ _.
      deferring_end (
        or_report "" [] (has_single_node remote.info) >>= λ single.
        if single.0
        then emit (succeeded single_node_message [])
        else check_nodes local remote ns target)

  -- TunnelConfigAcrossClusters and NatDiscoveryConfigAcrossClusters, by their messages.
  unfoldable pub config_across_clusters :
      TargetPort → String → String → String → Side → Side → String → Run (Unit {0})
  config_across_clusters target message refused accepted local remote ns =
      on_error (verify_connectivity local remote ns target message)
        (λ _. emit (succeeded accepted (local.info.cluster_name ∷ [])))
        (λ e. failure refused (local.info.cluster_name ∷ []) >> fail e)

  unfoldable pub tunnel_config_across_clusters : Side → Side → String → Run (Unit {0})
  tunnel_config_across_clusters =
      config_across_clusters tunnel_port
        "Checking if tunnels can be setup on the gateway node of cluster %q"
        "Could not determine if Tunnels can be established on the gateway node of cluster %q"
        "Tunnels can be established on the gateway node of cluster %q"

  unfoldable pub nat_discovery_config_across_clusters : Side → Side → String → Run (Unit {0})
  nat_discovery_config_across_clusters =
      config_across_clusters nat_discovery_port
        "Checking if nat-discovery port is opened on the gateway node of cluster %q"
        "Could not determine if nat-discovery port is allowed in the cluster %q"
        "nat-discovery port is allowed in the cluster %q"

  -- The verdict on the sniffer's output.
  unfoldable pub judge_capture : Side → Pod → String → String → Run (Unit {0})
  judge_capture side client ip output =
      if l.contains_text output ip
      then (if l.contains_text output (side.api.pod_ip client)
          then pure tt
          else failure
              "The tcpdump output from the sniffer pod does not contain the client pod's IP."
              (l.truncate output ∷ []))
      else failure
          "The tcpdump output from the sniffer pod does not contain the expected remote endpoint IP %s."
          (ip ∷ (l.truncate output ∷ []))

  unfoldable pub capture : Side → String → RepositoryInfo → String → Config → Pod → Run (Unit {0})
  capture side ns repo ip d sniffer =
      let c =
        client_config false ns
          (l.sprintf "nc -w %d %s 8080" (l.itoa (l.halve options.validation_timeout) ∷ (ip ∷ [])))
          repo in
      on_error (spawn_pod side.api.pods c)
        (λ client. deleting side.api.pods c client (
          on_error (await_output side.api.pods c client)
            (λ _.
              on_error (await_output side.api.pods d sniffer)
                (λ output.
                  show_output "tcpdump output from the sniffer pod on Gateway node:\n%s" output
                  >>= λ _. judge_capture side client ip output)
                (λ e. failure "Error waiting for the sniffer pod to finish its execution: %v" []))
            (λ e. failure "Error waiting for the client pod to finish its execution: %v" [])))
        (λ e. failure "Error spawning the client pod on non-Gateway node: %v" [])

  unfoldable pub spawn_sniffer : Side → String → Endpoint → String → RepositoryInfo → Run (Unit {0})
  spawn_sniffer side ns endpoint node repo =
      let d =
        sniffer_config node ns
          (l.sprintf
            "timeout %d tcpdump -ln -c 3 -i vx-submariner tcp and port 8080 and 'tcp[tcpflags] == tcp-syn'"
            (l.itoa options.validation_timeout ∷ []))
          repo in
      on_error (spawn_pod side.api.pods d)
        (λ sniffer.
          deleting side.api.pods d sniffer
            (capture side ns repo (l.before_slash (first_subnet endpoint.subnets)) d sniffer))
        (λ e. failure "Error spawning the sniffer pod on the Gateway node: %v" [])

  unfoldable pub check_fw_config : Side → String → Run (Unit {0})
  check_fw_config side ns =
      if l.is_ovn_kubernetes side.submariner.network_plugin
      then pure tt
      else on_error (get_any_remote_endpoint side.info.api side.submariner.spec.common.cluster_id)
          (λ endpoint.
            on_error (get_active_gateway_node_name side.api side.info)
              (λ node.
                on_error (lift side.api.repository) (spawn_sniffer side ns endpoint node)
                  (λ e. failure "Error determining repository information: %v" []))
              (λ e. failure "Unable to obtain a gateway node: %v" []))
          (λ e. failure "Unable to obtain a remote endpoint: %v" [])

  unfoldable pub firewall_intra_vxlan_config : Side → String → Run (Unit {0})
  firewall_intra_vxlan_config side ns =
      emit (started "Checking that firewall configuration allows intra-cluster VXLAN traffic" [])
      >>= λ _. deferring_end (
          or_report "Error determining whether the cluster has a single node" []
            (has_single_node side.info)
          >>= λ single.
              if single.0
              then emit (succeeded single_node_message [])
              else tracked "failures while diagnosing the intra-VXLAN firewall configuration"
                  (check_fw_config side ns))
