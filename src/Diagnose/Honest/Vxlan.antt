-- ===== src/Diagnose/Honest/Vxlan.antt =====
-- The check of intra-cluster VXLAN traffic of pkg/diagnose/firewall_vxlan.go.
use subctl.Base.{
  ℕ, ◌+◌, ◌<◌, ◌≤◌, String, String_eq, ◌==◌, ◌≡◌, refl, Bool, true, false, List, [], ◌∷◌, Option,
  none, some, if◌then◌else◌, arith,
}
use subctl.Base.Effect.{Event, Run}
use subctl.Base.Keep.{Keeps, keeping, Keeps-lift, Keeps-pure, Keeps-emit}
use subctl.Cluster.Overrides.{RepositoryInfo}
use subctl.Cluster.Info.{ClusterInfo, Gateway, Connection, Endpoint, get_gateways, listed}
use subctl.Pods.{PodApi, Pod, Config}
use subctl.Diagnose.Tally.{
  AtLeast, AtLeast-Adds, IsHonest, IsHonest-if, IsHonest-deferring_end, IsHonest-or_report,
  IsHonest-bind, IsHonest-emit, IsHonest-tracked,
}
use subctl.Diagnose.Firewall.{
  FirewallOptions, FirewallApi, Library, spawn_pod, deleting, await_output,
  get_active_gateway_node_name,
}
use subctl.Diagnose.Firewall.Checks.{
  Side, judge_capture, capture, spawn_sniffer, check_fw_config, firewall_intra_vxlan_config,
}
use subctl.Diagnose.Honest.Probes.{
  Keeps-deferring, delete_scheduled-Keeps, spawn_pod-Keeps, await_output-Keeps,
  has_single_node-Keeps, get_any_remote_endpoint-Keeps, get_active_gateway_node_name-Keeps,
}
use subctl.Diagnose.Honest.Walls.{quiet}

module _ (l : Library) (o : FirewallOptions) where
  module _ (a b : ℕ) where
    adds : (e : Event) → subctl.Base.Keep.Adds (AtLeast a b) e
    adds e = AtLeast-Adds a b e

    judge_capture-Keeps :
        (x : Side) (c : Pod) (ip out : String) → Keeps (AtLeast a b) (judge_capture l o x c ip out)
    unfolding judge_capture
    judge_capture-Keeps x c ip out = search (keeping, adds) depth 20

    deleting-Keeps :
        {A : Type 0} (p : PodApi) (c : Config) (q : Pod) (m : Run A)
        → Keeps (AtLeast a b) m
        → Keeps (AtLeast a b) (deleting p c q m)
    unfolding deleting
    deleting-Keeps p c q m h =
        Keeps-deferring (AtLeast a b) (λ e same. adds e) _ m
          (delete_scheduled-Keeps (AtLeast a b) (λ e same. adds e) p _ q) h

    spawn-Keeps : (p : PodApi) (c : Config) → Keeps (AtLeast a b) (spawn_pod p c)
    spawn-Keeps p c = spawn_pod-Keeps (AtLeast a b) (λ e same. adds e) p c

    await-Keeps : (p : PodApi) (c : Config) (q : Pod) → Keeps (AtLeast a b) (await_output p c q)
    await-Keeps p c q = await_output-Keeps (AtLeast a b) (λ e same. adds e) p c q

    capture-Keeps :
        (x : Side) (ns : String) (repo : RepositoryInfo) (ip : String) (d : Config) (s : Pod)
        → Keeps (AtLeast a b) (capture l o x ns repo ip d s)
    unfolding capture
    capture-Keeps x ns repo ip d s =
        search (keeping, adds, deleting-Keeps, spawn-Keeps, await-Keeps, judge_capture-Keeps) depth
          30

    spawn_sniffer-Keeps :
        (x : Side) (ns : String) (e : Endpoint) (node : String) (repo : RepositoryInfo)
        → Keeps (AtLeast a b) (spawn_sniffer l o x ns e node repo)
    unfolding spawn_sniffer
    spawn_sniffer-Keeps x ns e node repo =
        search (keeping, adds, deleting-Keeps, spawn-Keeps, capture-Keeps) depth 30

    endpoint-Keeps :
        (i : subctl.Cluster.Info.InfoApi) (id : String)
        → Keeps (AtLeast a b) (subctl.Cluster.Info.get_any_remote_endpoint i id)
    endpoint-Keeps i id = get_any_remote_endpoint-Keeps (AtLeast a b) (λ e same. adds e) i id

    node_name-Keeps :
        (f : FirewallApi) (i : ClusterInfo) → Keeps (AtLeast a b) (get_active_gateway_node_name f i)
    node_name-Keeps f i = get_active_gateway_node_name-Keeps (AtLeast a b) (λ e same. adds e) f i

    check_fw_config-Keeps :
        (x : Side) (ns : String) → Keeps (AtLeast a b) (check_fw_config l o x ns)
    unfolding check_fw_config
    check_fw_config-Keeps x ns =
        search (keeping, adds, endpoint-Keeps, node_name-Keeps, spawn_sniffer-Keeps) depth 30

  pub firewall_intra_vxlan_config-IsHonest :
      (x : Side) (ns : String) → IsHonest (firewall_intra_vxlan_config l o x ns)
  unfolding firewall_intra_vxlan_config
  firewall_intra_vxlan_config-IsHonest x ns = IsHonest-bind _ _ (IsHonest-emit _ refl) λ _.
      IsHonest-deferring_end _ (
        IsHonest-bind _ _
          (IsHonest-or_report _ _ _ (quiet _ (λ Q adds. has_single_node-Keeps Q adds x.info)))
          λ single.
            IsHonest-if _ _ _ (IsHonest-emit _ refl)
              (IsHonest-tracked _ _ (record { kept = λ a b. check_fw_config-Keeps a b x ns })))
