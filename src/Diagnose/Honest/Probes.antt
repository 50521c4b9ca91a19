-- ===== src/Diagnose/Honest/Probes.antt =====
-- The pods that the firewall checks start report no failure, and are deleted without one.
use subctl.Base.{ℕ, String, String_eq, ◌≡◌, refl, false, List, [], ◌∷◌, Option, none, some}
use subctl.Base.Effect.{Result, Event, Log, Run, deferring, after_from}
use subctl.Base.Keep.{Keeps, keeping, Adds, Keeps-pure, Keeps-report_error}
use subctl.Base.Dict.{Dict}
use subctl.Cluster.Info.{
  ClusterInfo, InfoApi, Endpoint, has_single_node, count_nodes, get_local_endpoint,
  get_any_remote_endpoint, or_missing,
}
use subctl.Pods.{
  PodApi, Pod, Config, check_ns_labels, delete_scheduled, await_until_scheduled, schedule_pod,
  await_completion, schedule, schedule_and_await_completion,
}
use subctl.Diagnose.{is_failure}
use subctl.Diagnose.Firewall.{
  FirewallApi, spawn_pod, await_output, get_active_gateway_node_name, first_node,
}

-- For a property of logs that every event but a failure keeps.
module _ (Q : Log → Type 0) (adds : (e : Event) → is_failure e ≡ false → Adds Q e) where
  pub Keeps-deferring :
      {A : Type 0} (c : Run (Unit {0})) (m : Run A)
      → Keeps Q c
      → Keeps Q m
      → Keeps Q (deferring c m)
  unfolding deferring
  Keeps-deferring {A} c m h k = record { run = λ log q. by_result (m log) (k.run log q) }
    where
      by_result : (r : Result A × Log) → Q r.1 → Q (after_from c r).1
      by_result (r, log) q = h.run log q

  check_ns_labels-Keeps : (p : PodApi) (c : Config) → Keeps Q (check_ns_labels p c)
  unfolding check_ns_labels
  check_ns_labels-Keeps p c = search (keeping, adds) depth 20

  pub delete_scheduled-Keeps :
      (p : PodApi) (c : Config) (q : Pod) → Keeps Q (delete_scheduled p c q)
  unfolding delete_scheduled
  delete_scheduled-Keeps p c q = search (keeping, adds) depth 20

  await_until_scheduled-Keeps :
      (p : PodApi) (c : Config) (q : Pod) → Keeps Q (await_until_scheduled p c q)
  unfolding await_until_scheduled
  await_until_scheduled-Keeps p c q = search (keeping, adds) depth 20

  schedule_pod-Keeps : (p : PodApi) (c : Config) → Keeps Q (schedule_pod p c)
  unfolding schedule_pod
  schedule_pod-Keeps p c =
      search (keeping, adds, await_until_scheduled-Keeps, delete_scheduled-Keeps) depth 20

  pub spawn_pod-Keeps : (p : PodApi) (c : Config) → Keeps Q (spawn_pod p c)
  unfolding spawn_pod schedule
  spawn_pod-Keeps p c = search (keeping, check_ns_labels-Keeps, schedule_pod-Keeps) depth 20

  await_completion-Keeps : (p : PodApi) (c : Config) (q : Pod) → Keeps Q (await_completion p c q)
  unfolding await_completion
  await_completion-Keeps p c q = search (keeping, adds) depth 20

  pub schedule_and_await_completion-Keeps :
      (p : PodApi) (c : Config) → Keeps Q (schedule_and_await_completion p c)
  unfolding schedule_and_await_completion
  schedule_and_await_completion-Keeps p c =
      search
        (
          keeping, check_ns_labels-Keeps, schedule_pod-Keeps, Keeps-deferring,
          delete_scheduled-Keeps, await_completion-Keeps,
        )
        depth 20

  pub await_output-Keeps : (p : PodApi) (c : Config) (q : Pod) → Keeps Q (await_output p c q)
  unfolding await_output await_completion
  await_output-Keeps p c q = search (keeping, adds) depth 20

  pub has_single_node-Keeps : (c : ClusterInfo) → Keeps Q (has_single_node c)
  unfolding has_single_node count_nodes
  has_single_node-Keeps c = by_count c.node_count
    where
      by_count : (o : Option ℕ) → Keeps Q (count_nodes c o)
      by_count (some n) = Keeps-pure _ _
      by_count none = search (keeping, adds) depth 20

  or_missing-Keeps : (what : String) (o : Option Endpoint) → Keeps Q (or_missing what o)
  or_missing-Keeps what none = search (keeping) depth 20
  or_missing-Keeps what (some e) = Keeps-pure _ _

  pub get_local_endpoint-Keeps : (i : InfoApi) (id : String) → Keeps Q (get_local_endpoint i id)
  unfolding get_local_endpoint
  get_local_endpoint-Keeps i id = search (keeping, adds, or_missing-Keeps) depth 20

  pub get_any_remote_endpoint-Keeps :
      (i : InfoApi) (id : String) → Keeps Q (get_any_remote_endpoint i id)
  unfolding get_any_remote_endpoint
  get_any_remote_endpoint-Keeps i id = search (keeping, adds, or_missing-Keeps) depth 20

  first_node-Keeps : (ps : List (Dict String String)) → Keeps Q (first_node ps)
  first_node-Keeps [] = Keeps-report_error _ _ _ _ _ (adds _ refl)
  first_node-Keeps (p ∷ ps) = Keeps-pure _ _

  pub get_active_gateway_node_name-Keeps :
      (f : FirewallApi) (i : ClusterInfo) → Keeps Q (get_active_gateway_node_name f i)
  unfolding get_active_gateway_node_name
  get_active_gateway_node_name-Keeps f i = search (keeping, adds, first_node-Keeps) depth 20
