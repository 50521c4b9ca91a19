-- ===== src/Diagnose/Honest/Walls.antt =====
-- The firewall checks of pkg/diagnose: their errors and their failures.
use subctl.Base.{
  ℕ, ◌+◌, ◌<◌, ◌≤◌, String, String_eq, ◌==◌, ◌≡◌, refl, Bool, true, false, List, [], ◌∷◌, Option,
  none, some, if◌then◌else◌, arith,
}
use subctl.Base.Effect.{
  Result, ok, err, Event, Log, Run, emit, pure, fail, ◌>>=◌, ◌>>◌, case_from, on_error, or_report,
  report_error, deferring, after_from,
}
use subctl.Base.Keep.{Keeps, keeping, Keeps-lift, Keeps-pure, Keeps-emit}
use subctl.Base.Dict.{Dict}
use subctl.Cluster.Overrides.{RepositoryInfo}
use subctl.Cluster.Info.{ClusterInfo, Gateway, Connection, Endpoint, get_gateways, listed}
use subctl.Pods.{PodApi, Pod, Config, with_defaults}
use subctl.Diagnose.{is_failure, failures, failure}
use subctl.Diagnose.Tally.{
  errors, AtLeast, AtLeast-Adds, Exactly, Exactly-Adds, Quiet, Judged, IsHonest, IsHonest-pure,
  IsHonest-report_error, IsHonest-if, IsHonest-deferring_end, IsHonest-or_report, IsHonest-bind,
  IsHonest-emit,
}
use subctl.Diagnose.Firewall.{
  TargetPort, FirewallOptions, FirewallApi, Library, spawn_pod, deleting, await_pod_completion,
  find_connection, ip_of, gateway_ip_of, get_gateway_ip, first_node, get_active_gateway_node_name,
  or_no_port, get_lb_node_port, get_port_filter, validate_output,
}
use subctl.Diagnose.Firewall.Checks.{
  Side, show_output, exchange, sniff, check_nodes, verify_connectivity, config_across_clusters,
}
use subctl.Diagnose.Honest.Probes.{
  delete_scheduled-Keeps, spawn_pod-Keeps, await_output-Keeps, has_single_node-Keeps,
  get_local_endpoint-Keeps,
}

-- Of a run that keeps whatever all events but failures keep.
pub quiet :
    {A : Type 0} (m : Run A)
    → ((Q : Log → Type 0)
        → ((e : Event) → is_failure e ≡ false → subctl.Base.Keep.Adds Q e)
        → Keeps Q m)
    → Quiet m
quiet m h = record { kept = λ a b. h (Exactly a b) (Exactly-Adds a b) }

pub IsHonest-deleting :
    {A : Type 0} (p : PodApi) (c : Config) (q : Pod) (m : Run A)
    → IsHonest m
    → IsHonest (deleting p c q m)
unfolding deleting deferring
IsHonest-deleting {A} p c q m h = record {
  run = λ a b log s. by_result a b (m log) (h.run a b log s);
}
  where
    by_result :
        (a b : ℕ) (r : Result A × Log)
        → Judged a b r
        → Judged a b (after_from (subctl.Pods.delete_scheduled p (with_defaults c) q) r)
    by_result a b (ok x, log) j =
        (delete_scheduled-Keeps (Exactly a b) (Exactly-Adds a b) p (with_defaults c) q).run log j
    by_result a b (err e, log) j =
        let more =
          (delete_scheduled-Keeps (AtLeast (failures log) (errors log))
              (λ x same. AtLeast-Adds (failures log) (errors log) x) p (with_defaults c) q).run
            log (omega arith, omega arith) in
        (
          (omega (arith, j.0.0, more.0), omega (arith, j.0.1, more.1)),
          omega (arith, j.1, more.0, more.1),
        )

-- A failure that goes with an error.
IsHonest-refused :
    {A : Type 0} (m : Run A) (k : A → Run (Unit {0})) (format : String) (args : List String)
    → IsHonest m
    → ((x : A) → IsHonest (k x))
    → IsHonest (on_error m k (λ e. failure format args >> fail e))
unfolding on_error emit fail ◌>>=◌ failures errors
IsHonest-refused {A} m k format args h h' = record {
  run = λ a b log s. by_result a b (m log) (h.run a b log s);
}
  where
    by_result :
        (a b : ℕ) (r : Result A × Log)
        → Judged a b r
        → Judged a b (case_from r k (λ e. failure format args >> fail e))
    by_result a b (ok x, log) j = (h' x).run a b log j
    by_result a b (err e, log) j =
        ((omega (arith, j.0.0), omega (arith, j.0.1)), omega (arith, j.1))

-- An error that is reported once more.
IsHonest-reported_again :
    {A : Type 0} (s : String) (args : List String) (m : Run A)
    → IsHonest m
    → IsHonest (or_report s args m)
unfolding or_report on_error report_error emit fail pure ◌>>=◌ failures errors
IsHonest-reported_again {A} s args m h = record {
  run = λ a b log k. by_result a b (m log) (h.run a b log k);
}
  where
    by_result :
        (a b : ℕ) (r : Result A × Log)
        → Judged a b r
        → Judged a b (case_from r (λ x. pure x) (λ e. report_error s args e))
    by_result a b (ok x, log) j = j
    by_result a b (err e, log) j =
        ((omega (arith, j.0.0), omega (arith, j.0.1)), omega (arith, j.1))

ip_of-IsHonest : (o : Option Connection) → IsHonest (ip_of o)
ip_of-IsHonest (some c) = IsHonest-pure _
ip_of-IsHonest none = IsHonest-report_error _ _ _

gateway_ip_of-IsHonest : (id : String) (gs : List Gateway) → IsHonest (gateway_ip_of id gs)
gateway_ip_of-IsHonest id [] = IsHonest-report_error _ _ _
gateway_ip_of-IsHonest id (g ∷ gs) = ip_of-IsHonest (find_connection id (g ∷ gs))

get_gateway_ip-IsHonest : (i : ClusterInfo) (id : String) → IsHonest (get_gateway_ip i id)
unfolding get_gateway_ip get_gateways listed
get_gateway_ip-IsHonest i id =
    IsHonest-bind _ _
      (IsHonest-or_report _ _ _
        (record { kept = λ a b. search (keeping, Exactly-Adds a b) depth 20 }))
      (gateway_ip_of-IsHonest id)

first_node-IsHonest : (ps : List (Dict String String)) → IsHonest (first_node ps)
first_node-IsHonest [] = IsHonest-report_error _ _ _
first_node-IsHonest (p ∷ ps) = IsHonest-pure _

node_name-IsHonest :
    (f : FirewallApi) (i : ClusterInfo) → IsHonest (get_active_gateway_node_name f i)
unfolding get_active_gateway_node_name
node_name-IsHonest f i =
    IsHonest-bind _ _
      (IsHonest-or_report _ _ _
        (record { kept = λ a b. search (keeping, Exactly-Adds a b) depth 20 }))
      first_node-IsHonest

await_pod_completion-IsHonest :
    (p r : PodApi) (c d : Config) (q s : Pod) → IsHonest (await_pod_completion p c q r d s)
unfolding await_pod_completion
await_pod_completion-IsHonest p r c d q s =
    IsHonest-bind _ _
      (IsHonest-or_report _ _ _ (quiet _ (λ Q adds. await_output-Keeps Q adds p c q)))
      (λ _. IsHonest-or_report _ _ _ (quiet _ (λ Q adds. await_output-Keeps Q adds r d s)))

module _ (l : Library) (o : FirewallOptions) where
  port_filter-IsHonest :
      (f : FirewallApi) (ns : String) (port : ℕ) (e : Endpoint) (t : TargetPort)
      → IsHonest (get_port_filter l f ns port e t)
  unfolding get_port_filter get_lb_node_port
  port_filter-IsHonest f ns port e t =
      IsHonest-bind _ _
        (IsHonest-or_report _ _ _
          (record { kept = λ a b. search (keeping, Exactly-Adds a b, no_port a b) depth 20 }))
        (λ _. IsHonest-pure _)
    where
      no_port : (a b : ℕ) (p : Option ℕ) → Keeps (Exactly a b) (or_no_port p)
      no_port a b (some p) = Keeps-pure _ _
      no_port a b none = search (keeping) depth 20

  show_output-IsHonest : (s out : String) → IsHonest (show_output l o s out)
  show_output-IsHonest s out = IsHonest-if _ _ _ (IsHonest-emit _ refl) (IsHonest-pure _)

  validate_output-IsHonest : (out message : String) → IsHonest (validate_output l out message)
  unfolding validate_output
  validate_output-IsHonest out message =
      IsHonest-if _ _ _ (IsHonest-pure _) (IsHonest-report_error _ _ _)

  spawned :
      (s : String) (args : List String) (p : PodApi) (c : Config)
      → IsHonest (or_report s args (spawn_pod p c))
  spawned s args p c =
      IsHonest-or_report s args (spawn_pod p c) (quiet _ (λ Q adds. spawn_pod-Keeps Q adds p c))

  exchange-IsHonest :
      (x y : Side) (ns : String) (repo : RepositoryInfo) (port : ℕ) (d : Config) (s : Pod)
      → IsHonest (exchange l o x y ns repo port d s)
  unfolding exchange
  exchange-IsHonest x y ns repo port d s =
      IsHonest-bind _ _
        (IsHonest-reported_again _ _ _
          (get_gateway_ip-IsHonest y.info x.submariner.status_cluster_id))
        λ ip. IsHonest-bind _ _ (spawned _ _ y.api.pods _) λ client.
          IsHonest-deleting y.api.pods _ client _ (
            IsHonest-bind _ _ (await_pod_completion-IsHonest y.api.pods x.api.pods _ d client s)
              λ out.
                IsHonest-bind _ _ (show_output-IsHonest _ out)
                  λ _. validate_output-IsHonest out l.new_uuid)

  sniff-IsHonest :
      (x y : Side) (ns : String) (e : Endpoint) (node : String) (t : TargetPort)
      → IsHonest (sniff l o x y ns e node t)
  unfolding sniff
  sniff-IsHonest x y ns e node t =
      IsHonest-bind _ _ (IsHonest-or_report _ _ _ (record { kept = λ a b. Keeps-lift _ _ })) λ port.
        IsHonest-bind _ _ (port_filter-IsHonest x.api ns port e t) λ filter.
          IsHonest-bind _ _ (IsHonest-or_report _ _ _ (record { kept = λ a b. Keeps-lift _ _ }))
            λ repo.
              IsHonest-bind _ _ (spawned _ _ x.api.pods _)
                λ s. IsHonest-deleting x.api.pods _ s _ (exchange-IsHonest x y ns repo port _ s)

  check_nodes-IsHonest :
      (x y : Side) (ns : String) (t : TargetPort) → IsHonest (check_nodes l o x y ns t)
  unfolding check_nodes
  check_nodes-IsHonest x y ns t =
      IsHonest-bind _ _
        (IsHonest-or_report _ _ _
          (quiet _ (λ Q adds. get_local_endpoint-Keeps Q adds x.info.api _)))
        λ e.
          IsHonest-bind _ _ (node_name-IsHonest x.api x.info) λ node. sniff-IsHonest x y ns e node t

  verify_connectivity-IsHonest :
      (x y : Side) (ns : String) (t : TargetPort) (message : String)
      → IsHonest (verify_connectivity l o x y ns t message)
  unfolding verify_connectivity
  verify_connectivity-IsHonest x y ns t message = IsHonest-bind _ _ (IsHonest-emit _ refl) λ _.
      IsHonest-deferring_end _ (
        IsHonest-bind _ _
          (IsHonest-or_report _ _ _ (quiet _ (λ Q adds. has_single_node-Keeps Q adds y.info)))
          λ single. IsHonest-if _ _ _ (IsHonest-emit _ refl) (check_nodes-IsHonest x y ns t))

  pub across-IsHonest :
      (t : TargetPort) (message refused accepted : String) (x y : Side) (ns : String)
      → IsHonest (config_across_clusters l o t message refused accepted x y ns)
  unfolding config_across_clusters
  across-IsHonest t message refused accepted x y ns =
      IsHonest-refused _ _ _ _ (verify_connectivity-IsHonest x y ns t message)
        (λ _. IsHonest-emit _ refl)
