-- ===== src/Pods.antt =====
-- internal/pods/schedule.go: a pod is created to run a command on some node, awaited and deleted.
-- The polling is the shipyard framework's AwaitResultOrError, a parameter.
pub mod Deleted
pub mod Completed
pub mod Tests
use subctl.Base.{
  String, String_eq, Text, ◌==◌, Bool, true, false, ◌||◌, List, [], ◌∷◌, ◌++◌, Option, none, some,
  if◌then◌else◌,
}
use subctl.Base.Dict.{Dict, lookup}
use subctl.Base.Effect.{
  Error, Result, ok, err, Log, Run, new_error, ask, emit, pure, fail, lift, ◌>>=◌, ◌>>◌, on_error,
  or_wrap, is_interrupted, deferring, warned, call, get, create, delete, pod, namespace,
}
use subctl.Cluster.Overrides.{RepositoryInfo}
use subctl.Operator.{operator_namespace}

pub data Phase : Type 0 where
  pending running succeeded failed unknown : Phase

pub data SchedulingType : Type 0 where
  invalid_scheduling gateway_node non_gateway_node custom_node : SchedulingType

pub record Scheduling : Type 0 where
  pub schedule_on : SchedulingType
  pub node_name : String
  pub host_networking : Bool

pub record Config : Type 0 where
  pub name : String
  pub scheduling : Scheduling
  pub config_namespace : String
  pub command : String
  pub image_repository_info : RepositoryInfo

-- `message` is that of the first container's termination.
pub record Pod : Type 0 where
  pub pod_name : String
  pub phase : Phase
  pub message : String

pub data Operator : Type 0 where
  op_in op_not_in op_does_not_exist : Operator

pub record NodeSelectorTerm : Type 0 where
  pub key : String
  pub operator : Operator
  pub values : List String

pub record PodSpec : Type 0 where
  pub generate_name : String
  pub app : String
  pub image : Text
  pub env_command : String
  pub host_network : Bool
  pub privileged : Bool
  pub spec_node_name : String
  pub affinity : Option (List NodeSelectorTerm)

-- What the check of an awaited result says: it is there, it is not and why, or it cannot come.
pub data Check : Type 0 where
  done : Check
  not_yet : String → Check
  hopeless : Error → Check

pub record PodApi : Type 0 where
  pub nettest_image : RepositoryInfo → Text
  pub namespace_labels : String → Log → Result (Dict String String)
  pub create_pod : PodSpec → String → Log → Result Pod
  pub delete_pod : String → String → Log → Result (Unit {0})
  -- AwaitResultOrError with the read of a pod, by namespace and name, as its operation.
  pub await_pod : (Pod → Check) → String → String → Log → Result Pod

abbrev pub gateway_label : String
gateway_label = "submariner.io/gateway"

unfoldable pub node_selector_terms : SchedulingType → List NodeSelectorTerm
node_selector_terms gateway_node =
    record { key = gateway_label; operator = op_in; values = "true" ∷ [] } ∷ []
node_selector_terms non_gateway_node =
    record { key = gateway_label; operator = op_does_not_exist; values = [] }
    ∷ record { key = gateway_label; operator = op_not_in; values = "true" ∷ [] }
    ∷ []
node_selector_terms invalid_scheduling = []
node_selector_terms custom_node = []

abbrev pub or_gateway : SchedulingType → SchedulingType
or_gateway invalid_scheduling = gateway_node
or_gateway s = s

-- The defaults that ScheduleAndAwaitCompletion and Schedule put into the configuration.
unfoldable pub with_defaults : Config → Config
with_defaults c = record c {
  scheduling = record c.scheduling { schedule_on = or_gateway c.scheduling.schedule_on };
  config_namespace = if c.config_namespace == "" then operator_namespace else c.config_namespace;
}

abbrev pub is_custom : SchedulingType → Bool
is_custom custom_node = true
is_custom _ = false

abbrev pub lacks_node : Scheduling → Bool
lacks_node s = if is_custom s.schedule_on then s.node_name == "" else false

abbrev pub scheduled_phase : Phase → Check
scheduled_phase running = done
scheduled_phase succeeded = done
scheduled_phase pending = not_yet "Pod %q is still pending"
scheduled_phase failed = hopeless (new_error "expected pod phase")
scheduled_phase unknown = hopeless (new_error "expected pod phase")

unfoldable pub check_scheduled : Pod → Check
check_scheduled p = scheduled_phase p.phase

unfoldable pub is_finished : Phase → Bool
is_finished succeeded = true
is_finished failed = true
is_finished pending = false
is_finished running = false
is_finished unknown = false

unfoldable pub check_finished : Pod → Check
check_finished p = if is_finished p.phase then done else not_yet "Pod status is %v"

-- The three labels, in any order: one that fits is enough.
abbrev pub expected_labels : List String
expected_labels =
    "pod-security.kubernetes.io/enforce" ∷ "pod-security.kubernetes.io/audit"
    ∷ "pod-security.kubernetes.io/warn" ∷ []

abbrev pub is_privileged : Option String → Bool
is_privileged none = false
is_privileged (some v) = v == "privileged"

unfoldable pub found_one : List String → Dict String String → Bool
found_one [] labels = false
found_one (k ∷ ks) labels = is_privileged (lookup k labels) || found_one ks labels

module _ (api : PodApi) where
  unfoldable pub pod_spec : Config → PodSpec
  pod_spec c = record {
    generate_name = c.name;
    app = c.name;
    image = api.nettest_image c.image_repository_info;
    env_command = c.command;
    host_network = c.scheduling.host_networking;
    privileged = c.scheduling.host_networking;
    spec_node_name = if is_custom c.scheduling.schedule_on then c.scheduling.node_name else "";
    affinity =
        if is_custom c.scheduling.schedule_on
        then none
        else some (node_selector_terms c.scheduling.schedule_on);
  }

  unfoldable pub check_ns_labels : Config → Run (Unit {0})
  check_ns_labels c =
      if c.config_namespace == operator_namespace
      then pure tt
      else or_wrap "error fetching %s namespace"
          (ask (call get namespace "" c.config_namespace) (api.namespace_labels c.config_namespace))
        >>= λ labels.
            if found_one expected_labels labels
            then pure tt
            else emit (warned "Starting with Kubernetes 1.23" (c.config_namespace ∷ []))

  -- Delete passes over the error.
  unfoldable pub delete_scheduled : Config → Pod → Run (Unit {0})
  delete_scheduled c p =
      on_error
        (ask (call delete pod c.config_namespace p.pod_name)
          (api.delete_pod c.config_namespace p.pod_name))
        (λ _. pure tt) (λ _. pure tt)

  unfoldable pub await_until_scheduled : Config → Pod → Run Pod
  await_until_scheduled c p =
      on_error
        (ask (call get pod c.config_namespace p.pod_name)
          (api.await_pod check_scheduled c.config_namespace p.pod_name))
        pure (λ e. if is_interrupted e then fail (new_error "Pod is still pending") else fail e)

  -- The pod that was created and then awaited. It is deleted again if it is not scheduled.
  unfoldable pub schedule_pod : Config → Run Pod
  schedule_pod c =
      if lacks_node c.scheduling
      then fail (new_error "CustomNode is specified for scheduling, but nodeName is missing")
      else or_wrap "error creating Pod" (
          ask (call create pod c.config_namespace c.name)
            (api.create_pod (pod_spec c) c.config_namespace))
        >>= λ p. on_error (await_until_scheduled c p) pure (λ e. delete_scheduled c p >> fail e)

  -- The output. The pod is read under the same name in each round.
  unfoldable pub await_completion : Config → Pod → Run String
  await_completion c p =
      or_wrap "Pod status is %v" (
        ask (call get pod c.config_namespace p.pod_name)
          (api.await_pod check_finished c.config_namespace p.pod_name))
      >>= λ found. pure (if is_finished found.phase then found.message else "")

  unfoldable pub schedule : Config → Run Pod
  schedule given = do check_ns_labels (with_defaults given); schedule_pod (with_defaults given)

  unfoldable pub schedule_and_await_completion : Config → Run String
  schedule_and_await_completion given = do
    check_ns_labels (with_defaults given)
    p ← schedule_pod (with_defaults given)
    deferring (delete_scheduled (with_defaults given) p) (await_completion (with_defaults given) p)
