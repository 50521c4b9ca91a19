-- ===== src/Uninstall.antt =====
-- pkg/uninstall/all.go, with GetPodLabelSelector of pkg/operator/deployment/ensure.go.
-- Each function is named after the source's. The API server is the record `Api`: what a call answers
-- depends on the log of all calls made before it, and on nothing else that is assumed.
pub mod Failures
pub mod Gone
pub mod Allowed
pub mod Spares
pub mod Shared
pub mod Complete
pub mod Tests
use subctl.Base.{
  ℕ, zero, suc, String, Bool, true, false, ◌&&◌, ◌||◌, not, List, [], ◌∷◌, ◌==◌, String_eq,
  if◌then◌else◌, codes, has_prefix, has_suffix,
}
use subctl.Base.Effect.{
  Error, Result, Event, Resource, interrupted, Run, Log, new_error, pure, fail, ◌>>=◌, ◌>>◌, ask,
  emit, on_error, or_wrap, or_report, report_error, ignore_not_found, is_not_found, is_interrupted,
  deferring_end, for_each, started, succeeded, warned, ended, call, get, list, delete, update,
  submariner, service_discovery, broker, endpoint, node, namespace, crd, cluster_role,
  cluster_role_binding, pod, deployment, finalizer,
}

-- The custom resources that ensureDeleted is called for.
pub data CustomResource : Type 0 where
  submariner_cr service_discovery_cr : CustomResource

abbrev pub resource_of : CustomResource → Resource
resource_of submariner_cr = submariner
resource_of service_discovery_cr = service_discovery

pub record Object : Type 0 where
  pub kind : CustomResource
  pub object_namespace : String
  pub name : String

abbrev pub object : CustomResource → String → String → Object
object kind ns name = record { kind = kind; object_namespace = ns; name = name }

pub record ClusterRoleBinding : Type 0 where
  pub binding_name : String
  pub role_ref : String

abbrev pub Labels : Type 0
Labels = List (String × String)

-- The answers of the API server, and the names that other modules define.
pub record Api : Type 0 where
  pub operator_component : String
  pub submariner_cr_name : String
  pub service_discovery_cr_name : String
  pub gateway_label : String
  -- How often the library runs a polled condition before its timeout.
  pub rounds : ℕ
  -- The namespace and the name of the resource that was found.
  pub get_object : CustomResource → String → String → Log → Result (String × String)
  pub delete_object : Object → Log → Result (Unit {0})
  pub remove_finalizer : Object → Log → Result (Unit {0})
  -- The pod labels of the operator's deployment, as a selector.
  pub operator_selector : String → Log → Result String
  -- The phases of the pods that a selector picks.
  pub pod_phases : String → String → Log → Result (List String)
  -- The namespaces of the broker resources.
  pub brokers : Log → Result (List String)
  pub get_namespace : String → Log → Result (Unit {0})
  pub delete_namespace : String → Log → Result (Unit {0})
  -- The cluster IDs of the endpoints of a namespace.
  pub endpoints : String → Log → Result (List String)
  pub bindings : Log → Result (List ClusterRoleBinding)
  pub delete_binding : String → Log → Result (Unit {0})
  pub delete_role : String → Log → Result (Unit {0})
  pub crds : Log → Result (List String)
  pub delete_crd : String → Log → Result (Unit {0})
  pub gateway_nodes : Log → Result (List String)
  -- An update is a change of the labels of a node.
  pub update_node : String → (Labels → Labels) → Log → Result (Unit {0})

-- `delete(existing.Labels, label)`
unfoldable pub remove_label : String → Labels → Labels
remove_label label [] = []
remove_label label ((k, v) ∷ labels) =
    let rest = remove_label label labels in if k == label then rest else (k, v) ∷ rest

-- `strings.HasSuffix(name, ".submariner.io")`
unfoldable pub is_submariner_crd : String → Bool
is_submariner_crd name = has_suffix (codes name) (codes ".submariner.io")

-- The condition of the `continue` in deleteClusterRolesAndBindings, negated.
unfoldable pub is_deletable : String → Bool → String → Bool
is_deletable operator keep_operator name =
    has_prefix (codes name) (codes "submariner-") && not (keep_operator && name == operator)

-- The endpoints of the clusters that still use the broker.
unfoldable pub remote_clusters : String → List String → List String
remote_clusters cluster_name [] = []
remote_clusters cluster_name (id ∷ ids) =
    let rest = remote_clusters cluster_name ids in if id == cluster_name then rest else id ∷ rest

-- What a poll returns when its time is up.
abbrev pub timed_out : Error
timed_out = record { cause = interrupted; messages = "context deadline exceeded" ∷ [] }

module _ (api : Api) where
  open api use {rounds}

  -- wait.PollUntilContextTimeout with `immediate`: it calls the condition until that says true or
  -- fails, or until the time is up.
  unfoldable pub poll : ℕ → Run Bool → Run (Unit {0})
  poll zero condition = fail timed_out
  poll (suc n) condition =
      condition >>= λ done. elim done [ true ↦ pure tt | false ↦ poll n condition ]

  abbrev pub deletion : Object → Event
  deletion obj = call delete (resource_of obj.kind) obj.object_namespace obj.name

  -- The polled function of awaitDeleted.
  unfoldable pub try_delete : Object → Run Bool
  try_delete obj =
      on_error (ask (deletion obj) (api.delete_object obj)) (λ _. pure false)
        (λ e. if is_not_found e then pure true else fail e)

  unfoldable pub await_deleted : Object → Run (Unit {0})
  await_deleted obj = poll rounds (try_delete obj)

  unfoldable pub get_pod_label_selector : String → Run String
  get_pod_label_selector ns =
      on_error (ask (call get deployment ns api.operator_component) (api.operator_selector ns)) pure
        (λ e.
          if is_not_found e
          then pure ""
          else or_wrap "error retrieving operator deployment" (fail e))

  abbrev pod_warning : String
  pod_warning = "The Submariner operator pod %s so deletion of the resource was not completed"

  -- The first pod of the operator decides whether it can still finish the deletion by itself.
  unfoldable pub check_operator_pods : List String → Run (Unit {0})
  check_operator_pods [] = emit (warned pod_warning ("does not exist" ∷ []))
  check_operator_pods (phase ∷ _) =
      if phase == "Running"
      then report_error "" [] (new_error "the Submariner operator pod appears to be running")
      else emit (warned pod_warning ("is not running" ∷ phase ∷ []))

  unfoldable pub check_operator : String → Object → Run (Unit {0})
  check_operator selector obj =
      if selector == ""
      then emit (warned "The Submariner operator deployment does not exist" [])
      else or_wrap "error listing pods" (
          ask (call list pod obj.object_namespace selector)
            (api.pod_phases obj.object_namespace selector))
        >>= check_operator_pods

  -- What ensureDeleted does when the deletion timed out.
  unfoldable pub force_delete : Object → Run (Unit {0})
  force_delete obj = do
    selector ←
        or_wrap "error obtaining the operator deployment label"
          (get_pod_label_selector obj.object_namespace)
    check_operator selector obj
    ask (call update finalizer obj.object_namespace obj.name) (api.remove_finalizer obj)
    await_deleted obj

  unfoldable pub ensure_deleted : Object → Run (Unit {0})
  ensure_deleted obj =
      on_error (await_deleted obj) pure (λ e. if is_interrupted e then force_delete obj else fail e)

  -- The part of ensureSubmarinerDeleted after the resource was found.
  unfoldable pub delete_submariner : String → String × String → Run Bool
  delete_submariner cluster_name (ns, name) = do
    let obj = object submariner_cr ns name
    emit (succeeded "The connectivity component is installed on cluster %q" (cluster_name ∷ []))
    emit (started "Deleting the Submariner resource - this may take some time" [])
    or_report "Error deleting Submariner resource %q" (obj.name ∷ []) (ensure_deleted obj)
    pure true

  unfoldable pub ensure_submariner_deleted : String → String → Run Bool
  ensure_submariner_deleted cluster_name ns = deferring_end (do
    emit (
        started "Checking if the connectivity component is installed on cluster %q"
          (cluster_name ∷ []))
    on_error
        (ask (call get submariner ns api.submariner_cr_name)
          (api.get_object submariner_cr ns api.submariner_cr_name))
        (delete_submariner cluster_name)
        (λ e.
          if is_not_found e
          then (do
            emit (
                succeeded "The connectivity component is not installed on cluster %q - skipping"
                  (cluster_name ∷ []))
            pure false)
          else report_error "Error retrieving the Submariner resource" [] e))

  unfoldable pub delete_service_discovery : String → String × String → Run (Unit {0})
  delete_service_discovery cluster_name (ns, name) = do
    let obj = object service_discovery_cr ns name
    emit
        (succeeded "The service discovery component is installed on cluster %q" (cluster_name ∷ []))
    emit (started "Deleting the ServiceDiscovery resource - this may take some time" [])
    or_report "Error deleting ServiceDiscovery resource %q" (obj.name ∷ []) (ensure_deleted obj)

  unfoldable pub ensure_service_discovery_deleted : String → String → Run (Unit {0})
  ensure_service_discovery_deleted cluster_name ns = deferring_end (do
    emit (
        started "Checking if the service discovery component is installed on cluster %q"
          (cluster_name ∷ []))
    on_error
        (ask (call get service_discovery ns api.service_discovery_cr_name)
          (api.get_object service_discovery_cr ns api.service_discovery_cr_name))
        (delete_service_discovery cluster_name)
        (λ e.
          if is_not_found e
          then emit (
              succeeded "The service discovery component is not installed on cluster %q - skipping"
                (cluster_name ∷ []))
          else report_error "Error retrieving the ServiceDiscovery resource" [] e))

  -- The first broker resource found; "" where there is none.
  unfoldable pub first_broker : String → List String → Run String
  first_broker cluster_name [] = do
    emit (succeeded "The broker component is not installed on cluster %q" (cluster_name ∷ []))
    pure ""
  first_broker cluster_name (ns ∷ _) = do
    emit (succeeded "The broker component is installed in namespace %q" (ns ∷ []))
    pure ns

  unfoldable pub find_broker_namespace : String → Run String
  find_broker_namespace cluster_name = deferring_end (do
    emit (started "Checking if the broker component is installed on cluster %q" (cluster_name ∷ []))
    on_error (ask (call list broker "" "") api.brokers) (first_broker cluster_name) (λ e.
        if is_not_found e
        then first_broker cluster_name []
        else report_error "Error listing broker resources" [] e))

  unfoldable pub report_in_use : String → List String → Run Bool
  report_in_use ns [] = pure false
  report_in_use ns (id ∷ ids) = do
    emit (warned "Broker namespace %q appears to be in use by other clusters" (ns ∷ id ∷ ids))
    pure true

  unfoldable pub broker_in_use : String → String → Run Bool
  broker_in_use ns cluster_name = deferring_end (do
    emit (started "Verifying broker namespace %q is not in use" (ns ∷ []))
    ids ←
        or_report "error retrieving Endpoints" []
          (ask (call list endpoint ns "") (api.endpoints ns))
    report_in_use ns (remote_clusters cluster_name ids))

  unfoldable pub delete_broker_namespace : String → Run Bool
  delete_broker_namespace ns = do
    emit (started "Deleting the broker namespace %q" (ns ∷ []))
    deferring_end (do
      or_report "Error deleting the broker namespace" []
          (ignore_not_found (ask (call delete namespace "" ns) (api.delete_namespace ns)))
      pure true)

  unfoldable pub delete_broker_if_unused : String → String → Run Bool
  delete_broker_if_unused ns cluster_name =
      if ns == ""
      then pure true
      else on_error (ask (call get namespace "" ns) (api.get_namespace ns))
          (λ _. broker_in_use ns cluster_name >>= λ in_use.
            if in_use then pure false else delete_broker_namespace ns)
          (λ e.
            if is_not_found e
            then pure true
            else report_error "Error retrieving broker namespace %q" (ns ∷ []) e)

  -- One round of the loop of deleteClusterRolesAndBindings.
  unfoldable pub delete_role_and_binding : Bool → ClusterRoleBinding → Run (Unit {0})
  delete_role_and_binding keep_operator b =
      if is_deletable api.operator_component keep_operator b.binding_name
      then (do
        or_report "Error deleting ClusterRoleBinding %q" (b.binding_name ∷ []) (
            ask (call delete cluster_role_binding "" b.binding_name)
              (api.delete_binding b.binding_name))
        or_report "Error deleting ClusterRole %q" (b.role_ref ∷ []) (
            ignore_not_found
              (ask (call delete cluster_role "" b.role_ref) (api.delete_role b.role_ref)))
        emit (succeeded "Deleted the %q cluster role and binding" (b.binding_name ∷ [])))
      else pure tt

  unfoldable pub delete_cluster_roles_and_bindings : String → Bool → Run (Unit {0})
  delete_cluster_roles_and_bindings cluster_name keep_operator = do
    emit (
        started "Deleting the Submariner cluster roles and bindings on cluster %q"
          (cluster_name ∷ []))
    deferring_end (do
      bs ←
          or_report "Error listing ClusterRoleBindings" []
            (ask (call list cluster_role_binding "" "") api.bindings)
      for_each (delete_role_and_binding keep_operator) bs)

  unfoldable pub delete_one_crd : String → Run (Unit {0})
  delete_one_crd name =
      if is_submariner_crd name
      then (do
        or_report "Error deleting CustomResourceDefinition %q" (name ∷ [])
            (ask (call delete crd "" name) (api.delete_crd name))
        emit (succeeded "Deleted the %q custom resource definition" (name ∷ [])))
      else pure tt

  unfoldable pub delete_crds : String → Run (Unit {0})
  delete_crds cluster_name = do
    emit (
        started "Deleting the Submariner custom resource definitions on cluster %q"
          (cluster_name ∷ []))
    deferring_end (do
      names ←
          or_report "Error listing CustomResourceDefinitions" []
            (ask (call list crd "" "") api.crds)
      for_each delete_one_crd names)

  unfoldable pub unlabel_node : String → Run (Unit {0})
  unlabel_node name =
      or_report "Error updating Node %q" (name ∷ [])
        (ask (call update node "" name) (api.update_node name (remove_label api.gateway_label)))

  unfoldable pub unlabel_gateway_nodes : String → Run (Unit {0})
  unlabel_gateway_nodes cluster_name = do
    emit (started "Unlabeling gateway nodes on cluster %q" (cluster_name ∷ []))
    deferring_end (do
      names ←
          or_report "Error listing Nodes" []
            (ask (call list node "" api.gateway_label) api.gateway_nodes)
      for_each unlabel_node names)

  -- The end of All where the broker is gone too. `defer status.End()` runs when All returns.
  unfoldable pub delete_installation : String → String → Run (Unit {0})
  delete_installation cluster_name ns = do
    emit (started "Deleting the Submariner namespace %q on cluster %q" (ns ∷ cluster_name ∷ []))
    deferring_end (do
      or_report "Error deleting the Submariner namespace" []
          (ignore_not_found (ask (call delete namespace "" ns) (api.delete_namespace ns)))
      delete_crds cluster_name
      unlabel_gateway_nodes cluster_name)

  unfoldable pub all : String → String → Run (Unit {0})
  all cluster_name ns = do
    found ← ensure_submariner_deleted cluster_name ns
    if found then pure tt else ensure_service_discovery_deleted cluster_name ns
    broker_ns ← find_broker_namespace cluster_name
    deleted ← delete_broker_if_unused broker_ns cluster_name
    delete_cluster_roles_and_bindings cluster_name (not deleted)
    if deleted then delete_installation cluster_name ns else unlabel_gateway_nodes cluster_name
