-- ===== src/Uninstall/Allowed.antt =====
-- The calls that the functions of pkg/uninstall/all.go may make, by what has to be kept.
use subctl.Base.{ℕ, zero, suc, String, ◌≡◌, Bool, true, false, ◌∷◌, List, [], String_eq, arith}
use subctl.Base.Effect.{Event, remote, Log, Verb, Resource, Run, call, pure}
use subctl.Base.Keep.{Keeps-if_known, Keeps, keeping, Adds, Keeps-bind, Keeps-pure, Keeps-fail}
use subctl.Uninstall.{
  Api, Object, CustomResource, submariner_cr, service_discovery_cr, deletion, ClusterRoleBinding,
  is_deletable, is_submariner_crd, poll, try_delete, await_deleted, get_pod_label_selector,
  check_operator_pods, check_operator, force_delete, ensure_deleted, unlabel_node,
  unlabel_gateway_nodes, delete_role_and_binding, delete_cluster_roles_and_bindings, report_in_use,
  broker_in_use, first_broker, find_broker_namespace, delete_service_discovery,
  ensure_service_discovery_deleted, delete_submariner, ensure_submariner_deleted, timed_out,
  resource_of,
}

-- The resources that a run may update: nodes, to unlabel them, and finalizers.
abbrev IsUpdatable : Resource → Type 0
IsUpdatable Resource.node = Unit {0}
IsUpdatable Resource.finalizer = Unit {0}
IsUpdatable _ = ⊥

-- With `keep` the broker stays, so no namespace, no custom resource definition and no binding of the
-- operator may go. In any case only Submariner's own resources may.
abbrev IsAllowedDelete : String → Bool → Resource → String → Type 0
IsAllowedDelete operator keep Resource.namespace n = keep ≡ false
IsAllowedDelete operator keep Resource.crd n = (keep ≡ false) × (is_submariner_crd n ≡ true)
IsAllowedDelete operator keep Resource.cluster_role_binding n = is_deletable operator keep n ≡ true
IsAllowedDelete operator keep Resource.cluster_role n = Unit {0}
IsAllowedDelete operator keep Resource.submariner n = Unit {0}
IsAllowedDelete operator keep Resource.service_discovery n = Unit {0}
IsAllowedDelete operator keep _ n = ⊥

abbrev IsAllowedCall : String → Bool → Verb → Resource → String → Type 0
IsAllowedCall operator keep Verb.get r n = Unit {0}
IsAllowedCall operator keep Verb.list r n = Unit {0}
IsAllowedCall operator keep Verb.create r n = ⊥
IsAllowedCall operator keep Verb.update r n = IsUpdatable r
IsAllowedCall operator keep Verb.delete r n = IsAllowedDelete operator keep r n
IsAllowedCall operator keep Verb.patch r n = ⊥
IsAllowedCall operator keep Verb.apply r n = ⊥
IsAllowedCall operator keep Verb.replace r n = ⊥

-- Reporter calls are always allowed.
abbrev pub IsAllowed : String → Bool → Event → Type 0
IsAllowed operator keep (call v r ns n) = IsAllowedCall operator keep v r n
IsAllowed operator keep (remote v r ns n) = ⊥
IsAllowed operator keep _ = Unit {0}

pub is_deletable-weaken :
    (operator : String) (kept : Bool) (n : String)
    → is_deletable operator kept n ≡ true
    → is_deletable operator false n ≡ true
unfolding is_deletable
is_deletable-weaken operator kept n h = ground arith

-- The calls that delete nothing of what may have to be kept, for any property of the log that allowed
-- events keep.
module _ (api : Api) (keep : Bool) (Q : Log → Type 0)
    (adds : (e : Event) → IsAllowed api.operator_component keep e → Adds Q e) where
  deletion-allowed : (obj : Object) → Adds Q (deletion api obj)
  deletion-allowed obj = adds (deletion api obj) (of_kind obj.kind)
    where
      of_kind :
          (k : CustomResource)
          → IsAllowedDelete api.operator_component keep (resource_of k) obj.name
      of_kind submariner_cr = tt
      of_kind service_discovery_cr = tt

  try_delete-Keeps : (obj : Object) → Keeps Q (try_delete api obj)
  unfolding try_delete
  try_delete-Keeps obj = search (keeping, deletion-allowed) depth 20

  poll_after-Keeps :
      (done : Bool) (rest : Run (Unit {0}))
      → Keeps Q rest
      → Keeps Q (elim done [ true ↦ pure tt | false ↦ rest ])
  poll_after-Keeps true rest h = Keeps-pure Q tt
  poll_after-Keeps false rest h = h

  poll-Keeps : (n : ℕ) (obj : Object) → Keeps Q (poll api n (try_delete api obj))
  unfolding poll
  poll-Keeps zero obj = Keeps-fail Q _ timed_out
  poll-Keeps (suc n) obj =
      Keeps-bind Q (try_delete api obj) _ (try_delete-Keeps obj)
        (λ done. poll_after-Keeps done (poll api n (try_delete api obj)) (poll-Keeps n obj))

  await_deleted-Keeps : (obj : Object) → Keeps Q (await_deleted api obj)
  unfolding await_deleted
  await_deleted-Keeps obj = poll-Keeps api.rounds obj

  get_pod_label_selector-Keeps : (ns : String) → Keeps Q (get_pod_label_selector api ns)
  unfolding get_pod_label_selector
  get_pod_label_selector-Keeps ns = search (keeping, adds, tt) depth 20

  check_operator_pods-Keeps : (phases : List String) → Keeps Q (check_operator_pods api phases)
  unfolding check_operator_pods
  check_operator_pods-Keeps [] = search (keeping, adds, tt) depth 20
  check_operator_pods-Keeps (p ∷ ps) = search (keeping, adds, tt) depth 20

  check_operator-Keeps : (s : String) (obj : Object) → Keeps Q (check_operator api s obj)
  unfolding check_operator
  check_operator-Keeps s obj = search (keeping, adds, check_operator_pods-Keeps, tt) depth 20

  force_delete-Keeps : (obj : Object) → Keeps Q (force_delete api obj)
  unfolding force_delete
  force_delete-Keeps obj =
      search
        (keeping, adds, get_pod_label_selector-Keeps, check_operator-Keeps, await_deleted-Keeps)
        depth 20

  ensure_deleted-Keeps : (obj : Object) → Keeps Q (ensure_deleted api obj)
  unfolding ensure_deleted
  ensure_deleted-Keeps obj = search (keeping, await_deleted-Keeps, force_delete-Keeps) depth 20

  delete_submariner-Keeps : (c : String) (o : String × String) → Keeps Q (delete_submariner api c o)
  unfolding delete_submariner
  delete_submariner-Keeps c o = search (keeping, adds, ensure_deleted-Keeps, tt) depth 20

  pub ensure_submariner_deleted-Keeps :
      (c ns : String) → Keeps Q (ensure_submariner_deleted api c ns)
  unfolding ensure_submariner_deleted
  ensure_submariner_deleted-Keeps c ns =
      search (keeping, adds, delete_submariner-Keeps, tt) depth 20

  delete_service_discovery-Keeps :
      (c : String) (o : String × String) → Keeps Q (delete_service_discovery api c o)
  unfolding delete_service_discovery
  delete_service_discovery-Keeps c o = search (keeping, adds, ensure_deleted-Keeps, tt) depth 20

  pub ensure_service_discovery_deleted-Keeps :
      (c ns : String) → Keeps Q (ensure_service_discovery_deleted api c ns)
  unfolding ensure_service_discovery_deleted
  ensure_service_discovery_deleted-Keeps c ns =
      search (keeping, adds, delete_service_discovery-Keeps, tt) depth 20

  first_broker-Keeps : (c : String) (ns : List String) → Keeps Q (first_broker api c ns)
  unfolding first_broker
  first_broker-Keeps c [] = search (keeping, adds, tt) depth 20
  first_broker-Keeps c (n ∷ ns) = search (keeping, adds, tt) depth 20

  pub find_broker_namespace-Keeps : (c : String) → Keeps Q (find_broker_namespace api c)
  unfolding find_broker_namespace
  find_broker_namespace-Keeps c = search (keeping, adds, first_broker-Keeps, tt) depth 20

  report_in_use-Keeps : (ns : String) (ids : List String) → Keeps Q (report_in_use api ns ids)
  unfolding report_in_use
  report_in_use-Keeps ns [] = search keeping depth 20
  report_in_use-Keeps ns (id ∷ ids) = search (keeping, adds, tt) depth 20

  pub broker_in_use-Keeps : (ns c : String) → Keeps Q (broker_in_use api ns c)
  unfolding broker_in_use
  broker_in_use-Keeps ns c = search (keeping, adds, report_in_use-Keeps, tt) depth 20

  pub unlabel_node-Keeps : (n : String) → Keeps Q (unlabel_node api n)
  unfolding unlabel_node
  unlabel_node-Keeps n = search (keeping, adds, tt) depth 20

  pub unlabel_gateway_nodes-Keeps : (c : String) → Keeps Q (unlabel_gateway_nodes api c)
  unfolding unlabel_gateway_nodes
  unlabel_gateway_nodes-Keeps c = search (keeping, adds, unlabel_node-Keeps, tt) depth 20

  -- `kept` is what the code was asked to keep, `keep` what the calls are held to.
  pub delete_role_and_binding-Keeps :
      (kept : Bool) (b : ClusterRoleBinding)
      → ((n : String)
          → is_deletable api.operator_component kept n ≡ true
          → is_deletable api.operator_component keep n ≡ true)
      → Keeps Q (delete_role_and_binding api kept b)
  unfolding delete_role_and_binding
  delete_role_and_binding-Keeps kept b h =
      Keeps-if_known Q (is_deletable api.operator_component kept b.binding_name) _ _
        (λ q. search (keeping, adds, h b.binding_name q, tt) depth 20) (λ _. Keeps-pure Q tt)

  pub delete_cluster_roles_and_bindings-Keeps :
      (c : String) (kept : Bool)
      → ((n : String)
          → is_deletable api.operator_component kept n ≡ true
          → is_deletable api.operator_component keep n ≡ true)
      → Keeps Q (delete_cluster_roles_and_bindings api c kept)
  unfolding delete_cluster_roles_and_bindings
  delete_cluster_roles_and_bindings-Keeps c kept h =
      let body = λ (b : ClusterRoleBinding). delete_role_and_binding-Keeps kept b h in
      search (keeping, adds, body, tt) depth 20
