-- ===== src/Uninstall/Tests.antt =====
-- Runs of pkg/uninstall/all.go on a small cluster, and the theorems at such runs.
use subctl.Base.{
  String, ◌≡◌, refl, true, false, ◌∷◌, List, [], String_eq, All, inl, inr, arith, has_suffix,
  has_prefix,
}
use text.Mathlib.TextEquality.{eq_iff}
use subctl.Base.Effect.{
  Error, Result, ok, err, Log, pure, fail, ◌>>=◌, ask, emit, on_error, or_wrap, or_report,
  report_error, ignore_not_found, deferring_end, for_each, call, delete, update, list, get, node,
  cluster_role_binding, cluster_role, endpoint, namespace, broker, submariner, not_found, new_error,
}
use subctl.Base.Keep.{Keeps}
use subctl.Base.Report.{HasErrored}
use subctl.Uninstall.{
  Api, Object, object, submariner_cr, ClusterRoleBinding, all, ensure_submariner_deleted,
  delete_submariner, ensure_deleted, await_deleted, poll, try_delete, force_delete,
  ensure_service_discovery_deleted, find_broker_namespace, first_broker, delete_broker_if_unused,
  broker_in_use, report_in_use, remote_clusters, delete_broker_namespace,
  delete_cluster_roles_and_bindings, delete_role_and_binding, is_deletable, delete_crds,
  delete_one_crd, is_submariner_crd, unlabel_gateway_nodes, unlabel_node, delete_installation,
}
use subctl.Uninstall.Allowed.{IsAllowed}
use subctl.Uninstall.Failures.{all_reports}
use subctl.Uninstall.Gone.{Gone, ensure_deleted-Gone}
use subctl.Uninstall.Shared.{IsShared, all-Spared}
use subctl.Uninstall.Spares.{all-InScope}

abbrev missing : Error
missing = record { cause = not_found; messages = "not found" ∷ [] }

-- The first request deletes the object, the second finds it gone.
abbrev deleted_at_once : Object → Log → Result (Unit {0})
deleted_at_once obj [] = ok tt
deleted_at_once obj (_ ∷ _) = err missing

abbrev operator_binding : ClusterRoleBinding
operator_binding = record { binding_name = "submariner-operator"; role_ref = "submariner-operator" }

abbrev gateway_binding : ClusterRoleBinding
gateway_binding = record { binding_name = "submariner-gateway"; role_ref = "submariner-gateway" }

abbrev foreign_binding : ClusterRoleBinding
foreign_binding = record { binding_name = "cluster-admin"; role_ref = "admin" }

-- A cluster with a gateway node, whose broker serves the clusters with the given IDs.
abbrev site : List String → Result (List String) → Api
site ids nodes = record {
  operator_component = "submariner-operator";
  submariner_cr_name = "submariner";
  service_discovery_cr_name = "service-discovery";
  gateway_label = "submariner.io/gateway";
  rounds = 3;
  get_object = λ kind ns name log. ok (ns, name);
  delete_object = deleted_at_once;
  remove_finalizer = λ obj log. ok tt;
  operator_selector = λ ns log. err missing;
  pod_phases = λ ns selector log. ok [];
  brokers = λ log. ok ("broker" ∷ []);
  get_namespace = λ ns log. ok tt;
  delete_namespace = λ ns log. ok tt;
  endpoints = λ ns log. ok ids;
  bindings = λ log. ok (operator_binding ∷ gateway_binding ∷ foreign_binding ∷ []);
  delete_binding = λ name log. ok tt;
  delete_role = λ name log. err missing;
  crds = λ log. ok ("brokers.submariner.io" ∷ "pods.example" ∷ []);
  delete_crd = λ name log. ok tt;
  gateway_nodes = λ log. nodes;
  update_node = λ name change log. ok tt;
}

abbrev shared_site : Api
shared_site = site ("east" ∷ "west" ∷ []) (ok ("node" ∷ []))

abbrev broken_site : Api
broken_site = site ("east" ∷ []) (err (new_error "no nodes"))

run : Api → Result (Unit {0}) × Log
unfolding all ensure_submariner_deleted delete_submariner ensure_deleted await_deleted poll
    try_delete force_delete ensure_service_discovery_deleted find_broker_namespace first_broker
    delete_broker_if_unused broker_in_use report_in_use remote_clusters delete_broker_namespace
    delete_cluster_roles_and_bindings delete_role_and_binding is_deletable delete_crds
    delete_one_crd is_submariner_crd unlabel_gateway_nodes unlabel_node delete_installation pure
    fail ◌>>=◌ ask emit on_error or_wrap or_report report_error ignore_not_found deferring_end
    for_each has_prefix has_suffix
run api = all api "east" "submariner-operator" []

abbrev calls_only : Log → Log
calls_only [] = []
calls_only (call v r ns n ∷ log) = call v r ns n ∷ calls_only log
calls_only (_ ∷ log) = calls_only log

-- The broker is in use: the operator's binding stays, and the gateway is unlabelled.
shared_run :
    calls_only (run shared_site).1
    ≡ call update node "" "node"
      ∷ call list node "" "submariner.io/gateway"
      ∷ call delete cluster_role "" "submariner-gateway"
      ∷ call delete cluster_role_binding "" "submariner-gateway"
      ∷ call list cluster_role_binding "" ""
      ∷ call list endpoint "broker" ""
      ∷ call get namespace "" "broker"
      ∷ call list broker "" ""
      ∷ call delete submariner "submariner-operator" "submariner"
      ∷ call get submariner "submariner-operator" "submariner"
      ∷ []
unfolding run
shared_run = refl

ensure_deleted-Gone_example :
    Gone shared_site
      (object submariner_cr "ns" "submariner")
      (ensure_deleted shared_site (object submariner_cr "ns" "submariner") []).1
unfolding run
ensure_deleted-Gone_example =
    ensure_deleted-Gone shared_site (object submariner_cr "ns" "submariner") [] refl

all_reports_example : HasErrored (run broken_site).1
unfolding run
all_reports_example = all_reports broken_site "east" "submariner-operator" refl

all-InScope_example :
    Keeps
      (All (IsAllowed "submariner-operator" false))
      (all broken_site "east" "submariner-operator")
all-InScope_example = all-InScope broken_site "east" "submariner-operator"

shared_site-IsShared : IsShared shared_site "east"
shared_site-IsShared = record {
  broker_namespace = "broker";
  others = [];
  named = ground (arith, eq_iff "broker" "");
  brokers_found = λ log. refl;
  namespace_found = λ log. refl;
  ids = "east" ∷ "west" ∷ [];
  foreign = "west";
  foreign-ne = ground (arith, eq_iff "west" "east");
  foreign-mem = inr (inl refl);
  endpoints_found = λ log. refl;
}

all-Spared_example :
    Keeps
      (All (IsAllowed "submariner-operator" true))
      (all shared_site "east" "submariner-operator")
all-Spared_example = all-Spared shared_site "east" shared_site-IsShared "submariner-operator"
