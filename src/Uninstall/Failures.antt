-- ===== src/Uninstall/Failures.antt =====
-- No function of pkg/uninstall/all.go fails in silence.
use subctl.Base.{String, Bool, ◌∷◌, List, [], ◌≡◌, subst}
use subctl.Base.Effect.{Error, Log, err}
use subctl.Base.Report.{Reports, reporting, HasErrored, FailsWith}
use subctl.Uninstall.{
  Api, ClusterRoleBinding, delete_one_crd, delete_crds, unlabel_node, unlabel_gateway_nodes,
  delete_installation, delete_role_and_binding, delete_cluster_roles_and_bindings,
  delete_broker_namespace, report_in_use, broker_in_use, delete_broker_if_unused, first_broker,
  find_broker_namespace, delete_service_discovery, ensure_service_discovery_deleted,
  delete_submariner, ensure_submariner_deleted, all,
}

module _ (api : Api) where
  delete_one_crd-Reports : (n : String) → Reports (delete_one_crd api n)
  unfolding delete_one_crd
  delete_one_crd-Reports n = search reporting depth 20

  delete_crds-Reports : (c : String) → Reports (delete_crds api c)
  unfolding delete_crds
  delete_crds-Reports c = search (reporting, delete_one_crd-Reports) depth 20

  unlabel_node-Reports : (n : String) → Reports (unlabel_node api n)
  unfolding unlabel_node
  unlabel_node-Reports n = search reporting depth 20

  unlabel_gateway_nodes-Reports : (c : String) → Reports (unlabel_gateway_nodes api c)
  unfolding unlabel_gateway_nodes
  unlabel_gateway_nodes-Reports c = search (reporting, unlabel_node-Reports) depth 20

  delete_installation-Reports : (c ns : String) → Reports (delete_installation api c ns)
  unfolding delete_installation
  delete_installation-Reports c ns =
      search (reporting, delete_crds-Reports, unlabel_gateway_nodes-Reports) depth 20

  delete_role_and_binding-Reports :
      (k : Bool) (b : ClusterRoleBinding) → Reports (delete_role_and_binding api k b)
  unfolding delete_role_and_binding
  delete_role_and_binding-Reports k b = search reporting depth 20

  delete_cluster_roles_and_bindings-Reports :
      (c : String) (k : Bool) → Reports (delete_cluster_roles_and_bindings api c k)
  unfolding delete_cluster_roles_and_bindings
  delete_cluster_roles_and_bindings-Reports c k =
      search (reporting, delete_role_and_binding-Reports) depth 20

  report_in_use-Reports : (ns : String) (ids : List String) → Reports (report_in_use api ns ids)
  unfolding report_in_use
  report_in_use-Reports ns [] = search reporting depth 20
  report_in_use-Reports ns (id ∷ ids) = search reporting depth 20

  broker_in_use-Reports : (ns c : String) → Reports (broker_in_use api ns c)
  unfolding broker_in_use
  broker_in_use-Reports ns c = search (reporting, report_in_use-Reports) depth 20

  delete_broker_namespace-Reports : (ns : String) → Reports (delete_broker_namespace api ns)
  unfolding delete_broker_namespace
  delete_broker_namespace-Reports ns = search reporting depth 20

  delete_broker_if_unused-Reports : (ns c : String) → Reports (delete_broker_if_unused api ns c)
  unfolding delete_broker_if_unused
  delete_broker_if_unused-Reports ns c =
      search (reporting, broker_in_use-Reports, delete_broker_namespace-Reports) depth 20

  first_broker-Reports : (c : String) (ns : List String) → Reports (first_broker api c ns)
  unfolding first_broker
  first_broker-Reports c [] = search reporting depth 20
  first_broker-Reports c (n ∷ ns) = search reporting depth 20

  find_broker_namespace-Reports : (c : String) → Reports (find_broker_namespace api c)
  unfolding find_broker_namespace
  find_broker_namespace-Reports c = search (reporting, first_broker-Reports) depth 20

  delete_service_discovery-Reports :
      (c : String) (o : String × String) → Reports (delete_service_discovery api c o)
  unfolding delete_service_discovery
  delete_service_discovery-Reports c o = search reporting depth 20

  ensure_service_discovery_deleted-Reports :
      (c ns : String) → Reports (ensure_service_discovery_deleted api c ns)
  unfolding ensure_service_discovery_deleted
  ensure_service_discovery_deleted-Reports c ns =
      search (reporting, delete_service_discovery-Reports) depth 20

  delete_submariner-Reports :
      (c : String) (o : String × String) → Reports (delete_submariner api c o)
  unfolding delete_submariner
  delete_submariner-Reports c o = search reporting depth 20

  ensure_submariner_deleted-Reports : (c ns : String) → Reports (ensure_submariner_deleted api c ns)
  unfolding ensure_submariner_deleted
  ensure_submariner_deleted-Reports c ns = search (reporting, delete_submariner-Reports) depth 20

  all-Reports : (c ns : String) → Reports (all api c ns)
  unfolding all
  all-Reports c ns =
      search
        (
          reporting, ensure_submariner_deleted-Reports, ensure_service_discovery_deleted-Reports,
          find_broker_namespace-Reports, delete_broker_if_unused-Reports,
          delete_cluster_roles_and_bindings-Reports, delete_installation-Reports,
          unlabel_gateway_nodes-Reports,
        )
        depth 20

  -- An uninstallation that starts with nothing logged and returns an error has reported an error through
  -- `status.Error`, whatever the API server answers and wherever it stops.
  pub all_reports :
      (c ns : String) {e : Error} {after : Log}
      → all api c ns [] ≡ (err e, after)
      → HasErrored after
  all_reports c ns h = subst (FailsWith HasErrored) h ((all-Reports c ns).run [])
