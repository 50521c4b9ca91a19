-- ===== src/Uninstall/Complete.antt =====
-- What a successful run of pkg/uninstall/all.go has deleted.
use subctl.Base.{String, ◌≡◌, Bool, true, List, String_eq, All}
use subctl.Base.Effect.{ok, Log, call, delete, update, node, cluster_role_binding}
use subctl.Base.Steps.{Step, IsDone, answered}
use subctl.Uninstall.{Api, ClusterRoleBinding, remove_label, is_deletable}

module _ (api : Api) where
  -- The update of a node that takes the gateway label off was answered without an error.
  abbrev pub unlabelled : String → Step
  unlabelled n =
      answered (call update node "" n) (api.update_node n (remove_label api.gateway_label))

  -- The deletion of a binding was answered without an error.
  abbrev pub binding_deleted : ClusterRoleBinding → Step
  binding_deleted b =
      answered (call delete cluster_role_binding "" b.binding_name)
        (api.delete_binding b.binding_name)

  -- The loops, over lists that the API server answers throughout.
  module _ (nodes : List String)
      (nodes_found : (log : Log) → api.gateway_nodes log ≡ ok nodes) where
    abbrev Unlabelled : Log → Type 0
    Unlabelled log = All (λ n. Unit {0} → IsDone (unlabelled n) log) nodes

  module _ (bs : List ClusterRoleBinding) (bs_found : (log : Log) → api.bindings log ≡ ok bs) where
    abbrev IsWanted : Bool → ClusterRoleBinding → Type 0
    IsWanted keep b = is_deletable api.operator_component keep b.binding_name ≡ true

    abbrev Deleted : Bool → Log → Type 0
    Deleted keep log = All (λ b. IsWanted keep b → IsDone (binding_deleted b) log) bs

  module _ (nodes : List String) (bs : List ClusterRoleBinding)
      (nodes_found : (log : Log) → api.gateway_nodes log ≡ ok nodes)
      (bs_found : (log : Log) → api.bindings log ≡ ok bs) where
    abbrev Done : Log → Type 0
    Done = Deleted bs bs_found true
