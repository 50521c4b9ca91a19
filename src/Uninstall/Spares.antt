-- ===== src/Uninstall/Spares.antt =====
-- What pkg/uninstall/all.go leaves alone in any case.
use subctl.Base.{String, ◌≡◌, refl, Bool, true, false, String_eq, All}
use subctl.Base.Effect.{Event, Log}
use subctl.Base.Keep.{Keeps-if_known, Keeps, keeping, Adds, Adds-All, Keeps-pure}
use subctl.Uninstall.{
  Api, is_submariner_crd, delete_one_crd, delete_crds, delete_installation,
  delete_cluster_roles_and_bindings, delete_broker_namespace, delete_broker_if_unused, all,
}
use subctl.Uninstall.Allowed.{
  is_deletable-weaken, IsAllowed, ensure_submariner_deleted-Keeps,
  ensure_service_discovery_deleted-Keeps, find_broker_namespace-Keeps, broker_in_use-Keeps,
  delete_cluster_roles_and_bindings-Keeps, unlabel_gateway_nodes-Keeps,
}

module _ (api : Api) (Q : Log → Type 0)
    (adds : (e : Event) → IsAllowed api.operator_component false e → Adds Q e) where
  delete_broker_namespace-Keeps : (ns : String) → Keeps Q (delete_broker_namespace api ns)
  unfolding delete_broker_namespace
  delete_broker_namespace-Keeps ns = search (keeping, adds, tt) depth 20

  delete_broker_if_unused-Keeps : (ns c : String) → Keeps Q (delete_broker_if_unused api ns c)
  unfolding delete_broker_if_unused
  delete_broker_if_unused-Keeps ns c =
      search
        (keeping, adds, broker_in_use-Keeps api false Q adds, delete_broker_namespace-Keeps, tt)
        depth 20

  pub delete_one_crd-Keeps : (n : String) → Keeps Q (delete_one_crd api n)
  unfolding delete_one_crd
  delete_one_crd-Keeps n =
      Keeps-if_known Q (is_submariner_crd n) _ _
        (λ q.
          let here : (◌≡◌ {A = Bool} false false) × (is_submariner_crd n ≡ true) = (refl, q) in
          search (keeping, adds, here, tt) depth 20)
        (λ _. Keeps-pure Q tt)

  delete_crds-Keeps : (c : String) → Keeps Q (delete_crds api c)
  unfolding delete_crds
  delete_crds-Keeps c = search (keeping, adds, delete_one_crd-Keeps, tt) depth 20

  pub delete_installation-Keeps : (c ns : String) → Keeps Q (delete_installation api c ns)
  unfolding delete_installation
  delete_installation-Keeps c ns =
      search (keeping, adds, delete_crds-Keeps, unlabel_gateway_nodes-Keeps api false Q adds, tt)
        depth 20

  delete_roles-Keeps :
      (c : String) (kept : Bool) → Keeps Q (delete_cluster_roles_and_bindings api c kept)
  delete_roles-Keeps c kept =
      delete_cluster_roles_and_bindings-Keeps api false Q adds c kept
        (is_deletable-weaken api.operator_component kept)

  pub all-Keeps : (c ns : String) → Keeps Q (all api c ns)
  unfolding all
  all-Keeps c ns =
      search
        (
          keeping,
          ensure_submariner_deleted-Keeps api false Q adds,
          ensure_service_discovery_deleted-Keeps api false Q adds,
          find_broker_namespace-Keeps api false Q adds,
          delete_broker_if_unused-Keeps,
          delete_roles-Keeps,
          delete_installation-Keeps,
          unlabel_gateway_nodes-Keeps api false Q adds,
        )
        depth 20

module _ (api : Api) where
  abbrev InScope : Log → Type 0
  InScope = All (IsAllowed api.operator_component false)

  -- Whatever the API server answers, and however the run ends, an uninstallation creates and patches
  -- nothing, updates nodes and finalizers only, deletes only those custom resource definitions whose
  -- names end in `.submariner.io` and those cluster role bindings whose names begin with `submariner-`,
  -- and otherwise deletes namespaces, cluster roles and Submariner's own two custom resources only.
  pub all-InScope : (c ns : String) → Keeps InScope (all api c ns)
  all-InScope = all-Keeps api InScope (Adds-All _)
