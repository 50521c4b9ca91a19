-- ===== src/Contexts/Several.antt =====
-- RunOnSelectedContexts of internal/restconfig/restconfig.go, which hands all selected contexts to one
-- function, and the filters on what is installed.
use subctl.Base.{String, Bool, true, false, List, [], ◌∷◌, none, some, if◌then◌else◌}
use subctl.Base.Effect.{Run, emit, pure, lift, ◌>>=◌, ◌>>◌, or_report, warned, aggregate}
use subctl.Cluster.Info.{ClusterInfo}
use subctl.Contexts.Defs.{
  Overrides, Producer, Loader, PerContextFn, choose_namespace, get_rest_config_from_config,
  new_cluster_info, run_in_cluster,
}
use subctl.Contexts.Plan.{attempt_each}

abbrev pub AllContextFn : Type 0
AllContextFn = List ClusterInfo → List String → Run (Unit {0})

module _ (l : Loader) where
  -- The body of the loop: the cluster and the namespace of a context.
  unfoldable pub read_context : Producer → Overrides → String → Run (ClusterInfo × String)
  read_context p o name =
      or_report "error retrieving the configuration for context %s" (name ∷ [])
        (get_rest_config_from_config l p.explicit_path o)
      >>= λ config.
          or_report "error building the cluster.Info for context %s" (name ∷ [])
            (new_cluster_info l config.1 config.0)
          >>= λ info.
              or_report "error retrieving the namespace for context %s" (name ∷ [])
                (lift (l.load_namespace p.explicit_path o))
              >>= λ ns. pure (info, choose_namespace ns p.default_namespace)

  unfoldable pub read_contexts :
      Producer → Overrides → List String → Run (List ClusterInfo × List String)
  read_contexts p o [] = pure ([], [])
  read_contexts p o (n ∷ ns) = read_context p (record o { current_context = n }) n >>= λ found.
      read_contexts p o ns >>= λ rest. pure (found.0 ∷ rest.0, found.1 ∷ rest.1)

  abbrev pub run_on_listed : Producer → Overrides → List String → AllContextFn → Run Bool
  run_on_listed p o [] function = pure false
  run_on_listed p o (n ∷ ns) function =
      read_contexts p o (n ∷ ns) >>= λ found. function found.0 found.1 >> pure true

  -- True, or an error, if a context was selected.
  unfoldable pub run_on_selected_contexts : Producer → AllContextFn → Run Bool
  run_on_selected_contexts p function =
      if p.in_cluster
      then (run_in_cluster l (λ info ns. function (info ∷ []) (ns ∷ [])) >> pure true)
      else elim p.default_client_config [
        | none ↦ pure false
        | some o ↦ run_on_listed p o p.contexts function
      ]

abbrev pub run_each : List PerContextFn → ClusterInfo → String → Run (Unit {0})
run_each functions info ns =
    attempt_each (λ function. function info ns) functions >>= λ errors. aggregate errors

unfoldable pub if_connectivity_installed : List PerContextFn → PerContextFn
if_connectivity_installed functions info ns = elim info.submariner_cr [
  | none ↦ emit (warned "Submariner connectivity feature is not installed" [])
  | some _ ↦ run_each functions info ns
]

unfoldable pub if_service_discovery_installed : List PerContextFn → PerContextFn
if_service_discovery_installed functions info ns = elim info.discovery_cr [
  | none ↦ emit (warned "Submariner service discovery feature is not installed" [])
  | some _ ↦ run_each functions info ns
]
